-- ===== src/State/Configs/Last.antt =====
-- The last configuration of a list that applies to a device.
use k8s_dra_driver.Common.{ℕ, List, [], ◌∷◌, ◌++◌, String, ◌≡◌, sym, ap, ◌∙◌, subst}
use k8s_dra_driver.Devices.Allocatable.{AllocatableDevice}
use k8s_dra_driver.State.{ConfigApi}
use k8s_dra_driver.State.Configs.{OpaqueDeviceConfig, numbered, backward}
use k8s_dra_driver.State.Configs.Precedence.{IsPassed, AllPassed, Applies, SplitsAt}
use k8s_dra_driver.State.Configs.Positions.{
  backward-split, unnumbered, unnumbered-append, unnumbered-numbered,
}

module _ {C T M : Type 0} (api : ConfigApi C T M) where
  module _ (request : String) (device : AllocatableDevice) where
    -- The lookup goes past all of these configs.
    unfoldable pub NoneApplies : List (OpaqueDeviceConfig C) → Type 0
    NoneApplies [] = Unit
    NoneApplies (c ∷ cs) = IsPassed api request device c × NoneApplies cs

    NoneApplies-append :
        (xs ys : List (OpaqueDeviceConfig C))
        → NoneApplies xs
        → NoneApplies ys
        → NoneApplies (xs ++ ys)
    unfolding NoneApplies
    NoneApplies-append [] ys p q = q
    NoneApplies-append (x ∷ xs) ys (h, p) q = (h, NoneApplies-append xs ys p q)

    pub AllPassed-backward :
        (cs : List (ℕ × OpaqueDeviceConfig C))
        → AllPassed api request device cs
        → NoneApplies (unnumbered (backward cs))
    unfolding NoneApplies unnumbered backward
    AllPassed-backward [] p = tt
    AllPassed-backward ((n, c) ∷ cs) (h, p) =
        subst NoneApplies (sym (unnumbered-append (backward cs) ((n, c) ∷ [])))
          (NoneApplies-append (unnumbered (backward cs)) (c ∷ []) (AllPassed-backward cs p) (h, tt))

    -- The config applies, and none after it in the list does.
    abbrev pub IsLast : List (OpaqueDeviceConfig C) → OpaqueDeviceConfig C → Type 0
    IsLast all c =
        (before : List (OpaqueDeviceConfig C)) × (after : List (OpaqueDeviceConfig C)) × (all
          ≡ before ++ (c ∷ after))
        × Applies api request device c
        × NoneApplies after

    pub SplitsAt-IsLast :
        (all : List (OpaqueDeviceConfig C)) (x : ℕ × OpaqueDeviceConfig C)
        → SplitsAt api request device (backward (numbered api 0 all)) x
        → IsLast all x.1
    unfolding unnumbered
    SplitsAt-IsLast all x (before, after, e, passed, applies) = (
      unnumbered (backward after),
      unnumbered (backward before),
      sym (unnumbered-numbered api 0 all)
          ∙ ap unnumbered (backward-split (numbered api 0 all) before after x e)
          ∙ unnumbered-append (backward after) (x ∷ backward before),
      applies,
      AllPassed-backward before passed,
    )
