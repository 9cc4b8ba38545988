-- ===== src/State/Configs/Precedence.antt =====
-- Which configuration the lookup of `prepareDevices` ends at.
use k8s_dra_driver.Common.{
  ℕ, Bool, true, false, none, some, List, [], ◌∷◌, ◌++◌, String, contains, ok, err, Fault, failure,
  ◌≡◌, ◌≢◌, ◌⊎◌, inl, inr, refl, sym, ap, ◌∙◌, subst, arith,
}
use k8s_dra_driver.Devices.Allocatable.{AllocatableDevice}
use k8s_dra_driver.State.{ConfigApi}
use k8s_dra_driver.State.Configs.{OpaqueDeviceConfig, is_empty, accepts, default_for, find_config}

module _ {C T M : Type 0} (api : ConfigApi C T M) (request : String)
    (device : AllocatableDevice) where
  open api use {kind}

  -- The lookup goes past this config: it is for other requests, or for no one in particular and for
  -- devices of another type.
  abbrev pub IsPassed : OpaqueDeviceConfig C → Type 0
  IsPassed c =
      (contains request c.requests ≡ false)
      × (is_empty c.requests ≡ true → accepts api (kind c.config) device ≡ false)

  abbrev pub AllPassed : List (ℕ × OpaqueDeviceConfig C) → Type 0
  AllPassed [] = Unit
  AllPassed ((n, c) ∷ cs) = IsPassed c × AllPassed cs

  -- It applies: it is for a device of this type, and for this request or for every one.
  abbrev pub Applies : OpaqueDeviceConfig C → Type 0
  Applies c =
      (accepts api (kind c.config) device ≡ true)
      × ((contains request c.requests ≡ true) ⊎ (is_empty c.requests ≡ true))

  -- What the lookup does at its first config.
  abbrev Head : ℕ → OpaqueDeviceConfig C → List (ℕ × OpaqueDeviceConfig C) → Type 0
  Head n c cs =
      ((find_config api request device ((n, c) ∷ cs) ≡ ok (some (n, c))) × Applies c)
      ⊎ ((e : Fault) × (find_config api request device ((n, c) ∷ cs) ≡ err e))
      ⊎ ((find_config api request device ((n, c) ∷ cs) ≡ find_config api request device cs)
          × IsPassed c)

  head_lem :
      (n : ℕ) (c : OpaqueDeviceConfig C) (cs : List (ℕ × OpaqueDeviceConfig C)) (t b a : Bool)
      → contains request c.requests ≡ t
      → is_empty c.requests ≡ b
      → accepts api (kind c.config) device ≡ a
      → Head n c cs
  unfolding find_config
  head_lem n c cs true b true e1 e2 e3 = inl (rw (e1, e3) refl, (e3, inl e1))
  head_lem n c cs true b false e1 e2 e3 =
      inr (inl (failure "cannot apply config to device type", rw (e1, e3) refl))
  head_lem n c cs false true true e1 e2 e3 = inl (rw (e1, e2, e3) refl, (e3, inr e2))
  head_lem n c cs false true false e1 e2 e3 = inr (inr (rw (e1, e2, e3) refl, (e1, λ q. e3)))
  head_lem n c cs false false a e1 e2 e3 = inr (inr (rw (e1, e2) refl, (e1, λ q. cc (sym e2 ∙ q))))

  -- How the lookup splits the list at the config that it ends at.
  abbrev pub SplitsAt : List (ℕ × OpaqueDeviceConfig C) → ℕ × OpaqueDeviceConfig C → Type 0
  SplitsAt cs x =
      (before : List (ℕ × OpaqueDeviceConfig C)) × (after : List (ℕ × OpaqueDeviceConfig C)) × (cs
        ≡ before ++ (x ∷ after))
      × AllPassed before
      × Applies x.1

  grow :
      (y : ℕ × OpaqueDeviceConfig C) (cs : List (ℕ × OpaqueDeviceConfig C))
      (x : ℕ × OpaqueDeviceConfig C)
      → IsPassed y.1
      → SplitsAt cs x
      → SplitsAt (y ∷ cs) x
  grow y cs x p (before, after, e, passed, applies) =
      (y ∷ before, after, ap (λ r. y ∷ r) e, (p, passed), applies)

  -- The config that the lookup ends at applies to the device, and no config that stands before it in
  -- the list that is searched does.
  pub find_config-SplitsAt :
      (cs : List (ℕ × OpaqueDeviceConfig C)) (x : ℕ × OpaqueDeviceConfig C)
      → find_config api request device cs ≡ ok (some x)
      → SplitsAt cs x
  unfolding find_config
  find_config-SplitsAt [] x h = cc
  find_config-SplitsAt ((n, c) ∷ cs) x h = elim (head_lem n c cs _ _ _ refl refl refl) [
    | inl (e, applies) ↦
        let same : ok (some (n, c)) ≡ ok (some x) = sym e ∙ h in
        let same' : (n, c) ≡ x = cc in
        ([], cs, ap (λ r. r ∷ cs) same', tt, subst (λ y. Applies y.1) same' applies)
    | inr (inl (x', e)) ↦ cc (sym e ∙ h)
    | inr (inr (e, p)) ↦ grow (n, c) cs x p (find_config-SplitsAt cs x (sym e ∙ h))
  ]

  -- A lookup that ends at no config goes past all of them.
  pub find_config-AllPassed :
      (cs : List (ℕ × OpaqueDeviceConfig C))
      → find_config api request device cs ≡ ok none
      → AllPassed cs
  unfolding find_config
  find_config-AllPassed [] h = tt
  find_config-AllPassed ((n, c) ∷ cs) h = elim (head_lem n c cs _ _ _ refl refl refl) [
    | inl (e, applies) ↦ cc (sym e ∙ h)
    | inr (inl (x', e)) ↦ cc (sym e ∙ h)
    | inr (inr (e, p)) ↦ (p, find_config-AllPassed cs (sym e ∙ h))
  ]

  -- A default config of the device's kind in the list is enough for the lookup to end at a config or
  -- with an error.
  pub default_found :
      (before after : List (ℕ × OpaqueDeviceConfig C)) (n : ℕ) (c : C)
      → accepts api (kind c) device ≡ true
      → find_config api request device (before ++ ((n, default_for api c) ∷ after)) ≢ ok none
  unfolding find_config contains
  default_found [] after n c e h = cc (rw e at h)
  default_found ((k, d) ∷ before) after n c e h =
      elim (head_lem k d (before ++ ((n, default_for api c) ∷ after)) _ _ _ refl refl refl) [
        | inl (e', applies) ↦ cc (sym e' ∙ h)
        | inr (inl (x, e')) ↦ cc (sym e' ∙ h)
        | inr (inr (e', p)) ↦ default_found before after n c e (sym e' ∙ h)
      ]

  -- The lookup goes past a config that it is to pass.
  past :
      (n : ℕ) (c : OpaqueDeviceConfig C) (cs : List (ℕ × OpaqueDeviceConfig C))
      → IsPassed c
      → find_config api request device ((n, c) ∷ cs) ≡ find_config api request device cs
  unfolding find_config
  past n c cs p = ground (arith, p)

  -- More configs at the end of the list do not undo a find.
  pub kept_found :
      (cs after : List (ℕ × OpaqueDeviceConfig C))
      → find_config api request device cs ≢ ok none
      → find_config api request device (cs ++ after) ≢ ok none
  unfolding find_config
  kept_found [] after h e = h refl
  kept_found ((k, d) ∷ cs) after h e = elim (head_lem k d (cs ++ after) _ _ _ refl refl refl) [
    | inl (e', applies) ↦ cc (sym e' ∙ e)
    | inr (inl (x, e')) ↦ cc (sym e' ∙ e)
    | inr (inr (e', p)) ↦ kept_found cs after (λ q. h (past k d cs p ∙ q)) (sym e' ∙ e)
  ]
