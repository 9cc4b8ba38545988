-- ===== src/State/Configs/Chosen.antt =====
-- The configuration under which a device of a claim is prepared, in the order of precedence that the
-- configurations of a claim have.
use k8s_dra_driver.Common.{
  ℕ, false, Option, none, some, List, [], ◌∷◌, ◌++◌, ◌==◌, if_cases, eqb, lookup, ok, ok_inj, err,
  and_then, and_then-eq-ok, some_inj, failure, ◌≡◌, ◌⊎◌, inl, inr, refl, sym, ap, ◌∙◌, subst,
}
use k8s_dra_driver.Kube.{AllocationConfig, AllocationResult}
use k8s_dra_driver.FeatureGates.{Gates}
use k8s_dra_driver.Devices.{driver_name}
use k8s_dra_driver.Devices.Allocatable.{AllocatableDevice, AllocatableDevices}
use k8s_dra_driver.State.{ConfigApi}
use k8s_dra_driver.State.Configs.{
  OpaqueDeviceConfig, Groups, is_class, is_claim, of_source, decode_configs,
  get_opaque_device_configs, with_defaults, numbered, backward, find_config, add_result, add_found,
  check_health, map_results, config_results,
}
use k8s_dra_driver.State.Configs.Precedence.{find_config-SplitsAt, find_config-AllPassed}
use k8s_dra_driver.State.Configs.Positions.{
  backward-backward, backward-split, unnumbered, at_position, same_id, unnumbered-numbered,
  split-at_position,
}
use k8s_dra_driver.State.Configs.Sources.{get_opaque-Splits}
use k8s_dra_driver.State.Configs.Last.{NoneApplies, AllPassed-backward, IsLast, SplitsAt-IsLast}

-- The element stands in the list.
unfoldable pub IsIn : {A : Type 0} → A → List A → Type 0
IsIn a [] = ⊥
IsIn a (x ∷ xs) = (a ≡ x) ⊎ IsIn a xs

IsIn-last : {A : Type 0} (a : A) (xs : List A) → IsIn a (xs ++ (a ∷ []))
unfolding IsIn
IsIn-last a [] = inl refl
IsIn-last a (x ∷ xs) = inr (IsIn-last a xs)

IsIn-append : {A : Type 0} (a b : A) (xs : List A) → IsIn a xs → IsIn a (xs ++ (b ∷ []))
unfolding IsIn
IsIn-append a b [] h = elim h [ ]
IsIn-append a b (x ∷ xs) (inl e) = inl e
IsIn-append a b (x ∷ xs) (inr h) = inr (IsIn-append a b xs h)

module _ {C T M : Type 0} (api : ConfigApi C T M) where
  module _ (g : Gates) (m : AllocatableDevices) (all : List (OpaqueDeviceConfig C)) where
    -- The result is that of an allocatable device, and the config is the last one that applies to it.
    abbrev pub IsChosen : OpaqueDeviceConfig C → AllocationResult → Type 0
    IsChosen c r =
        (device : AllocatableDevice) × (lookup r.device m ≡ some device)
        × IsLast api r.request device all c

    unfoldable pub AllChosen : OpaqueDeviceConfig C → List AllocationResult → Type 0
    AllChosen c [] = Unit
    AllChosen c (r ∷ rs) = IsChosen c r × AllChosen c rs

    -- The results of every group have the config of the group, which stands at its position.
    unfoldable pub GroupsChosen : Groups C → Type 0
    unfolding AllChosen at_position
    GroupsChosen [] = Unit
    GroupsChosen (((n, c), rs) ∷ gs) =
        (at_position 0 n all ≡ some c) × AllChosen c rs × GroupsChosen gs

    AllChosen-append :
        (c : OpaqueDeviceConfig C) (rs : List AllocationResult) (r : AllocationResult)
        → AllChosen c rs
        → IsChosen c r
        → AllChosen c (rs ++ (r ∷ []))
    unfolding AllChosen
    AllChosen-append c [] r p q = (q, tt)
    AllChosen-append c (x ∷ rs) r (h, p) q = (h, AllChosen-append c rs r p q)

    add_result-GroupsChosen :
        (x : ℕ × OpaqueDeviceConfig C) (r : AllocationResult) (gs : Groups C)
        → at_position 0 x.0 all ≡ some x.1
        → IsChosen x.1 r
        → GroupsChosen gs
        → GroupsChosen (add_result api x r gs)
    unfolding add_result GroupsChosen AllChosen
    add_result-GroupsChosen x r [] e chosen gs-chosen = (e, (chosen, tt), tt)
    add_result-GroupsChosen x r (((n, c), rs) ∷ gs) e chosen (f, p, q) =
        if_cases (eqb x.0 n) (((n, c), rs ++ (r ∷ [])) ∷ gs) (((n, c), rs) ∷ add_result api x r gs)
          GroupsChosen
          (λ same.
            let same_config : x.1 ≡ c =
              some_inj x.1 c (sym e ∙ ap (λ k. at_position 0 k all) (same_id x.0 n same) ∙ f) in
            (f, AllChosen-append c rs r p (subst (λ c. IsChosen c r) same_config chosen), q))
          (λ other. (f, p, add_result-GroupsChosen x r gs e chosen q))

    -- The list that is searched.
    abbrev searched : List (ℕ × OpaqueDeviceConfig C)
    searched = backward (numbered api 0 all)

    add_found-GroupsChosen :
        (r : AllocationResult) (device : AllocatableDevice)
        (found : Option (ℕ × OpaqueDeviceConfig C)) (gs : Groups C)
        → lookup r.device m ≡ some device
        → find_config api r.request device searched ≡ ok found
        → GroupsChosen gs
        → GroupsChosen (add_found api found r gs)
    add_found-GroupsChosen r device none gs e f p = p
    add_found-GroupsChosen r device (some x) gs e f p =
        let split = find_config-SplitsAt api r.request device (backward (numbered api 0 all)) x f in
        let (before, after, s, passed, applies) = split in
        add_result-GroupsChosen x r gs
          (split-at_position api all 0 (backward after) (backward before) x
            (backward-split (numbered api 0 all) before after x s)).1
          (device, e, SplitsAt-IsLast api r.request device all x split) p

    -- The rest of the loop, once the device is looked up.
    with_device :
        (Q : Type 0) (r : AllocationResult) (rs : List AllocationResult) (gs gs' : Groups C)
        (o : Option AllocatableDevice)
        → lookup r.device m ≡ o
        → ((d : AllocatableDevice) (found : Option (ℕ × OpaqueDeviceConfig C))
            → lookup r.device m ≡ some d
            → find_config api r.request d searched ≡ ok found
            → map_results api g m searched rs (add_found api found r gs) ≡ ok gs'
            → Q)
        → elim o [
          | none ↦ err (failure "requested device is not allocatable")
          | some d ↦ and_then (check_health api g d) (λ _.
              and_then
                (find_config api r.request d searched)
                (λ c. map_results api g m searched rs (add_found api c r gs)))
        ]
          ≡ ok gs'
        → Q
    with_device Q r rs gs gs' none e next q = cc
    with_device Q r rs gs gs' (some d) e next q =
        let (u, healthy, rest) = and_then-eq-ok (check_health api g d) _ q in
        let (found, f, h) = and_then-eq-ok (find_config api r.request d searched) _ rest in
        next d found e f h

    -- One round of the loop.
    round :
        (Q : Type 0) (r : AllocationResult) (rs : List AllocationResult) (gs gs' : Groups C)
        → ((d : AllocatableDevice) (found : Option (ℕ × OpaqueDeviceConfig C))
            → lookup r.device m ≡ some d
            → find_config api r.request d searched ≡ ok found
            → map_results api g m searched rs (add_found api found r gs) ≡ ok gs'
            → Q)
        → ((r.driver == driver_name) ≡ false → map_results api g m searched rs gs ≡ ok gs' → Q)
        → map_results api g m searched (r ∷ rs) gs ≡ ok gs'
        → Q
    unfolding map_results
    round Q r rs gs gs' ours other =
        if_cases (r.driver == driver_name) _ (map_results api g m searched rs gs)
          (λ o. o ≡ ok gs' → Q) (λ _. with_device Q r rs gs gs' (lookup r.device m) refl ours) other

    map_results-GroupsChosen :
        (rs : List AllocationResult) (gs gs' : Groups C)
        → GroupsChosen gs
        → map_results api g m searched rs gs ≡ ok gs'
        → GroupsChosen gs'
    unfolding map_results
    map_results-GroupsChosen [] gs gs' p e = subst GroupsChosen (ok_inj gs gs' e) p
    map_results-GroupsChosen (r ∷ rs) gs gs' p e =
        round (GroupsChosen gs') r rs gs gs'
          (λ d found l f.
            map_results-GroupsChosen rs (add_found api found r gs) gs'
              (add_found-GroupsChosen r d found gs l f p))
          (λ _. map_results-GroupsChosen rs gs gs' p) e

    -- A result stands in a group.
    unfoldable pub Given : AllocationResult → Groups C → Type 0
    unfolding IsIn
    Given r [] = ⊥
    Given r ((x, rs) ∷ gs) = IsIn r rs ⊎ Given r gs

    -- A result that is added is in a group, and so is what was in one before.
    add_result-Given :
        (x : ℕ × OpaqueDeviceConfig C) (r r' : AllocationResult) (gs : Groups C)
        → Given r (add_result api x r gs) × (Given r' gs → Given r' (add_result api x r gs))
    unfolding add_result Given IsIn
    add_result-Given x r r' [] = (inl (inl refl), λ b. elim b [ ])
    add_result-Given x r r' ((y, rs) ∷ gs) =
        if_cases (eqb x.0 y.0) ((y, rs ++ (r ∷ [])) ∷ gs) ((y, rs) ∷ add_result api x r gs)
          (λ gs'. Given r gs' × (Given r' ((y, rs) ∷ gs) → Given r' gs'))
          (λ _. (
            inl (IsIn-last r rs),
            λ g. elim g [ inl b ↦ inl (IsIn-append r' r rs b) | inr b ↦ inr b ],
          ))
          (λ _.
            let (new, old) = add_result-Given x r r' gs in
            (inr new, λ g. elim g [ inl b ↦ inl b | inr b ↦ inr (old b) ]))

    add_found-Given :
        (found : Option (ℕ × OpaqueDeviceConfig C)) (r r' : AllocationResult) (gs : Groups C)
        → Given r' gs
        → Given r' (add_found api found r gs)
    add_found-Given none r r' gs p = p
    add_found-Given (some x) r r' gs p = (add_result-Given x r r' gs).1 p

    map_results-Given :
        (r' : AllocationResult) (rs : List AllocationResult) (gs gs' : Groups C)
        → Given r' gs
        → map_results api g m searched rs gs ≡ ok gs'
        → Given r' gs'
    unfolding map_results
    map_results-Given r' [] gs gs' p e = subst (Given r') (ok_inj gs gs' e) p
    map_results-Given r' (r ∷ rs) gs gs' p e =
        round (Given r' gs') r rs gs gs'
          (λ d found l f.
            map_results-Given r' rs (add_found api found r gs) gs'
              (add_found-Given found r r' gs p))
          (λ _. map_results-Given r' rs gs gs' p) e

    -- A result is of another driver, or in a group, or that of a device to which no config applies.
    abbrev pub IsAccounted : Groups C → AllocationResult → Type 0
    IsAccounted gs r =
        ((r.driver == driver_name) ≡ false)
        ⊎ Given r gs
        ⊎ ((d : AllocatableDevice) × (lookup r.device m ≡ some d) × NoneApplies api r.request d all)

    unfoldable pub AllAccounted : Groups C → List AllocationResult → Type 0
    unfolding Given
    AllAccounted gs [] = Unit
    AllAccounted gs (r ∷ rs) = IsAccounted gs r × AllAccounted gs rs

    found-IsAccounted :
        (d : AllocatableDevice) (found : Option (ℕ × OpaqueDeviceConfig C)) (r : AllocationResult)
        (rs : List AllocationResult) (gs gs' : Groups C)
        → lookup r.device m ≡ some d
        → find_config api r.request d searched ≡ ok found
        → map_results api g m searched rs (add_found api found r gs) ≡ ok gs'
        → IsAccounted gs' r
    found-IsAccounted d none r rs gs gs' l f e = inr (
        inr (
          d,
          l,
          subst (NoneApplies api r.request d)
              (ap unnumbered (backward-backward (numbered api 0 all))
                ∙ unnumbered-numbered api 0 all)
              (AllPassed-backward api r.request d searched
                (find_config-AllPassed api r.request d searched f)),
        ))
    found-IsAccounted d (some x) r rs gs gs' l f e =
        inr
          (inl (map_results-Given r rs (add_result api x r gs) gs' (add_result-Given x r r gs).0 e))

    map_results-AllAccounted :
        (rs : List AllocationResult) (gs gs' : Groups C)
        → map_results api g m searched rs gs ≡ ok gs'
        → AllAccounted gs' rs
    unfolding AllAccounted
    map_results-AllAccounted [] gs gs' e = tt
    map_results-AllAccounted (r ∷ rs) gs gs' e =
        round (AllAccounted gs' (r ∷ rs)) r rs gs gs'
          (λ d found l f h. (
            found-IsAccounted d found r rs gs gs' l f h,
            map_results-AllAccounted rs (add_found api found r gs) gs' h,
          ))
          (λ q h. (inl q, map_results-AllAccounted rs gs gs' h)) e

  -- The groups of a claim, where they are formed without an error: the configs that are searched are the defaults, then those of the device
  -- class, then those of the claim itself, each in the order of the allocation; every result of a
  -- group is that of an allocatable device, and the config of the group is the last one of the list
  -- that applies to it: it is for the type of the device, and for the request of the result or for
  -- every request; and each one after it in the list is for other requests, or is for every request
  -- and for devices of another type. And every result of this driver is in a group, or is that of an
  -- allocatable device to which no config of the list applies.
  pub config_results-GroupsChosen :
      (g : Gates) (m : AllocatableDevices) (configs : List AllocationConfig)
      (results : List AllocationResult) (groups : Groups C)
      → config_results api g m configs results ≡ ok groups
      → (of_class : List (OpaqueDeviceConfig C)) × (of_claim : List (OpaqueDeviceConfig C))
        × (decode_configs api (of_source is_class configs) ≡ ok of_class)
        × (decode_configs api (of_source is_claim configs) ≡ ok of_claim)
        × GroupsChosen g m (with_defaults api g (of_class ++ of_claim)) groups
        × AllAccounted g m (with_defaults api g (of_class ++ of_claim)) groups results
  unfolding config_results GroupsChosen AllAccounted
  config_results-GroupsChosen g m configs results groups e =
      let (cs, read, f) = and_then-eq-ok (get_opaque_device_configs api configs) _ e in
      let (of_class, of_claim, e1, e2, split) = get_opaque-Splits api configs cs read in
      (
        of_class,
        of_claim,
        e1,
        e2,
        subst (λ cs. GroupsChosen g m (with_defaults api g cs) groups) split
            (map_results-GroupsChosen g m (with_defaults api g cs) results [] groups tt f),
        subst (λ cs. AllAccounted g m (with_defaults api g cs) groups results) split
            (map_results-AllAccounted g m (with_defaults api g cs) results [] groups f),
      )
