-- ===== src/Partitions/Slices/Agreement.antt =====
-- The two ways to announce partitionable devices give the same devices and counters.
use k8s_dra_driver.Common.{
  Option, none, some, String, lookup, sort, ok_inj, List, [], ◌∷◌, ◌++◌, append_assoc, Outcome, ok,
  err, panic, and_then, ◌≡◌, refl, ap, ap₂, ◌∙◌,
}
use k8s_dra_driver.Devices.Allocatable.{AllocatableDevice, AllocatableDevices}
use k8s_dra_driver.Partitions.{CounterSet}
use k8s_dra_driver.Partitions.Slices.{
  PartDevice, Slice, PerGpu, announce_next, announce, announce_gpu, combine_next, combine,
  combine_gpu, keys, by_minor, split_gpus, generate_split_resource_slices, combined_gpus,
  generate_combined_resource_slices,
}

-- All devices of the slices, and all counter sets, in order.
abbrev pub devices_of : List Slice → List PartDevice
devices_of [] = []
devices_of (s ∷ ss) = s.devices ++ devices_of ss

abbrev pub counters_of : List Slice → List CounterSet
counters_of [] = []
counters_of (s ∷ ss) = s.shared_counters ++ counters_of ss

-- What slices announce.
abbrev pub announced : List Slice → Outcome (List CounterSet × List PartDevice)
announced ss = ok (counters_of ss, devices_of ss)

abbrev split_announced : List CounterSet × List Slice → Outcome (List CounterSet × List PartDevice)
split_announced (all, ss) = ok (all ++ counters_of ss, devices_of ss)

module _ (sets : List CounterSet) (devs : List PartDevice) where
  -- One GPU more in front of slices that announce the same.
  same_rest :
      (r : Outcome (List CounterSet × List Slice)) (r' : Outcome (List Slice))
      → and_then r split_announced ≡ and_then r' announced
      → and_then
          (and_then r
            (λ (all, ss). ok (sets ++ all, record { shared_counters = []; devices = devs } ∷ ss)))
          split_announced
        ≡ and_then
            (and_then r' (λ ss. ok (record { shared_counters = sets; devices = devs } ∷ ss)))
            announced
  same_rest (ok (all, ss)) (ok ss') e =
      let pairs = ok_inj _ _ e in
      let cs = ap (λ p. p.0) pairs in
      let ds = ap (λ p. p.1) pairs in
      ap₂ (λ c d. ok (c, d)) (append_assoc sets all (counters_of ss) ∙ ap (λ c. sets ++ c) cs)
        (ap (λ d. devs ++ d) ds)
  same_rest (ok (all, ss)) (err x) e = cc
  same_rest (ok (all, ss)) panic e = cc
  same_rest (err x) (ok ss') e = cc
  same_rest (err x) (err y) e = e
  same_rest (err x) panic e = cc
  same_rest panic (ok ss') e = cc
  same_rest panic (err y) e = cc
  same_rest panic panic e = refl

same_gpu :
    (a : Outcome (List CounterSet × List PartDevice)) (r : Outcome (List CounterSet × List Slice))
    (r' : Outcome (List Slice))
    → and_then r split_announced ≡ and_then r' announced
    → and_then
        (and_then a (λ (sets, devs).
          and_then r
            (λ (all, ss). ok (sets ++ all, record { shared_counters = []; devices = devs } ∷ ss))))
        split_announced
      ≡ and_then
          (and_then a (λ (sets, devs).
            and_then r' (λ ss. ok (record { shared_counters = sets; devices = devs } ∷ ss))))
          announced
same_gpu (ok (sets, devs)) r r' e = same_rest sets devs r r' e
same_gpu (err x) r r' e = refl
same_gpu panic r r' e = refl

same_next :
    (o : Option AllocatableDevice) (r r' : Outcome (List CounterSet × List PartDevice))
    → r ≡ r'
    → announce_next o r ≡ combine_next o r'
same_next none r r' e = refl
same_next (some d) r r' e = ap (announce_next (some d)) e

same_names : (ds : AllocatableDevices) (names : List String) → announce ds names ≡ combine ds names
unfolding announce combine
same_names ds [] = refl
same_names ds (name ∷ names) =
    same_next (lookup name ds) (announce ds names) (combine ds names) (same_names ds names)

same_announced : (ds : AllocatableDevices) → announce_gpu ds ≡ combine_gpu ds
unfolding announce_gpu combine_gpu
same_announced ds = same_names ds (sort (keys ds))

same_gpus :
    (m : PerGpu) → and_then (split_gpus m) split_announced ≡ and_then (combined_gpus m) announced
unfolding split_gpus combined_gpus
same_gpus [] = refl
same_gpus ((minor, ds) ∷ m) =
    same_gpu (announce_gpu ds) (split_gpus m) (combined_gpus m) (same_gpus m)
    ∙ ap
        (λ a.
          and_then
            (and_then a (λ (sets, devs).
              and_then (combined_gpus m)
                (λ ss. ok (record { shared_counters = sets; devices = devs } ∷ ss))))
            announced)
        (same_announced ds)

shared_first :
    (r : Outcome (List CounterSet × List Slice))
    → and_then
        (and_then r (λ (all, ss). ok (record { shared_counters = all; devices = [] } ∷ ss)))
        announced
      ≡ and_then r split_announced
shared_first (ok (all, ss)) = refl
shared_first (err x) = refl
shared_first panic = refl

-- The slices of Kubernetes 1.35 and later, with the counters in a slice of their own, and those before
-- announce the same counter sets and the same devices, in the same order; the one fails where the
-- other does.
pub generate_split_resource_slices-announced :
    (gpus : PerGpu)
    → and_then (generate_split_resource_slices gpus) announced
      ≡ and_then (generate_combined_resource_slices gpus) announced
unfolding generate_split_resource_slices generate_combined_resource_slices
generate_split_resource_slices-announced gpus =
    shared_first (split_gpus (by_minor gpus)) ∙ same_gpus (by_minor gpus)
