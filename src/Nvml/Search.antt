-- ===== src/Nvml/Search.antt =====
-- What the search for a MIG device of a specification finds.
use k8s_dra_driver.Common.{
  err, panic, ℕ, ◌+◌, ◌<◌, ◌≤◌, true, false, Option, none, some, if◌then◌else◌, Outcome, ok,
  and_then, String, ◌≡◌, ◌⊎◌,
}
use k8s_dra_driver.Devices.{MigSpecTuple, MigLiveTuple}
use k8s_dra_driver.Nvml.{
  GpuInstanceInfo, Slot, present, empty, broken, Nvml, DeviceLib, live_tuple_at, matches,
  inspect_slot,
}

module _ {A : Type 0} (api : Nvml A) (l : DeviceLib) (ms : MigSpecTuple) (parent : String)
    (a : A) where
  -- A slot that can be read and whose GPU instance has the profile and the placement.
  abbrev pub Matches : ℕ → ℕ → Type 0
  Matches i gi =
      (api.slot parent i a ≡ present)
      × ((info : GpuInstanceInfo) × (inspect_slot api l parent i a ≡ ok (gi, info))
          × (matches api l ms info ≡ true))

  -- A slot that is passed over: it is empty, its handle cannot be read, or it shows a device that does
  -- not match.
  abbrev pub Passed : ℕ → Type 0
  Passed i =
      (api.slot parent i a ≡ empty)
      ⊎ (api.slot parent i a ≡ broken)
      ⊎ ((api.slot parent i a ≡ present)
          × ((gi : ℕ) × (info : GpuInstanceInfo) × (inspect_slot api l parent i a ≡ ok (gi, info))
              × (matches api l ms info ≡ false)))

  -- All slots from `i` on, up to `j`.
  abbrev pub PassedUpTo : ℕ → ℕ → Type 0
  PassedUpTo i j = (k : ℕ) → i ≤ k → k < j → Passed k

  -- The result of a search of `n` slots from `i` on: the first match, or none.
  abbrev pub FirstMatch : ℕ → ℕ → Option MigLiveTuple → Type 0
  FirstMatch i n none = PassedUpTo i (i + n)
  FirstMatch i n (some t) =
      (j : ℕ) × (gi : ℕ) × (i ≤ j)
      × (j < i + n)
      × PassedUpTo i j
      × Matches j gi
      × (t ≡ live_tuple_at api l ms parent j gi a)

  abbrev round : ℕ → Slot → Outcome (Option MigLiveTuple) → Outcome (Option MigLiveTuple)
  round i s rest = elim s [
    | present ↦ and_then (inspect_slot api l parent i a) (λ (gi, info).
        if matches api l ms info then ok (some (live_tuple_at api l ms parent i gi a)) else rest)
    | empty ↦ rest
    | broken ↦ rest
  ]

-- The result of the search, by what the count of slots gives.
abbrev pub Found :
    {A : Type 0} → Nvml A → DeviceLib → MigSpecTuple → A → Outcome ℕ → Option MigLiveTuple → Type 0
Found api l ms a (ok n) o = FirstMatch api l ms (l.gpu_uuid_by_minor ms.parent_minor) a 0 n o
Found api l ms a (err e) o = o ≡ none
Found api l ms a panic o = o ≡ none
