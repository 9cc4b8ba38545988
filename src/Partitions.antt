-- ===== src/Partitions.antt =====
-- cmd/hami-kubelet-plugin/partitions.go, and `inspectMigProfilesAndPlacements` of nvlib.go: the
-- capacities of the partitions of a GPU, and the counters that they consume. The profiles and the
-- placements that NVML gives are a parameter.
pub mod Bounds
pub mod Slices
use k8s_dra_driver.Common.{
  ℕ, zero, suc, ◌+◌, ◌-◌, ◌*◌, ◌^◌, ◌%◌, ℤ, pos, negsuc, Bool, true, false, not, Option, none, some,
  List, [], ◌∷◌, ◌++◌, String, ◌<>◌, itoa, leb, ltb, if◌then◌else◌, Map, lookup, insert, max,
  Outcome, ok, and_then,
}
use k8s_dra_driver.Devices.{GpuInfo, MigSpec, ProfileInfo, Placement, gpu_canonical_name}
use k8s_dra_driver.Mig.{to_rfc1123_compliant, camel_to_dns_name}

-- int64(n), for a number of 64 bits
abbrev pub to_int64 : ℕ → ℤ
to_int64 n = if ltb n (2 ^ 63) then pos n else negsuc (2 ^ 64 - n - 1)

-- a <= b
abbrev pub at_most : ℤ → ℤ → Bool
at_most (pos a) (pos b) = leb a b
at_most (pos a) (negsuc b) = false
at_most (negsuc a) (pos b) = true
at_most (negsuc a) (negsuc b) = leb b a

-- (i MigSpec) PartCapacities; all numbers but the memory have 32 bits.
unfoldable pub part_capacities : MigSpec → Map ℤ
part_capacities i =
    let p = i.gi_profile_info in
    ("multiprocessors", pos p.multiprocessor_count)
    ∷ ("copyEngines", pos p.copy_engine_count)
    ∷ ("decoders", pos p.decoder_count)
    ∷ ("encoders", pos p.encoder_count)
    ∷ ("jpegEngines", pos p.jpeg_count)
    ∷ ("ofaEngines", pos p.ofa_count)
    ∷ ("memory", to_int64 (p.memory_size_mb * 1024 * 1024 % 2 ^ 64))
    ∷ []

-- capacitiesToCounters
unfoldable pub capacities_to_counters : Map ℤ → Map ℤ
unfolding insert camel_to_dns_name
capacities_to_counters [] = []
capacities_to_counters ((name, c) ∷ m) =
    insert (camel_to_dns_name name) c (capacities_to_counters m)

-- memsliceCounterName
abbrev pub memslice_counter_name : ℕ → String
memslice_counter_name i = "memory-slice-" <> itoa i

-- addCountersForMemSlices, from `start` for `size` slices
unfoldable pub add_counters_for_mem_slices : Map ℤ → ℕ → ℕ → Map ℤ
unfolding insert itoa
add_counters_for_mem_slices counters start zero = counters
add_counters_for_mem_slices counters start (suc size) =
    add_counters_for_mem_slices (insert (memslice_counter_name start) (pos 1) counters) (start + 1)
      size

-- CounterSet, and DeviceCounterConsumption with the name of its counter set
pub record CounterSet : Type 0 where
  pub name : String
  pub counters : Map ℤ

-- (d *GpuInfo) GetSharedCounterSetName
unfoldable pub get_shared_counter_set_name : GpuInfo → String
unfolding gpu_canonical_name to_rfc1123_compliant
get_shared_counter_set_name d = to_rfc1123_compliant (gpu_canonical_name d <> "-counter-set")

-- (d *GpuInfo) PartSharedCounterSets
unfoldable pub part_shared_counter_sets : GpuInfo → List CounterSet
unfolding get_shared_counter_set_name capacities_to_counters add_counters_for_mem_slices
part_shared_counter_sets d =
    record {
      name = get_shared_counter_set_name d;
      counters =
          add_counters_for_mem_slices (capacities_to_counters d.max_capacities) 0 d.mem_slice_count;
    }
    ∷ []

-- (i MigSpec) PartConsumesCounters
unfoldable pub part_consumes_counters : MigSpec → List CounterSet
unfolding get_shared_counter_set_name capacities_to_counters add_counters_for_mem_slices
    part_capacities
part_consumes_counters i =
    record {
      name = get_shared_counter_set_name i.parent;
      counters =
          add_counters_for_mem_slices (capacities_to_counters (part_capacities i)) i.placement.start
            i.placement.size;
    }
    ∷ []

abbrev pub larger : Option ℤ → ℤ → Bool
larger none v = true
larger (some cur) v = not (at_most v cur)

-- setMax
unfoldable pub set_max : Map ℤ → String → ℤ → Map ℤ
unfolding lookup insert
set_max m k v = if larger (lookup k m) v then insert k v m else m

-- The inner loop of `inspectMigProfilesAndPlacements`.
unfoldable pub set_max_all : Map ℤ → Map ℤ → Map ℤ
unfolding set_max
set_max_all m [] = m
set_max_all m ((name, c) ∷ caps) = set_max_all (set_max m name c) caps

-- The loop over the specifications of all profiles: the largest capacities and the largest size.
unfoldable pub maxima : List MigSpec → Map ℤ × ℕ → Map ℤ × ℕ
unfolding set_max_all part_capacities
maxima [] acc = acc
maxima (mi ∷ infos) (m, n) =
    maxima infos (set_max_all m (part_capacities mi), max n mi.placement.size)

-- (d *GpuInfo) AddDetailAfterWalkingMigProfiles
abbrev pub add_detail_after_walking_mig_profiles : Map ℤ × ℕ → GpuInfo → GpuInfo
add_detail_after_walking_mig_profiles (m, n) d = record d {
  max_capacities = m;
  mem_slice_count = n;
}

-- (l deviceLib) inspectMigProfilesAndPlacements, on the specifications that the visit of the profiles
-- gives
unfoldable pub inspect_mig_profiles_and_placements :
    Outcome (List MigSpec) → GpuInfo → Outcome (List MigSpec × GpuInfo)
unfolding maxima
inspect_mig_profiles_and_placements visited d =
    and_then visited
      (λ infos. ok (infos, add_detail_after_walking_mig_profiles (maxima infos ([], 0)) d))
