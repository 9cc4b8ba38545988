-- ===== src/Partitions/Slices.antt =====
-- `GenerateDriverResources` of driver.go and `PartGetDevice` of partitions.go: the ResourceSlices of a
-- node with partitionable devices. The attributes of a device are left out.
pub mod Agreement
use k8s_dra_driver.Common.{
  ℕ, ℤ, Bool, true, false, Option, none, some, is_some, List, [], ◌∷◌, ◌++◌, String, ltb,
  if◌then◌else◌, Map, lookup, sort, Outcome, ok, err, panic, and_then,
}
use k8s_dra_driver.Devices.{GpuInfo, MigSpec, gpu_canonical_name}
use k8s_dra_driver.Devices.Allocatable.{
  AllocatableDevice, AllocatableDevices, DeviceView, hami_gpu, gpu, mig_dynamic, mig_static, vfio,
  unknown, device_view,
}
use k8s_dra_driver.Mig.{mig_spec_canonical_name}
use k8s_dra_driver.Partitions.{
  CounterSet, part_capacities, part_shared_counter_sets, part_consumes_counters,
}

-- resourceapi.Device, less its attributes
pub record PartDevice : Type 0 where
  pub name : String
  pub capacity : Map ℤ
  pub consumes_counters : List CounterSet

-- resourceslice.Slice
pub record Slice : Type 0 where
  pub shared_counters : List CounterSet
  pub devices : List PartDevice

-- (d *GpuInfo) PartGetDevice; `PartConsumesCounters` gives what `PartSharedCounterSets` gives.
abbrev gpu_device : GpuInfo → PartDevice
gpu_device d = record {
  name = gpu_canonical_name d;
  capacity = d.max_capacities;
  consumes_counters = part_shared_counter_sets d;
}

-- (i *MigSpec) PartGetDevice
abbrev mig_device : MigSpec → PartDevice
mig_device i = record {
  name = mig_spec_canonical_name i;
  capacity = part_capacities i;
  consumes_counters = part_consumes_counters i;
}

abbrev part_view : DeviceView → Outcome PartDevice
part_view (gpu d) = ok (gpu_device d)
part_view (mig_static d) = panic
part_view (mig_dynamic i) = ok (mig_device i)
part_view (vfio d) = panic
part_view (hami_gpu d) = panic
part_view unknown = panic

-- (d *AllocatableDevice) PartGetDevice
unfoldable pub part_get_device : AllocatableDevice → Outcome PartDevice
unfolding device_view gpu_canonical_name mig_spec_canonical_name part_capacities
    part_shared_counter_sets part_consumes_counters
part_get_device d = part_view (device_view d)

-- The counter sets of a full GPU.
abbrev counters_of_gpu : Option GpuInfo → List CounterSet
counters_of_gpu none = []
counters_of_gpu (some d) = part_shared_counter_sets d

abbrev pub announce_next :
    Option AllocatableDevice
    → Outcome (List CounterSet × List PartDevice)
    → Outcome (List CounterSet × List PartDevice)
announce_next none rest = panic
announce_next (some d) rest =
    and_then (part_get_device d)
      (λ dev. and_then rest (λ (sets, devs). ok (counters_of_gpu d.gpu ++ sets, dev ∷ devs)))

-- The inner loop of `generateSplitResourceSlices`, over the names in order.
unfoldable pub announce :
    AllocatableDevices → List String → Outcome (List CounterSet × List PartDevice)
unfolding part_get_device lookup part_shared_counter_sets
announce allocatable [] = ok ([], [])
announce allocatable (name ∷ names) =
    let rest = announce allocatable names in announce_next (lookup name allocatable) rest

unfoldable pub keys : AllocatableDevices → List String
keys [] = []
keys ((name, d) ∷ ds) = name ∷ keys ds

unfoldable pub announce_gpu : AllocatableDevices → Outcome (List CounterSet × List PartDevice)
unfolding announce keys sort
announce_gpu allocatable = announce allocatable (sort (keys allocatable))

-- The inner loop of `generateCombinedResourceSlices`, which the source writes out again.
abbrev pub combine_next :
    Option AllocatableDevice
    → Outcome (List CounterSet × List PartDevice)
    → Outcome (List CounterSet × List PartDevice)
combine_next none rest = panic
combine_next (some d) rest =
    and_then (part_get_device d)
      (λ dev. and_then rest (λ (sets, devs). ok (counters_of_gpu d.gpu ++ sets, dev ∷ devs)))

unfoldable pub combine :
    AllocatableDevices → List String → Outcome (List CounterSet × List PartDevice)
unfolding part_get_device lookup part_shared_counter_sets
combine allocatable [] = ok ([], [])
combine allocatable (name ∷ names) =
    let rest = combine allocatable names in combine_next (lookup name allocatable) rest

unfoldable pub combine_gpu : AllocatableDevices → Outcome (List CounterSet × List PartDevice)
unfolding combine keys sort
combine_gpu allocatable = combine allocatable (sort (keys allocatable))

abbrev pub PerGpu : Type 0
PerGpu = List (ℕ × AllocatableDevices)

insert_minor : ℕ → AllocatableDevices → PerGpu → PerGpu
insert_minor n ds [] = (n, ds) ∷ []
insert_minor n ds ((k, es) ∷ m) =
    let rest = insert_minor n ds m in if ltb k n then (k, es) ∷ rest else (n, ds) ∷ (k, es) ∷ m

-- The map in the order of slices.Sorted(maps.Keys(...))
unfoldable pub by_minor : PerGpu → PerGpu
unfolding insert_minor
by_minor [] = []
by_minor ((n, ds) ∷ m) = insert_minor n ds (by_minor m)

-- The outer loop of `generateSplitResourceSlices`: all counter sets, and a slice for each GPU.
unfoldable pub split_gpus : PerGpu → Outcome (List CounterSet × List Slice)
unfolding announce_gpu
split_gpus [] = ok ([], [])
split_gpus ((minor, ds) ∷ m) =
    let rest = split_gpus m in
    and_then (announce_gpu ds) (λ (sets, devs).
      and_then rest (λ (all, slices).
        ok (sets ++ all, record { shared_counters = []; devices = devs } ∷ slices)))

-- (d *driver) generateSplitResourceSlices; the slice with the counters comes first.
unfoldable pub generate_split_resource_slices : PerGpu → Outcome (List Slice)
unfolding by_minor split_gpus
generate_split_resource_slices gpus =
    and_then (split_gpus (by_minor gpus))
      (λ (all, slices). ok (record { shared_counters = all; devices = [] } ∷ slices))

-- The outer loop of `generateCombinedResourceSlices`.
unfoldable pub combined_gpus : PerGpu → Outcome (List Slice)
unfolding combine_gpu
combined_gpus [] = ok []
combined_gpus ((minor, ds) ∷ m) =
    let rest = combined_gpus m in
    and_then (combine_gpu ds) (λ (sets, devs).
      and_then rest (λ slices. ok (record { shared_counters = sets; devices = devs } ∷ slices)))

-- (d *driver) generateCombinedResourceSlices
unfoldable pub generate_combined_resource_slices : PerGpu → Outcome (List Slice)
unfolding by_minor combined_gpus
generate_combined_resource_slices gpus = combined_gpus (by_minor gpus)

-- (d *driver) GenerateDriverResources
abbrev pub generate_driver_resources : Bool → PerGpu → Outcome (List Slice)
generate_driver_resources use_split_resource_slices gpus =
    if use_split_resource_slices
    then generate_split_resource_slices gpus
    else generate_combined_resource_slices gpus
