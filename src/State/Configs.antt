-- ===== src/State/Configs.antt =====
-- Which configuration applies to which device of a claim: `GetOpaqueDeviceConfigs` and the first
-- loop of `prepareDevices`. Configurations are told apart by their position, as the code tells them
-- apart by their addresses.
pub mod Precedence
pub mod Defaults
pub mod Positions
pub mod Sources
pub mod Last
pub mod Chosen
use k8s_dra_driver.Common.{
  ℕ, ◌+◌, Bool, true, false, not, ◌&&◌, ◌||◌, Option, none, some, List, [], ◌∷◌, ◌++◌, String, ◌==◌,
  if◌then◌else◌, eqb, contains, lookup, Outcome, ok, err, panic, failure, and_then,
}
use k8s_dra_driver.Kube.{
  OpaqueParameters, AllocationConfig, AllocationResult, ConfigSource, from_class, from_claim,
  from_other,
}
use k8s_dra_driver.FeatureGates.{Gates}
use k8s_dra_driver.Devices.{driver_name}
use k8s_dra_driver.Devices.Allocatable.{
  AllocatableDevice, AllocatableDevices, DeviceType, gpu_type, hami_gpu_type, vfio_type,
  device_type, same_type, is_static_or_dyn_mig_device, is_healthy,
}
use k8s_dra_driver.State.{ConfigApi, ConfigKind, gpu_config, mig_config, vfio_config, other_config}

pub record OpaqueDeviceConfig (C : Type 0) : Type 0 where
  pub requests : List String
  pub config : C

-- The configs of a source, in order.
abbrev pub is_class : ConfigSource → Bool
is_class from_class = true
is_class _ = false

abbrev pub is_claim : ConfigSource → Bool
is_claim from_claim = true
is_claim _ = false

unfoldable pub of_source : (ConfigSource → Bool) → List AllocationConfig → List AllocationConfig
of_source p [] = []
of_source p (c ∷ cs) = let rest = of_source p cs in if p c.source then c ∷ rest else rest

-- Every config comes from the claim or from its class.
unfoldable pub sources_valid : List AllocationConfig → Bool
sources_valid [] = true
sources_valid (c ∷ cs) = (is_class c.source || is_claim c.source) && sources_valid cs

-- len(c.Requests) == 0
abbrev pub is_empty : List String → Bool
is_empty [] = true
is_empty (_ ∷ _) = false

-- slices.Backward
unfoldable pub backward : {A : Type 0} → List A → List A
backward [] = []
backward (x ∷ xs) = backward xs ++ (x ∷ [])

abbrev pub Groups : Type 0 → Type 0
Groups C = List ((ℕ × OpaqueDeviceConfig C) × List AllocationResult)

module _ {C T M : Type 0} (api : ConfigApi C T M) where
  open api use {
    decode, kind, default_gpu_config, default_mig_device_config, default_vfio_device_config,
  }

  -- One config in front of those that follow; a config of another driver is passed over.
  abbrev pub decoded_if :
      AllocationConfig
      → String
      → Outcome (List (OpaqueDeviceConfig C))
      → Bool
      → Outcome (List (OpaqueDeviceConfig C))
  decoded_if c parameters rest true = and_then (decode parameters) (λ config.
      and_then rest (λ others. ok (record { requests = c.requests; config = config } ∷ others)))
  decoded_if c parameters rest false = rest

  abbrev pub decoded :
      AllocationConfig
      → Outcome (List (OpaqueDeviceConfig C))
      → Option OpaqueParameters
      → Outcome (List (OpaqueDeviceConfig C))
  decoded c rest none = err (failure "only opaque parameters are supported by this driver")
  decoded c rest (some o) = decoded_if c o.parameters rest (o.driver == driver_name)

  -- The second loop of `GetOpaqueDeviceConfigs`.
  unfoldable pub decode_configs : List AllocationConfig → Outcome (List (OpaqueDeviceConfig C))
  decode_configs [] = ok []
  decode_configs (c ∷ cs) = decoded c (decode_configs cs) c.opaque

  unfoldable pub get_opaque_device_configs :
      List AllocationConfig → Outcome (List (OpaqueDeviceConfig C))
  unfolding of_source sources_valid decode_configs
  get_opaque_device_configs cs =
      if sources_valid cs
      then decode_configs (of_source is_class cs ++ of_source is_claim cs)
      else err (failure "invalid config source")

  abbrev pub default_for : C → OpaqueDeviceConfig C
  default_for c = record { requests = []; config = c }

  -- The default configs that are put in front.
  unfoldable pub with_defaults : Gates → List (OpaqueDeviceConfig C) → List (OpaqueDeviceConfig C)
  with_defaults g cs =
      let configs = default_for default_mig_device_config ∷ default_for default_gpu_config ∷ cs in
      if g.passthrough_support then default_for default_vfio_device_config ∷ configs else configs

  abbrev pub accepts : ConfigKind → AllocatableDevice → Bool
  accepts gpu_config d =
      same_type (device_type d) gpu_type || same_type (device_type d) hami_gpu_type
  accepts mig_config d = is_static_or_dyn_mig_device d
  accepts vfio_config d = same_type (device_type d) vfio_type
  accepts other_config d = true

  -- The position of a config in the list.
  unfoldable pub numbered : ℕ → List (OpaqueDeviceConfig C) → List (ℕ × OpaqueDeviceConfig C)
  numbered n [] = []
  numbered n (c ∷ cs) = (n, c) ∷ numbered (n + 1) cs

  -- The loop over `slices.Backward(configs)` for one result: the config that it ends at. None is
  -- left over where no config is for this request and type.
  unfoldable pub find_config :
      String
      → AllocatableDevice
      → List (ℕ × OpaqueDeviceConfig C)
      → Outcome (Option (ℕ × OpaqueDeviceConfig C))
  find_config request device [] = ok none
  find_config request device ((n, c) ∷ cs) =
      let rest = find_config request device cs in
      if contains request c.requests
      then if accepts (kind c.config) device
        then ok (some (n, c))
        else err (failure "cannot apply config to device type")
      else if is_empty c.requests
      then if accepts (kind c.config) device then ok (some (n, c)) else rest
      else rest

  -- configResultsMap[c.Config] = append(configResultsMap[c.Config], &result)
  unfoldable pub add_result : ℕ × OpaqueDeviceConfig C → AllocationResult → Groups C → Groups C
  add_result c r [] = (c, r ∷ []) ∷ []
  add_result c r ((c', rs) ∷ gs) =
      let rest = add_result c r gs in
      if eqb c.0 c'.0 then (c', rs ++ (r ∷ [])) ∷ gs else (c', rs) ∷ rest

  abbrev pub add_found : Option (ℕ × OpaqueDeviceConfig C) → AllocationResult → Groups C → Groups C
  add_found none r gs = gs
  add_found (some c) r gs = add_result c r gs

  -- The test of the device's health, behind its gate.
  abbrev pub check_health : Gates → AllocatableDevice → Outcome (Unit {0})
  check_health g d =
      if g.nvml_device_health_check
      then and_then (is_healthy d)
          (λ b. if b then ok tt else err (failure "requested device is not healthy"))
      else ok tt

  -- The loop over the results of the allocation.
  unfoldable pub map_results :
      Gates
      → AllocatableDevices
      → List (ℕ × OpaqueDeviceConfig C)
      → List AllocationResult
      → Groups C
      → Outcome (Groups C)
  unfolding find_config add_result
  map_results g m configs [] gs = ok gs
  map_results g m configs (r ∷ rs) gs =
      if r.driver == driver_name
      then elim (lookup r.device m) [
        | none ↦ err (failure "requested device is not allocatable")
        | some d ↦ and_then (check_health g d) (λ _.
            and_then (find_config r.request d configs)
              (λ c. map_results g m configs rs (add_found c r gs)))
      ]
      else map_results g m configs rs gs

  -- `configResultsMap` of a claim, with its groups in the order in which they are first met.
  unfoldable pub config_results :
      Gates
      → AllocatableDevices
      → List AllocationConfig
      → List AllocationResult
      → Outcome (Groups C)
  unfolding get_opaque_device_configs with_defaults numbered backward map_results
  config_results g m configs results =
      and_then (get_opaque_device_configs configs)
        (λ cs. map_results g m (backward (numbered 0 (with_defaults g cs))) results [])
