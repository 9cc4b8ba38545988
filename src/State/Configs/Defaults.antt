-- ===== src/State/Configs/Defaults.antt =====
-- The default configurations that `prepareDevices` puts in front leave no device without one.
use k8s_dra_driver.Common.{
  ℕ, ◌+◌, Bool, true, false, List, [], ◌∷◌, none, String, ok, ◌≡◌, ◌≢◌, refl,
}
use k8s_dra_driver.FeatureGates.{Gates}
use k8s_dra_driver.Devices.Allocatable.{
  AllocatableDevice, DeviceType, gpu_type, hami_gpu_type, mig_dynamic_type, mig_static_type,
  vfio_type, unknown_type, device_type, is_static_or_dyn_mig_device,
}
use k8s_dra_driver.State.{ConfigApi, gpu_config, mig_config, vfio_config}
use k8s_dra_driver.State.Configs.{
  OpaqueDeviceConfig, accepts, default_for, find_config, with_defaults, numbered, backward,
}
use k8s_dra_driver.State.Configs.Precedence.{default_found, kept_found}

abbrev is_vfio_type : DeviceType → Bool
is_vfio_type vfio_type = true
is_vfio_type _ = false

-- The types of device that `with_defaults` has a config for.
abbrev pub has_default : Gates → DeviceType → Bool
has_default g gpu_type = true
has_default g hami_gpu_type = true
has_default g mig_dynamic_type = true
has_default g mig_static_type = true
has_default g vfio_type = g.passthrough_support
has_default g unknown_type = false

module _ {C T M : Type 0} (api : ConfigApi C T M) (g : Gates) where
  open api use {kind, default_gpu_config, default_mig_device_config, default_vfio_device_config}

  abbrev mig_first : List (OpaqueDeviceConfig C) → List (OpaqueDeviceConfig C)
  mig_first cs = default_for api default_mig_device_config ∷ default_for api default_gpu_config ∷ cs

  gpu_found :
      (request : String) (device : AllocatableDevice) (n : ℕ) (cs : List (OpaqueDeviceConfig C))
      → accepts api (kind default_gpu_config) device ≡ true
      → find_config api request device (backward (numbered api n (mig_first cs))) ≢ ok none
  unfolding numbered backward
  gpu_found request device n cs e =
      kept_found api request device
        (backward (numbered api (n + 1) (default_for api default_gpu_config ∷ cs)))
        ((n, default_for api default_mig_device_config) ∷ [])
        (default_found api request device (backward (numbered api (n + 1 + 1) cs)) [] (n + 1)
          default_gpu_config e)

  mig_found :
      (request : String) (device : AllocatableDevice) (n : ℕ) (cs : List (OpaqueDeviceConfig C))
      → accepts api (kind default_mig_device_config) device ≡ true
      → find_config api request device (backward (numbered api n (mig_first cs))) ≢ ok none
  unfolding numbered backward
  mig_found request device n cs e =
      default_found api request device
        (backward (numbered api (n + 1) (default_for api default_gpu_config ∷ cs))) [] n
        default_mig_device_config e

  -- The configs but that of vfio devices.
  mig_and_gpu :
      (request : String) (device : AllocatableDevice) (n : ℕ) (cs : List (OpaqueDeviceConfig C))
      → kind default_gpu_config ≡ gpu_config
      → kind default_mig_device_config ≡ mig_config
      → (t : DeviceType) → device_type device ≡ t
      → is_vfio_type t ≡ false
      → has_default g t ≡ true
      → find_config api request device (backward (numbered api n (mig_first cs))) ≢ ok none
  unfolding numbered backward is_static_or_dyn_mig_device
  mig_and_gpu request device n cs e1 e2 gpu_type e v h =
      gpu_found request device n cs (rw (e1, e) refl)
  mig_and_gpu request device n cs e1 e2 hami_gpu_type e v h =
      gpu_found request device n cs (rw (e1, e) refl)
  mig_and_gpu request device n cs e1 e2 mig_static_type e v h =
      mig_found request device n cs (rw (e2, e) refl)
  mig_and_gpu request device n cs e1 e2 mig_dynamic_type e v h =
      mig_found request device n cs (rw (e2, e) refl)
  mig_and_gpu request device n cs e1 e2 vfio_type e v h = cc
  mig_and_gpu request device n cs e1 e2 unknown_type e v h = cc

  other :
      (request : String) (device : AllocatableDevice) (cs : List (OpaqueDeviceConfig C))
      → kind default_gpu_config ≡ gpu_config
      → kind default_mig_device_config ≡ mig_config
      → (p : Bool) (t : DeviceType) → g.passthrough_support ≡ p
      → device_type device ≡ t
      → is_vfio_type t ≡ false
      → has_default g t ≡ true
      → find_config api request device (backward (numbered api 0 (with_defaults api g cs)))
        ≢ ok none
  unfolding with_defaults numbered backward
  other request device cs e1 e2 true t q e v h = rw q (
      kept_found api request device (backward (numbered api 1 (mig_first cs)))
        ((0, default_for api default_vfio_device_config) ∷ [])
        (mig_and_gpu request device 1 cs e1 e2 t e v h))
  other request device cs e1 e2 false t q e v h =
      rw q (mig_and_gpu request device 0 cs e1 e2 t e v h)

  with_gate :
      (request : String) (device : AllocatableDevice) (cs : List (OpaqueDeviceConfig C))
      → kind default_gpu_config ≡ gpu_config
      → kind default_mig_device_config ≡ mig_config
      → kind default_vfio_device_config ≡ vfio_config
      → (p : Bool) (t : DeviceType) → g.passthrough_support ≡ p
      → device_type device ≡ t
      → has_default g t ≡ true
      → find_config api request device (backward (numbered api 0 (with_defaults api g cs)))
        ≢ ok none
  unfolding with_defaults numbered backward
  with_gate request device cs e1 e2 e3 true vfio_type q e h = rw q (
      default_found api request device (backward (numbered api 1 (mig_first cs))) [] 0
        default_vfio_device_config (rw (e3, e) refl))
  with_gate request device cs e1 e2 e3 false vfio_type q e h = cc
  with_gate request device cs e1 e2 e3 p gpu_type q e h =
      other request device cs e1 e2 p gpu_type q e refl h
  with_gate request device cs e1 e2 e3 p hami_gpu_type q e h =
      other request device cs e1 e2 p hami_gpu_type q e refl h
  with_gate request device cs e1 e2 e3 p mig_static_type q e h =
      other request device cs e1 e2 p mig_static_type q e refl h
  with_gate request device cs e1 e2 e3 p mig_dynamic_type q e h =
      other request device cs e1 e2 p mig_dynamic_type q e refl h
  with_gate request device cs e1 e2 e3 p unknown_type q e h = cc

  -- A device of a type that has a default config gets one of the configs of its claim or a default,
  -- or the claim is refused; it is never left without a config.
  pub find_config-with_defaults :
      (request : String) (device : AllocatableDevice) (cs : List (OpaqueDeviceConfig C))
      → kind default_gpu_config ≡ gpu_config
      → kind default_mig_device_config ≡ mig_config
      → kind default_vfio_device_config ≡ vfio_config
      → has_default g (device_type device) ≡ true
      → find_config api request device (backward (numbered api 0 (with_defaults api g cs)))
        ≢ ok none
  unfolding with_defaults numbered backward
  find_config-with_defaults request device cs e1 e2 e3 h =
      with_gate request device cs e1 e2 e3 g.passthrough_support (device_type device) refl refl h
