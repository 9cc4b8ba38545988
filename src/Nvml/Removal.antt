-- ===== src/Nvml/Removal.antt =====
-- What is left of a MIG device that was deleted.
use k8s_dra_driver.Common.{
  Bool, true, false, not, Option, none, some, List, [], ◌∷◌, String, contains, if_cases, lookup,
  Outcome, ok, is_ok, Exec, ◌>>=◌, ◌>>◌, pure, Ensures, chain-Ensures, chain-cases, ◌≡◌, refl, ap,
  subst, ℕ,
}
use k8s_dra_driver.Devices.{GpuInfo, MigLiveTuple, MigDeviceInfo}
use k8s_dra_driver.Nvml.{
  Handle, found, not_found, not_supported, refused, Nvml, DeviceLib, NvmlState, on_nvml, reads,
  remember, device_get_handle_by_uuid, walk, get_mig_devices, disable_mig_mode, maybe_disable_of,
  maybe_disable_mig_mode, delete_ci, delete_gi, delete_mig_device,
}

-- There is no such GPU instance, or MIG mode is off.
abbrev pub is_absent : Handle → Bool
is_absent found = false
is_absent not_found = true
is_absent not_supported = true
is_absent refused = false

-- What NVML does: an instance that is destroyed is not found any more, and neither a look-up of a GPU
-- nor a change of the MIG mode brings an instance into being.
pub record IsNvml {A : Type 0} (api : Nvml A) : Type 0 where
  pub destroyed :
      (gpu : String) (gi : ℕ) (a a' : A)
      → api.destroy_gi gpu gi a ≡ (ok tt, a')
      → is_absent (api.gi_by_id gpu gi a') ≡ true
  pub absent-set_mig_mode :
      (gpu g : String) (gi : ℕ) (b : Bool) (a : A)
      → is_absent (api.gi_by_id gpu gi a) ≡ true
      → is_absent (api.gi_by_id gpu gi (api.set_mig_mode g b a).1) ≡ true
  pub absent-handle_by_uuid :
      (gpu g : String) (gi : ℕ) (a : A)
      → is_absent (api.gi_by_id gpu gi a) ≡ true
      → is_absent (api.gi_by_id gpu gi (api.handle_by_uuid g a).1) ≡ true

module _ {A : Type 0} (api : Nvml A) (api-IsNvml : IsNvml api) (l : DeviceLib) (gpu : String)
    (gi : ℕ) where
  abbrev Gone : NvmlState A → Type 0
  Gone s = is_absent (api.gi_by_id gpu gi s.nvml) ≡ true

  -- An action after which the instance is still gone.
  abbrev KeepsGone : {B : Type 0} → Exec (NvmlState A) B → Type 0
  KeepsGone m = (s : NvmlState A) → Gone s → Gone (m s).1

  chain-KeepsGone :
      {B C : Type 0} (m : Exec (NvmlState A) B) (f : B → Exec (NvmlState A) C)
      → KeepsGone m
      → ((b : B) → KeepsGone (f b))
      → KeepsGone (m >>= f)
  chain-KeepsGone m f hm hf s g =
      chain-cases m f (λ p. Gone p.1) s (λ b s' e. hf b s' (subst (λ p. Gone p.1) e (hm s g)))
        (λ r s' b e b'. subst Gone e (hm s g))

  handle-KeepsGone : (uuid : String) → KeepsGone (device_get_handle_by_uuid api l uuid)
  unfolding device_get_handle_by_uuid
  handle-KeepsGone uuid s g =
      let found = api-IsNvml.absent-handle_by_uuid gpu uuid gi s.nvml g in
      if_cases (not l.dynamic_mig) (on_nvml (api.handle_by_uuid uuid) s) _ (λ p. Gone p.1)
        (λ _. found)
        (λ _.
          if_cases {A = Outcome (Unit {0}) × NvmlState A} (contains uuid s.devhandle_by_uuid)
            (ok tt, s) _ (λ p. Gone p.1) (λ _. g)
            (λ _.
              chain-KeepsGone (on_nvml (api.handle_by_uuid uuid)) (λ _. remember api l uuid)
                (λ s g. api-IsNvml.absent-handle_by_uuid gpu uuid gi s.nvml g) (λ _ s g. g) s g))

  get_mig_devices-KeepsGone : (g : GpuInfo) → KeepsGone (get_mig_devices api l g)
  unfolding get_mig_devices
  get_mig_devices-KeepsGone g =
      if_cases (not g.mig_enabled) (pure []) _ KeepsGone (λ _ s h. h)
        (λ _.
          chain-KeepsGone (device_get_handle_by_uuid api l g.uuid) (λ _. reads (walk api l g))
            (handle-KeepsGone g.uuid) (λ _ s h. h))

  disable-KeepsGone :
      (uuid : String) (migs : List MigDeviceInfo) → KeepsGone (disable_mig_mode api l uuid migs)
  disable-KeepsGone uuid [] s h = api-IsNvml.absent-set_mig_mode gpu uuid gi false s.nvml h
  disable-KeepsGone uuid (d ∷ ds) s h = h

  maybe_disable-KeepsGone :
      (uuid : String) (o : Option GpuInfo) → KeepsGone (maybe_disable_of api l uuid o)
  maybe_disable-KeepsGone uuid none s h = h
  maybe_disable-KeepsGone uuid (some g) s h =
      chain-KeepsGone (get_mig_devices api l g) (disable_mig_mode api l uuid)
        (get_mig_devices-KeepsGone g) (disable-KeepsGone uuid) s h

  disabled : KeepsGone (maybe_disable_mig_mode api l gpu)
  unfolding maybe_disable_mig_mode
  disabled = maybe_disable-KeepsGone gpu (lookup gpu l.gpu_infos_by_uuid)

  destroyed-Gone :
      Ensures Gone (on_nvml (api.destroy_gi gpu gi) >> maybe_disable_mig_mode api l gpu)
  destroyed-Gone s =
      chain-cases (on_nvml (api.destroy_gi gpu gi)) (λ _. maybe_disable_mig_mode api l gpu)
        (λ p. is_ok p.0 ≡ true → Gone p.1) s
        (λ b s' e c.
          disabled s' (api-IsNvml.destroyed gpu gi s.nvml s'.nvml (ap (λ p. (p.0, p.1.nvml)) e)))
        (λ r s' b e b' c. cc)

module _ {A : Type 0} (api : Nvml A) (api-IsNvml : IsNvml api) (l : DeviceLib)
    (t : MigLiveTuple) where
  delete_gi-Gone :
      (h : Handle) (s : NvmlState A)
      → api.gi_by_id t.parent_uuid t.gi_id s.nvml ≡ h
      → is_ok (delete_gi api l t h s).0 ≡ true
      → Gone api api-IsNvml l t.parent_uuid t.gi_id (delete_gi api l t h s).1
  delete_gi-Gone found s e b =
      chain-Ensures (Gone api api-IsNvml l t.parent_uuid t.gi_id)
        (λ s. delete_ci api l t (api.ci_by_id t.parent_uuid t.gi_id t.ci_id s.nvml) s) _
        (λ _. destroyed-Gone api api-IsNvml l t.parent_uuid t.gi_id) s b
  delete_gi-Gone not_found s e b =
      disabled api api-IsNvml l t.parent_uuid t.gi_id s (ap is_absent e)
  delete_gi-Gone not_supported s e b = ap is_absent e
  delete_gi-Gone refused s e b = cc

  -- A deletion that returns no error leaves no GPU instance with the id of the device, also where a
  -- part of the device was deleted before, or where MIG mode is off.
  pub delete_mig_device-Gone :
      (s : NvmlState A)
      → is_ok (delete_mig_device api l t s).0 ≡ true
      → is_absent (api.gi_by_id t.parent_uuid t.gi_id (delete_mig_device api l t s).1.nvml) ≡ true
  unfolding delete_mig_device
  delete_mig_device-Gone =
      chain-Ensures (Gone api api-IsNvml l t.parent_uuid t.gi_id)
        (device_get_handle_by_uuid api l t.parent_uuid) _
        (λ _ s b. delete_gi-Gone (api.gi_by_id t.parent_uuid t.gi_id s.nvml) s refl b)
