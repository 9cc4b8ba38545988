-- ===== src/Devices/Prepared/Uuids/Hami.antt =====
-- The UUIDs of the HAMi-Core GPUs of a group.
use k8s_dra_driver.Common.{Bool, true, false, [], ◌∷◌, sort, ◌≡◌, refl, Bool-cases, inl, inr}
use k8s_dra_driver.Devices.Prepared.{
  PreparedDeviceList, PreparedDeviceGroup, PreparedView, hami_gpu, gpu, mig, vfio, unknown,
  prepared_view, select, is_hami_gpu, is_gpu, is_mig, is_vfio, hami_gpus, gpus, mig_devices,
  vfio_devices,
}
use k8s_dra_driver.Devices.Prepared.Uuids.{
  uuid_loop, list_gpu_uuids, list_mig_device_uuids, list_vfio_device_uuids, list_uuids,
  group_hami_gpu_uuids,
}

select-none :
    (p q : PreparedView → Bool) (l : PreparedDeviceList)
    → ((v : PreparedView) → q v ≡ true → p v ≡ false)
    → select p (select q l) ≡ []
unfolding select
select-none p q [] h = refl
select-none p q (d ∷ l) h = elim (Bool-cases (q (prepared_view d))) [
  | inl e ↦ rw (e, h (prepared_view d) e, select-none p q l h) refl
  | inr e ↦ rw (e, select-none p q l h) refl
]

not_gpu : (v : PreparedView) → is_hami_gpu v ≡ true → is_gpu v ≡ false
not_gpu (hami_gpu d) e = refl
not_gpu (gpu d) e = cc
not_gpu (mig d) e = refl
not_gpu (vfio d) e = refl
not_gpu unknown e = refl

not_mig : (v : PreparedView) → is_hami_gpu v ≡ true → is_mig v ≡ false
not_mig (hami_gpu d) e = refl
not_mig (gpu d) e = refl
not_mig (mig d) e = cc
not_mig (vfio d) e = refl
not_mig unknown e = refl

not_vfio : (v : PreparedView) → is_hami_gpu v ≡ true → is_vfio v ≡ false
not_vfio (hami_gpu d) e = refl
not_vfio (gpu d) e = refl
not_vfio (mig d) e = refl
not_vfio (vfio d) e = cc
not_vfio unknown e = refl

-- The UUIDs that a group lists for its HAMi-Core GPUs are none, whatever its devices are: the list
-- that is taken of them holds only those of full GPUs, MIG devices and vfio devices.
pub group_hami_gpu_uuids-none : (g : PreparedDeviceGroup) → group_hami_gpu_uuids g ≡ []
unfolding group_hami_gpu_uuids list_uuids list_gpu_uuids list_mig_device_uuids
    list_vfio_device_uuids hami_gpus gpus mig_devices vfio_devices uuid_loop sort
group_hami_gpu_uuids-none g =
    rw
      (
        select-none is_gpu is_hami_gpu g.devices not_gpu,
        select-none is_mig is_hami_gpu g.devices not_mig,
        select-none is_vfio is_hami_gpu g.devices not_vfio,
      )
      refl
