-- ===== src/Vfio.antt =====
-- cmd/hami-kubelet-plugin/vfio-device.go: a GPU is bound to the vfio-pci driver for a virtual machine
-- and back to the nvidia driver. The lock of the GPU makes the calls for one GPU run one after the
-- other; and the scripts scripts/bind_to_driver.sh and scripts/unbind_from_driver.sh that it runs. The
-- kernel and `fuser` are parameters.
pub mod Binding
use k8s_dra_driver.Common.{
  ℕ, ◌+◌, ignore_error, zero, suc, Bool, true, false, not, ◌||◌, Option, none, some, List, [], ◌∷◌,
  String, ◌<>◌, ◌==◌, if◌then◌else◌, itoa, Outcome, ok, err, panic, Fault, failure, Exec, ◌>>=◌,
  ◌>>◌, pure, raise, lift, asks,
}
use k8s_dra_driver.Devices.{VfioDeviceInfo, GpuInfo}

abbrev pub vfio_pci_driver : String
vfio_pci_driver = "vfio-pci"

abbrev pub nvidia_driver : String
nvidia_driver = "nvidia"

-- What `fuser` gives for the device node: exit status 1 where no process has it open, another error,
-- or the processes.
pub data FuserReply : Type 0 where
  free failed busy : FuserReply

-- The kernel and the tools: `driver_of` reads the link of the driver of a PCI address; `fuser` gives the
-- replies of `fuser` for the GPU of a minor number at the ticks that come before the timeout; `num_vfs`
-- is what nvpci says of the physical function; `has_override` and `has_driver` say whether the
-- driver_override file of an address and the bind file of a driver exist; `has_unbind_lock` whether the
-- unbindLock file of an address exists, and `reads_one` whether it reads as 1; the writes are those of
-- `echo`, and `write_in_braces` is the write to the name of the unbindLock file in braces.
pub record PciHost (A : Type 0) : Type 0 where
  pub driver_of : String → A → Outcome String
  pub fuser : ℕ → A → List FuserReply
  pub num_vfs : String → A → Outcome ℕ
  pub has_override : String → A → Bool
  pub has_driver : String → A → Bool
  pub has_unbind_lock : String → A → Bool
  pub reads_one : String → A → Bool
  pub write_override : String → String → Exec A (Unit {0})
  pub write_bind : String → String → Exec A (Unit {0})
  pub write_unbind : String → String → Exec A (Unit {0})
  pub write_in_braces : String → Exec A (Unit {0})
  pub sleep : ℕ → Exec A (Unit {0})

module _ {A : Type 0} (host : PciHost A) where
  -- The end of bind_to_driver.sh: a bind that fails takes the override back.
  abbrev pub bind_result : String → Outcome (Unit {0}) × A → Outcome (Unit {0}) × A
  bind_result gpu (ok u, a) = (ok tt, a)
  bind_result gpu (err e, a) = (err (failure "failed to bind"), (host.write_override gpu "" a).1)
  bind_result gpu (panic, a) = (panic, a)

  -- What follows the tests for the bind file of the driver, and for the driver_override file.
  abbrev pub write_driver : String → String → Bool → Exec A (Unit {0})
  write_driver gpu driver true a = bind_result gpu (host.write_bind driver gpu a)
  write_driver gpu driver false a = (err (failure "bind file does not exist"), a)

  abbrev pub override_driver : String → String → Bool → Exec A (Unit {0})
  override_driver gpu driver true =
      host.write_override gpu driver >> asks (λ a. ok (host.has_driver driver a)) >>= λ there.
      write_driver gpu driver there
  override_driver gpu driver false = raise "driver_override file does not exist"

  -- bind_to_driver of bind_to_driver.sh; a status other than 0 is an error.
  unfoldable pub bind_to_driver : String → String → Exec A (Unit {0})
  bind_to_driver gpu driver =
      asks (λ a. ok (host.has_override gpu a)) >>= λ there. override_driver gpu driver there

  -- The loop of acquire_unbind_lock, with the attempts that are left and the number of the next one.
  unfoldable pub attempts : String → ℕ → ℕ → Exec A (Unit {0})
  attempts gpu zero n = raise "cannot obtain unbindLock"
  attempts gpu (suc k) n =
      let rest = attempts gpu k (n + 1) in
      ignore_error (host.write_in_braces gpu)
      >> asks (λ a. ok (host.reads_one gpu a))
      >>= λ acquired. if acquired then pure tt else (host.sleep n >> rest)

  -- acquire_unbind_lock of unbind_from_driver.sh
  unfoldable pub acquire_unbind_lock : String → Exec A (Unit {0})
  unfolding attempts
  acquire_unbind_lock gpu = asks (λ a. ok (host.has_unbind_lock gpu a)) >>= λ there.
      if not there then pure tt else attempts gpu 5 1

  -- unbind_from_driver of unbind_from_driver.sh, by the driver that the device has.
  abbrev pub unbind_of : String → Outcome String → Exec A (Unit {0})
  unbind_of gpu (ok driver) =
      (if driver == nvidia_driver then acquire_unbind_lock gpu else pure tt)
      >> ignore_error (host.write_unbind driver gpu)
  unbind_of gpu (err e) = pure tt
  unbind_of gpu panic = lift panic

  unfoldable pub unbind_from_driver : String → Exec A (Unit {0})
  unfolding acquire_unbind_lock
  unbind_from_driver gpu a = unbind_of gpu (host.driver_of gpu a) a

pub record VfioPciManager : Type 0 where
  pub driver : String
  pub nvidia_enabled : Bool

-- The loop of `WaitForGPUFree`.
unfoldable pub wait_free : List FuserReply → Outcome (Unit {0})
wait_free [] = err (failure "timed out waiting for gpu to be free")
wait_free (free ∷ rs) = ok tt
wait_free (failed ∷ rs) = wait_free rs
wait_free (busy ∷ rs) = wait_free rs

abbrev pub no_vfs : Outcome ℕ → Outcome (Unit {0})
no_vfs (ok zero) = ok tt
no_vfs (ok (suc n)) = err (failure "gpu has VFs, cannot unbind")
no_vfs (err e) = err e
no_vfs panic = panic

module _ {A : Type 0} (host : PciHost A) (vm : VfioPciManager) where
  open host use {driver_of, fuser, num_vfs}
  open vm use {driver, nvidia_enabled}

  -- (vm *VfioPciManager) WaitForGPUFree
  abbrev pub wait_for_gpu_free : VfioDeviceInfo → A → Outcome (Unit {0})
  wait_for_gpu_free info a = elim info.parent [
    | none ↦ ok tt
    | some gpu ↦ wait_free (fuser gpu.minor a)
  ]

  -- (vm *VfioPciManager) verifyDisabledVFs
  abbrev pub verify_disabled_vfs : String → A → Outcome (Unit {0})
  verify_disabled_vfs address a = no_vfs (num_vfs address a)

  -- (vm *VfioPciManager) changeDriver
  unfoldable pub change_driver : String → String → Exec A (Unit {0})
  unfolding unbind_from_driver bind_to_driver
  change_driver address d = unbind_from_driver host address >> bind_to_driver host address d

  -- What follows once the present driver is known.
  abbrev pub configure_from : VfioDeviceInfo → String → Exec A (Unit {0})
  configure_from info present =
      if present == driver
      then pure tt
      else if not nvidia_enabled || not (present == nvidia_driver)
      then raise "gpu is bound to another driver"
      else (asks (wait_for_gpu_free info)
          >> asks (verify_disabled_vfs info.pcie_bus_id)
          >> change_driver info.pcie_bus_id driver)

  -- (vm *VfioPciManager) Configure
  unfoldable pub configure : VfioDeviceInfo → Exec A (Unit {0})
  unfolding change_driver wait_free
  configure info = asks (driver_of info.pcie_bus_id) >>= λ present. configure_from info present

  abbrev pub unconfigure_from : VfioDeviceInfo → String → Exec A (Unit {0})
  unconfigure_from info present =
      if present == nvidia_driver then pure tt else change_driver info.pcie_bus_id nvidia_driver

  -- (vm *VfioPciManager) Unconfigure
  unfoldable pub unconfigure : VfioDeviceInfo → Exec A (Unit {0})
  unfolding change_driver
  unconfigure info =
      if not nvidia_enabled
      then pure tt
      else (asks (driver_of info.pcie_bus_id) >>= λ present. unconfigure_from info present)
