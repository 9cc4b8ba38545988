-- ===== src/Vfio/Binding.antt =====
-- Which driver a GPU has after `Configure` and `Unconfigure`, and when its driver is changed.
use k8s_dra_driver.Common.{
  ℕ, zero, suc, Option, none, some, List, [], ◌∷◌, ◌++◌, Bool-cases, Bool, true, false, not, ◌||◌,
  if_cases, String, ◌==◌, eq_iff, Outcome, ok, err, panic, is_ok, Exec, ◌>>=◌, asks, chain-cases,
  ◌≡◌, ◌⊎◌, inl, inr, refl, ap, sym, ◌∙◌, subst, arith,
}
use k8s_dra_driver.Devices.{VfioDeviceInfo, GpuInfo}
use k8s_dra_driver.Vfio.{
  PciHost, FuserReply, free, failed, busy, wait_free, no_vfs, bind_result, write_driver,
  override_driver, bind_to_driver, unbind_from_driver, VfioPciManager, nvidia_driver,
  wait_for_gpu_free, verify_disabled_vfs, change_driver, configure_from, configure,
  unconfigure_from, unconfigure,
}

-- What the kernel does: a device whose address was written to the bind file of a driver has this driver.
pub record IsPci {A : Type 0} (host : PciHost A) : Type 0 where
  pub bound :
      (a d : String) (s s' : A) → host.write_bind d a s ≡ (ok tt, s') → host.driver_of a s' ≡ ok d

module _ {A : Type 0} (host : PciHost A) (host-IsPci : IsPci host) (vm : VfioPciManager) where
  open host-IsPci use {bound}

  -- The device has a driver where the action returns no error.
  abbrev Binds : String → String → Outcome (Unit {0}) × A → Type 0
  Binds a d p = is_ok p.0 ≡ true → host.driver_of a p.1 ≡ ok d

  -- A chain binds the device where its second part does.
  chain-Binds :
      {B : Type 0} (a d : String) (m : Exec A B) (f : B → Exec A (Unit {0})) (s : A)
      → ((b : B) (s' : A) → m s ≡ (ok b, s') → Binds a d (f b s'))
      → Binds a d ((m >>= f) s)
  chain-Binds a d m f s h = chain-cases m f (Binds a d) s h (λ r s' b e b' c. cc)

  written-Binds :
      (a d : String) (s : A) (p : Outcome (Unit {0}) × A)
      → host.write_bind d a s ≡ p
      → Binds a d (bind_result host a p)
  written-Binds a d s (ok u, s') e b = bound a d s s' e
  written-Binds a d s (err x, s') e b = cc
  written-Binds a d s (panic, s') e b = cc

  write_driver-Binds :
      (a d : String) (there : Bool) (s : A) → Binds a d (write_driver host a d there s)
  write_driver-Binds a d true s = written-Binds a d s _ refl
  write_driver-Binds a d false s = λ b. cc b

  override_driver-Binds :
      (a d : String) (there : Bool) (s : A) → Binds a d (override_driver host a d there s)
  override_driver-Binds a d true s =
      chain-Binds a d (host.write_override a d)
        (λ _. asks (λ s. ok (host.has_driver d s)) >>= λ there. write_driver host a d there) s
        (λ _ s1 _.
          chain-Binds a d (asks (λ s. ok (host.has_driver d s))) (write_driver host a d) s1
            (λ there s2 _. write_driver-Binds a d there s2))
  override_driver-Binds a d false s = λ b. cc b

  bind_to_driver-Binds : (a d : String) (s : A) → Binds a d (bind_to_driver host a d s)
  unfolding bind_to_driver
  bind_to_driver-Binds a d s =
      chain-Binds a d (asks (λ s. ok (host.has_override a s))) (override_driver host a d) s
        (λ there s1 _. override_driver-Binds a d there s1)

  change_driver-Binds : (a d : String) (s : A) → Binds a d (change_driver host vm a d s)
  unfolding change_driver
  change_driver-Binds a d s =
      chain-Binds a d (unbind_from_driver host a) (λ _. bind_to_driver host a d) s
        (λ b s' e. bind_to_driver-Binds a d s')

  configure_from-Binds :
      (info : VfioDeviceInfo) (present : String) (s : A)
      → host.driver_of info.pcie_bus_id s ≡ ok present
      → Binds info.pcie_bus_id vm.driver (configure_from host vm info present s)
  configure_from-Binds info present s e =
      let a = info.pcie_bus_id in
      if_cases {A = Exec A (Unit {0})} (present == vm.driver) _ _ (λ m. Binds a vm.driver (m s))
        (λ q b. e ∙ ap ok ((eq_iff present vm.driver).0 q))
        (λ q.
          if_cases {A = Exec A (Unit {0})} (not vm.nvidia_enabled || not (present == nvidia_driver))
            _ _ (λ m. Binds a vm.driver (m s)) (λ r b. cc)
            (λ r. chain-Binds a vm.driver (asks (wait_for_gpu_free host vm info)) _ s (λ _ s' _.
              chain-Binds a vm.driver (asks (verify_disabled_vfs host vm a)) _ s'
                (λ _ s'' _. change_driver-Binds a vm.driver s''))))

  unconfigure_from-Binds :
      (info : VfioDeviceInfo) (present : String) (s : A)
      → host.driver_of info.pcie_bus_id s ≡ ok present
      → Binds info.pcie_bus_id nvidia_driver (unconfigure_from host vm info present s)
  unconfigure_from-Binds info present s e =
      if_cases {A = Exec A (Unit {0})} (present == nvidia_driver) _ _
        (λ m. Binds info.pcie_bus_id nvidia_driver (m s))
        (λ q b. e ∙ ap ok ((eq_iff present nvidia_driver).0 q))
        (λ q. change_driver-Binds info.pcie_bus_id nvidia_driver s)

  -- A driver that was read.
  read_lem :
      (a : String) (s s' : A) (present : String)
      → asks (host.driver_of a) s ≡ (ok present, s')
      → host.driver_of a s' ≡ ok present
  read_lem a s s' present e = ap (λ p. host.driver_of a p.1) (sym e) ∙ ap (λ p. p.0) e

  configure-Binds :
      (info : VfioDeviceInfo) (s : A) → Binds info.pcie_bus_id vm.driver (configure host vm info s)
  unfolding configure
  configure-Binds info s =
      chain-Binds info.pcie_bus_id vm.driver (asks (host.driver_of info.pcie_bus_id)) _ s
        (λ present s' e.
          configure_from-Binds info present s' (read_lem info.pcie_bus_id s s' present e))

  unconfigure-Binds :
      (info : VfioDeviceInfo) (s : A)
      → vm.nvidia_enabled ≡ true
      → Binds info.pcie_bus_id nvidia_driver (unconfigure host vm info s)
  unfolding unconfigure
  unconfigure-Binds info s on =
      if_cases {A = Exec A (Unit {0})} (not vm.nvidia_enabled) _ _
        (λ m. Binds info.pcie_bus_id nvidia_driver (m s)) (λ q. cc (ap not on, q))
        (λ q.
          chain-Binds info.pcie_bus_id nvidia_driver (asks (host.driver_of info.pcie_bus_id)) _ s
            (λ present s' e.
              unconfigure_from-Binds info present s' (read_lem info.pcie_bus_id s s' present e)))

  unconfigure-disabled :
      (info : VfioDeviceInfo) (s : A)
      → vm.nvidia_enabled ≡ false
      → unconfigure host vm info s ≡ (ok tt, s)
  unfolding unconfigure
  unconfigure-disabled info s off =
      if_cases {A = Exec A (Unit {0})} (not vm.nvidia_enabled) _ _ (λ m. m s ≡ (ok tt, s))
        (λ q. refl) (λ q. cc (ap not off, q))

  -- `Configure` that returns no error leaves the GPU bound to the driver of the manager. An
  -- `Unconfigure` that follows leaves it bound to the nvidia driver, or returns an error, or, where the
  -- nvidia driver is not enabled, succeeds and changes nothing.
  pub unconfigure-configure :
      (info : VfioDeviceInfo) (s : A)
      → is_ok (configure host vm info s).0 ≡ true
      → (host.driver_of info.pcie_bus_id (configure host vm info s).1 ≡ ok vm.driver)
        × ((host.driver_of info.pcie_bus_id
                (unconfigure host vm info (configure host vm info s).1).1
              ≡ ok nvidia_driver)
            ⊎ (is_ok (unconfigure host vm info (configure host vm info s).1).0 ≡ false)
            ⊎ ((vm.nvidia_enabled ≡ false)
                × (unconfigure host vm info (configure host vm info s).1
                    ≡ (ok tt, (configure host vm info s).1))))
  unconfigure-configure info s b =
      let s' = (configure host vm info s).1 in
      (
        configure-Binds info s b,
        elim (Bool-cases vm.nvidia_enabled) [
          | inl on ↦ elim (Bool-cases (is_ok (unconfigure host vm info s').0)) [
            | inl c ↦ inl (unconfigure-Binds info s' on c)
            | inr c ↦ inr (inl c)
          ]
          | inr off ↦ inr (inr (off, unconfigure-disabled info s' off))
        ],
      )

-- A list of replies that ends the wait has one that says that the GPU is free.
wait_free-free :
    (rs : List FuserReply)
    → is_ok (wait_free rs) ≡ true
    → (before : List FuserReply) × (after : List FuserReply) × (rs ≡ before ++ (free ∷ after))
unfolding wait_free
wait_free-free [] e = cc
wait_free-free (free ∷ rs) e = ([], rs, refl)
wait_free-free (failed ∷ rs) e =
    let (before, after, f) = wait_free-free rs e in (failed ∷ before, after, ap (λ r. failed ∷ r) f)
wait_free-free (busy ∷ rs) e =
    let (before, after, f) = wait_free-free rs e in (busy ∷ before, after, ap (λ r. busy ∷ r) f)

no_vfs-zero : (r : Outcome ℕ) → is_ok (no_vfs r) ≡ true → r ≡ ok 0
no_vfs-zero (ok zero) e = refl
no_vfs-zero (ok (suc n)) e = cc
no_vfs-zero (err x) e = cc
no_vfs-zero panic e = cc

module _ {A : Type 0} (host : PciHost A) (vm : VfioPciManager) where
  -- No process has the GPU of the device open: `fuser` says so at a tick before the timeout. A device
  -- whose parent GPU is not known is not looked at.
  abbrev pub NotOpen : Option GpuInfo → A → Type 0
  NotOpen none s = Unit
  NotOpen (some gpu) s =
      (before : List FuserReply) × (after : List FuserReply) × (host.fuser gpu.minor s
        ≡ before ++ (free ∷ after))

  waited_lem :
      (info : VfioDeviceInfo) (s : A) (parent : Option GpuInfo)
      → info.parent ≡ parent
      → is_ok (wait_for_gpu_free host vm info s) ≡ true
      → NotOpen parent s
  waited_lem info s none e f = tt
  waited_lem info s (some gpu) e f = wait_free-free (host.fuser gpu.minor s) (rw e at f)

  -- When the driver of a GPU may be changed.
  abbrev pub Changeable : VfioDeviceInfo → A → Type 0
  Changeable info s =
      (vm.nvidia_enabled ≡ true)
      × (host.driver_of info.pcie_bus_id s ≡ ok nvidia_driver)
      × NotOpen info.parent s
      × (host.num_vfs info.pcie_bus_id s ≡ ok 0)

  -- What a chain that starts with a read does: nothing, or the rest after a read that succeeds.
  asked :
      {B : Type 0} (r : A → Outcome B) (f : B → Exec A (Unit {0})) (s : A) (Q : Type 0)
      → ((b : B) → r s ≡ ok b → ((f b s).1 ≡ s) ⊎ Q)
      → (((asks r >>= f) s).1 ≡ s) ⊎ Q
  asked r f s Q h =
      chain-cases (asks r) f (λ p. (p.1 ≡ s) ⊎ Q) s
        (λ b s' e. subst (λ s'. ((f b s').1 ≡ s) ⊎ Q) (ap (λ p. p.1) e) (h b (ap (λ p. p.0) e)))
        (λ r s' b e b'. inl (sym e))

  nvidia_lem :
      (b : Bool) (present : String)
      → (not b || not (present == nvidia_driver)) ≡ false
      → b ≡ true × present ≡ nvidia_driver
  nvidia_lem true present e = (refl, ground (arith, eq_iff present nvidia_driver))
  nvidia_lem false present e = cc

  -- `Configure` changes nothing on the host unless the nvidia driver is enabled and has the GPU,
  -- `fuser` finds no process that has the parent GPU open at some tick before the timeout (of a device
  -- whose parent GPU is not known nothing is asked), and the device has no virtual functions.
  pub configure-Changeable :
      (info : VfioDeviceInfo) (s : A) → ((configure host vm info s).1 ≡ s) ⊎ Changeable info s
  unfolding configure
  configure-Changeable info s =
      let a = info.pcie_bus_id in
      asked (host.driver_of a) _ s (Changeable info s) (λ present e.
        if_cases {A = Exec A (Unit {0})} (present == vm.driver) _ _
          (λ m. ((m s).1 ≡ s) ⊎ Changeable info s) (λ q. inl refl)
          (λ q.
            if_cases {A = Exec A (Unit {0})}
              (not vm.nvidia_enabled || not (present == nvidia_driver)) _ _
              (λ m. ((m s).1 ≡ s) ⊎ Changeable info s) (λ r. inl refl)
              (λ r. asked (wait_for_gpu_free host vm info) _ s (Changeable info s) (λ _ f.
                asked (verify_disabled_vfs host vm a) _ s (Changeable info s) (λ _ v.
                  let (on, nvidia) = nvidia_lem vm.nvidia_enabled present r in
                  inr (
                    on,
                    e ∙ ap ok nvidia,
                    waited_lem info s info.parent refl (ap is_ok f),
                    no_vfs-zero _ (ap is_ok v),
                  ))))))
