-- ===== src/State/Keeping.antt =====
-- The calls that leave the checkpoint directory as it is, and how a chain that starts with one is
-- followed.
use k8s_dra_driver.Common.{false, Outcome, Exec, ◌>>=◌, is_ok, chain-cases, ◌≡◌, refl, ap, sym, ◌∙◌}
use k8s_dra_driver.State.{DeviceState, on_host}

-- A call that leaves the checkpoint directory as it is.
abbrev pub Keeps : {D H A : Type 0} → Exec (DeviceState D H) A → Type 0
Keeps m = (s : _) → (m s).1.store ≡ s.store

pub kept-cases :
    {D H A B : Type 0} (m : Exec (DeviceState D H) A) (f : A → Exec (DeviceState D H) B)
    (Q : Outcome B × DeviceState D H → Type 0) (s : DeviceState D H)
    → Keeps m
    → ((a : A) (s' : DeviceState D H) → s'.store ≡ s.store → Q (f a s'))
    → ((r : Outcome B) (s' : DeviceState D H) → is_ok r ≡ false → s'.store ≡ s.store → Q (r, s'))
    → Q ((m >>= f) s)
kept-cases m f Q s keeps good bad =
    chain-cases m f Q s (λ a s' e. good a s' (ap (λ p. p.1.store) (sym e) ∙ keeps s))
      (λ r s' b e b'. bad r s' b (ap (λ s. s.store) (sym e) ∙ keeps s))

pub on_host-Keeps : (D : Type 0) {H A : Type 0} (m : Exec H A) → Keeps (on_host {D = D} m)
on_host-Keeps D m s = refl

pub chain-Keeps :
    {D H A B : Type 0} (m : Exec (DeviceState D H) A) (f : A → Exec (DeviceState D H) B)
    → Keeps m
    → ((a : A) → Keeps (f a))
    → Keeps (m >>= f)
chain-Keeps m f hm hf s =
    kept-cases m f (λ p. p.1.store ≡ s.store) s hm (λ a s' e. hf a s' ∙ e) (λ r s' b e. e)
