-- ===== src/Common/Calls.antt =====
-- What a Go call gives: a value, an error, or a panic (a nil dereference, a call of `panic`).
-- An error is named by the text of its innermost cause; the wrapping texts are left out.
-- A method that changes state is an action `Exec S A`: it leaves a state on every path.
use Prim.Native.String.{String}
use mathlib.Core.Path.{◌≡◌, refl, ap, sym, ◌∙◌}
use mathlib.Core.Bool.{Bool, true, false}
use mathlib.Core.List.{List, [], ◌∷◌}

-- `not_found` is the error that `IsNotFound` recognises; `failure` is any other.
pub data Fault : Type 0 where
  not_found : String → Fault
  failure : String → Fault

pub data Outcome {ℓ} (A : Type ℓ) : Type ℓ where
  ok : A → Outcome A
  err : Fault → Outcome A
  panic : Outcome A

abbrev pub Exec : Type 0 → Type 0 → Type 0
Exec S A = S → Outcome A × S

-- Chains of calls that change no state.
abbrev pub and_then : {A B : Type 0} → Outcome A → (A → Outcome B) → Outcome B
and_then (ok a) f = f a
and_then (err e) f = err e
and_then panic f = panic

abbrev pub next : {S A B : Type 0} → Outcome A × S → (A → Exec S B) → Outcome B × S
next (ok a, s) f = f a s
next (err e, s) f = (err e, s)
next (panic, s) f = (panic, s)

infixr 5 ◌>>=◌ ◌>>◌
abbrev pub ◌>>=◌ : {S A B : Type 0} → Exec S A → (A → Exec S B) → Exec S B
◌>>=◌ m f s = next (m s) f

abbrev pub ◌>>◌ : {S B : Type 0} → Exec S (Unit {0}) → Exec S B → Exec S B
m >> k = m >>= λ _. k

abbrev pub pure : {S A : Type 0} → A → Exec S A
pure a s = (ok a, s)

abbrev pub raise : {S A : Type 0} → String → Exec S A
raise m s = (err (failure m), s)

abbrev pub crash : {S A : Type 0} → Exec S A
crash s = (panic, s)

abbrev pub lift : {S A : Type 0} → Outcome A → Exec S A
lift r s = (r, s)

-- A call that reads the state.
abbrev pub asks : {S A : Type 0} → (S → Outcome A) → Exec S A
asks f s = (f s, s)

-- An update that cannot fail.
abbrev pub modify : {S : Type 0} → (S → S) → Exec S (Unit {0})
modify f s = (ok tt, f s)

-- `defer g()`: run on every path, an error and a panic included.
abbrev pub deferred : {S A : Type 0} → (S → S) → Exec S A → Exec S A
deferred g m s = let (r, s') = m s in (r, g s')

-- An error that is logged and not returned.
abbrev pub logged : Outcome (Unit {0}) → Outcome (Unit {0})
logged (err e) = ok tt
logged (ok a) = ok tt
logged panic = panic

abbrev pub ignore_error : {S : Type 0} → Exec S (Unit {0}) → Exec S (Unit {0})
ignore_error m s = let (r, s') = m s in (logged r, s')

-- `for _, x := range xs`, left at the first error.
pub for_each : {S A : Type 0} → List A → (A → Exec S (Unit {0})) → Exec S (Unit {0})
for_each [] f = pure tt
for_each (x ∷ xs) f = let rest = for_each xs f in f x >> rest

-- The same loop that collects a result for each element.
pub collect : {S A B : Type 0} → List A → (A → Exec S B) → Exec S (List B)
collect [] f = pure []
collect (x ∷ xs) f = let rest = collect xs f in f x >>= λ y. rest >>= λ ys. pure (y ∷ ys)

-- The same chain, bracketed the other way.
pub and_then_assoc :
    {A B C : Type 0} (r : Outcome A) (f : A → Outcome B) (g : B → Outcome C)
    → and_then (and_then r f) g ≡ and_then r (λ a. and_then (f a) g)
and_then_assoc (ok a) f g = refl
and_then_assoc (err e) f g = refl
and_then_assoc panic f g = refl

-- A chain that succeeds has a first call that does.
pub and_then-eq-ok :
    {A B : Type 0} (r : Outcome A) (f : A → Outcome B) {b : B}
    → and_then r f ≡ ok b
    → (a : A) × (r ≡ ok a) × (f a ≡ ok b)
and_then-eq-ok (ok a) f h = (a, refl, h)
and_then-eq-ok (err e) f h = cc
and_then-eq-ok panic f h = cc

abbrev pub is_ok : {A : Type 0} → Outcome A → Bool
is_ok (ok a) = true
is_ok (err e) = false
is_ok panic = false

-- What holds of a chain: it holds of the rest where the first call succeeds, and of the first
-- call's state where it does not.
next-cases :
    {S A B : Type 0} (p : Outcome A × S) (f : A → Exec S B) (Q : Outcome B × S → Type 0)
    → ((a : A) (s : S) → p ≡ (ok a, s) → Q (f a s))
    → ((r : Outcome B) (s : S) → is_ok r ≡ false → p.1 ≡ s → is_ok p.0 ≡ false → Q (r, s))
    → Q (next p f)
next-cases (ok a, s) f Q good fail = good a s refl
next-cases (err e, s) f Q good fail = fail (err e) s refl refl refl
next-cases (panic, s) f Q good fail = fail panic s refl refl refl

pub chain-cases :
    {S A B : Type 0} (m : Exec S A) (f : A → Exec S B) (Q : Outcome B × S → Type 0) (s : S)
    → ((a : A) (s' : S) → m s ≡ (ok a, s') → Q (f a s'))
    → ((r : Outcome B) (s' : S)
        → is_ok r ≡ false
        → (m s).1 ≡ s'
        → is_ok (m s).0 ≡ false
        → Q (r, s'))
    → Q ((m >>= f) s)
chain-cases m f Q s good bad = next-cases (m s) f Q good bad

-- What holds wherever an action returns no error.
abbrev pub Ensures : {S A : Type 0} → (S → Type 0) → Exec S A → Type 0
Ensures {S} Q m = (s : S) → is_ok (m s).0 ≡ true → Q (m s).1

pub chain-Ensures :
    {S A B : Type 0} (Q : S → Type 0) (m : Exec S A) (f : A → Exec S B)
    → ((a : A) → Ensures Q (f a))
    → Ensures Q (m >>= f)
chain-Ensures Q m f h s =
    chain-cases m f (λ p. is_ok p.0 ≡ true → Q p.1) s (λ a s' e. h a s') (λ r s' b e b' c. cc)

pub ok_inj : {A : Type 0} (x y : A) → ok x ≡ ok y → x ≡ y
ok_inj x y e = cc

-- A part of the state that each call of a chain leaves alone.
pub chain-same :
    {S A B X : Type 0} (g : S → X) (m : Exec S A) (f : A → Exec S B) (s : S)
    → g (m s).1 ≡ g s
    → ((a : A) (s' : S) → g (f a s').1 ≡ g s')
    → g ((m >>= f) s).1 ≡ g s
chain-same g m f s hm hf =
    chain-cases m f (λ p. g p.1 ≡ g s) s (λ a s' e. hf a s' ∙ ap (λ p. g p.1) (sym e) ∙ hm)
      (λ r s' b e b'. ap g (sym e) ∙ hm)
