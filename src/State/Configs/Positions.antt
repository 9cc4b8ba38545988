-- ===== src/State/Configs/Positions.antt =====
-- Lists of configurations with their positions, read backwards.
use k8s_dra_driver.Common.{
  ℕ, ◌+◌, true, Option, none, some, List, [], ◌∷◌, ◌++◌, append_assoc, append-nil, if◌then◌else◌,
  eqb, ◌≤◌, arith, ◌≡◌, refl, sym, ap, ◌∙◌,
}
use k8s_dra_driver.State.{ConfigApi}
use k8s_dra_driver.State.Configs.{OpaqueDeviceConfig, numbered, backward}

-- Reading a list backwards.
module _ {A : Type 0} where
  backward-append : (xs ys : List A) → backward (xs ++ ys) ≡ backward ys ++ backward xs
  unfolding backward
  backward-append [] ys = sym (append-nil (backward ys))
  backward-append (x ∷ xs) ys =
      ap (λ r. r ++ (x ∷ [])) (backward-append xs ys)
      ∙ append_assoc (backward ys) (backward xs) (x ∷ [])

  pub backward-backward : (xs : List A) → backward (backward xs) ≡ xs
  unfolding backward
  backward-backward [] = refl
  backward-backward (x ∷ xs) =
      backward-append (backward xs) (x ∷ []) ∙ ap (λ r. x ∷ r) (backward-backward xs)

  pub backward-split :
      (xs before after : List A) (x : A)
      → backward xs ≡ before ++ (x ∷ after)
      → xs ≡ backward after ++ (x ∷ backward before)
  unfolding backward
  backward-split xs before after x e =
      sym (backward-backward xs)
      ∙ ap backward e
      ∙ backward-append before (x ∷ after)
      ∙ append_assoc (backward after) (x ∷ []) (backward before)

-- The configs of a list with positions.
unfoldable pub unnumbered : {C : Type 0} → List (ℕ × C) → List C
unnumbered [] = []
unnumbered ((n, c) ∷ cs) = c ∷ unnumbered cs

pub unnumbered-append :
    {C : Type 0} (xs ys : List (ℕ × C)) → unnumbered (xs ++ ys) ≡ unnumbered xs ++ unnumbered ys
unfolding unnumbered
unnumbered-append [] ys = refl
unnumbered-append ((n, c) ∷ xs) ys = ap (λ r. c ∷ r) (unnumbered-append xs ys)

-- The config at a position of a list whose positions start from a number.
unfoldable pub at_position : {C : Type 0} → ℕ → ℕ → List C → Option C
at_position k n [] = none
at_position k n (c ∷ cs) = if eqb k n then some c else at_position (k + 1) n cs

pub same_id : (a b : ℕ) → eqb a b ≡ true → a ≡ b
same_id a b e = ground arith

module _ {C T M : Type 0} (api : ConfigApi C T M) where
  pub unnumbered-numbered :
      (n : ℕ) (cs : List (OpaqueDeviceConfig C)) → unnumbered (numbered api n cs) ≡ cs
  unfolding unnumbered numbered
  unnumbered-numbered n [] = refl
  unnumbered-numbered n (c ∷ cs) = ap (λ r. c ∷ r) (unnumbered-numbered (n + 1) cs)

  pub split-at_position :
      (all : List (OpaqueDeviceConfig C)) (k : ℕ) (before after : List (ℕ × OpaqueDeviceConfig C))
      (x : ℕ × OpaqueDeviceConfig C)
      → numbered api k all ≡ before ++ (x ∷ after)
      → (k ≤ x.0) × (at_position k x.0 all ≡ some x.1)
  unfolding numbered at_position
  split-at_position [] k [] after x e = cc
  split-at_position [] k (b ∷ before) after x e = cc
  split-at_position (c ∷ cs) k [] after x e =
      let first : (k, c) ≡ x = cc in
      let n : k ≡ x.0 = ap (λ x. x.0) first in
      (ground (arith, n), ground (arith, n, ap (λ x. some x.1) first))
  split-at_position (c ∷ cs) k (b ∷ before) after x e =
      let rest : numbered api (k + 1) cs ≡ before ++ (x ∷ after) = cc in
      let (later, f) = split-at_position cs (k + 1) before after x rest in
      (omega arith, ground (arith, later, f))
