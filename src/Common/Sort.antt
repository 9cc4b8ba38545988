-- ===== src/Common/Sort.antt =====
-- `slices.Sort` on strings, and `slices.Contains`.
use Prim.Native.Nat.{Ordering}
use Prim.Native.String.{String, compare}
use mathlib.Core.Bool.{Bool, true, false, ◌||◌}
use mathlib.Core.List.{List, [], ◌∷◌, Perm}
use mathlib.Core.List.Perm
use text.Mathlib.Text.{◌==◌}
use k8s_dra_driver.Common.Tests.{if◌then◌else◌}

unfoldable pub contains : String → List String → Bool
contains a [] = false
contains a (x ∷ xs) = x == a || contains a xs

abbrev pub text_leb : String → String → Bool
text_leb a b = elim (compare a b) [ Ordering.gt ↦ false | _ ↦ true ]

unfoldable pub sorted_insert : String → List String → List String
sorted_insert a [] = a ∷ []
sorted_insert a (x ∷ xs) = if text_leb a x then a ∷ x ∷ xs else x ∷ sorted_insert a xs

unfoldable pub sort : List String → List String
unfolding sorted_insert
sort [] = []
sort (x ∷ xs) = sorted_insert x (sort xs)

sorted_insert-perm : (a : String) (xs : List String) → Perm (sorted_insert a xs) (a ∷ xs)
unfolding sorted_insert
sorted_insert-perm a [] = Perm.refl (a ∷ [])
sorted_insert-perm a (x ∷ xs) =
    elim (text_leb a x)
      as (λ b. Perm (if b then a ∷ x ∷ xs else x ∷ sorted_insert a xs) (a ∷ x ∷ xs)) [
        | true ↦ Perm.refl (a ∷ x ∷ xs)
        | false ↦ Perm.trans (Perm.cons x (sorted_insert-perm a xs)) (Perm.swap a x xs)
      ]

-- Sorting keeps the elements, as often as they stand in the list.
pub sort-perm : (xs : List String) → Perm (sort xs) xs
unfolding sort
sort-perm [] = Perm.refl []
sort-perm (x ∷ xs) = Perm.trans (sorted_insert-perm x (sort xs)) (Perm.cons x (sort-perm xs))
