-- ===== src/Base/Sorting.antt =====
-- `sorted` on texts and on the fields of a dict, and `str.join`.
use Prim.Native.String.{String, compare, ◌++◌ as ◌<>◌}
use mathlib.Core.Path.{◌≡◌, refl, ap, ◌∙◌}
use mathlib.Core.Bool.{Bool, true, false, ◌||◌}
use mathlib.Core.List.{List, [], ◌∷◌}
use native.Mathlib.Omega.{arith}
use text.Mathlib.Text.{is_le}
use hermes_agent_runtime.Base.Equality.{if◌then◌else◌}
use hermes_agent_runtime.Base.Lists.{any}

module _ {ℓ} {A : Type ℓ} (key : A → String) where
  insert_sorted : A → List A → List A
  insert_sorted a [] = a ∷ []
  insert_sorted a (x ∷ xs) =
      if is_le (compare (key a) (key x)) then a ∷ x ∷ xs else x ∷ insert_sorted a xs

  -- `sorted(xs, key=key)`: insertion from the right keeps equal keys in their order.
  unfoldable pub sorted_by : List A → List A
  unfolding insert_sorted
  sorted_by [] = []
  sorted_by (x ∷ xs) = insert_sorted x (sorted_by xs)

  any-insert_sorted :
      (p : A → Bool) (a : A) (xs : List A) → any p (insert_sorted a xs) ≡ (p a || any p xs)
  unfolding insert_sorted any
  any-insert_sorted p a [] = refl
  any-insert_sorted p a (x ∷ xs) = go (is_le (compare (key a) (key x))) (any-insert_sorted p a xs)
    where
      go :
          (first : Bool)
          → any p (insert_sorted a xs) ≡ (p a || any p xs)
          → any p (if first then a ∷ x ∷ xs else x ∷ insert_sorted a xs)
            ≡ (p a || (p x || any p xs))
      go true rest = refl
      go false rest = ground arith

  -- The order of a list does not matter to what some element satisfies.
  pub any-sorted_by : (p : A → Bool) (xs : List A) → any p (sorted_by xs) ≡ any p xs
  unfolding sorted_by any
  any-sorted_by p [] = refl
  any-sorted_by p (x ∷ xs) =
      any-insert_sorted p x (sorted_by xs) ∙ ap (λ t. p x || t) (any-sorted_by p xs)

unfoldable pub sorted : List String → List String
unfolding sorted_by
sorted = sorted_by (λ s. s)

-- `sep.join(xs)`
unfoldable pub join : String → List String → String
join sep [] = ""
join sep (x ∷ []) = x
join sep (x ∷ y ∷ xs) = x <> sep <> join sep (y ∷ xs)
