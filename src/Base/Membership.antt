-- ===== src/Base/Membership.antt =====
-- Laws of `in`, of comprehensions and of `any`.
use mathlib.Core.Path.{◌≡◌, refl}
use mathlib.Core.Bool.{Bool, true, false, ◌&&◌, ◌||◌}
use mathlib.Core.List.{List, [], ◌∷◌, ◌++◌}
use native.Mathlib.Omega.{arith}
use hermes_agent_runtime.Base.Equality.{Eq, contains}
use hermes_agent_runtime.Base.Lists.{select, any, all}

module _ {ℓ} {A : Type ℓ} ⦃e : Eq A⦄ where
  -- What holds of every element of a table holds of a member.
  pub all-contains :
      (p : A → Bool) (xs : List A) (a : A) → all p xs ≡ true → contains xs a ≡ true → p a ≡ true
  unfolding all contains
  all-contains p [] a h m = cc
  all-contains p (x ∷ xs) a h m = ground (arith, all-contains p xs a)

  pub contains-append :
      (xs ys : List A) (a : A) → contains (xs ++ ys) a ≡ (contains xs a || contains ys a)
  unfolding contains
  contains-append [] ys a = refl
  contains-append (x ∷ xs) ys a = ground (arith, contains-append xs ys a)

  pub contains-select :
      (p : A → Bool) (xs : List A) (a : A) → contains (select p xs) a ≡ (contains xs a && p a)
  unfolding contains select
  contains-select p [] a = refl
  contains-select p (x ∷ xs) a = ground (arith, contains-select p xs a)

module _ {ℓ} {A : Type ℓ} where
  -- Two tests that differ only where a third holds select alike where it never does.
  pub select_congr :
      (p q r : A → Bool) (xs : List A)
      → ((a : A) → r a ≡ false → p a ≡ q a)
      → any r xs ≡ false
      → select p xs ≡ select q xs
  unfolding select any
  select_congr p q r [] agree h = refl
  select_congr p q r (x ∷ xs) agree h = ground (arith, agree x, select_congr p q r xs agree)

  pub any-select_nil : (p : A → Bool) (xs : List A) → select p xs ≡ [] → any p xs ≡ false
  unfolding select any
  any-select_nil p [] h = refl
  any-select_nil p (x ∷ xs) h = ground (arith, any-select_nil p xs)

  -- A test that implies another finds among the selected what it finds among all.
  pub any-select :
      (r p : A → Bool) (xs : List A)
      → ((a : A) → r a ≡ true → p a ≡ true)
      → any r (select p xs) ≡ any r xs
  unfolding select any
  any-select r p [] sub = refl
  any-select r p (x ∷ xs) sub = ground (arith, sub x, any-select r p xs sub)
