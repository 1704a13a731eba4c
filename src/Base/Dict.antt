-- ===== src/Base/Dict.antt =====
-- Python dicts with text keys, as association lists in insertion order.
use hermes_agent_runtime.Base.Equality.{◌==◌, string_eq, contains, if◌then◌else◌, Bool-cases}
use Prim.Native.String.{String}
use mathlib.Core.Path.{◌≡◌, refl}
use mathlib.Core.Logic.{inl, inr}
use mathlib.Core.Bool.{true, ◌||◌}
use mathlib.Core.Option.{Option, none, some}
use mathlib.Core.List.{List, [], ◌∷◌}
use native.Mathlib.Omega.{arith}

abbrev pub Dict {ℓ} : Type ℓ → Type ℓ
Dict V = List (String × V)

module _ {ℓ} {V : Type ℓ} where
  unfoldable pub keys : Dict V → List String
  keys [] = []
  keys ((k, _) ∷ d) = k ∷ keys d

  -- The first that is there
  unfoldable pub or_else : Option V → Option V → Option V
  or_else (some v) o = some v
  or_else none o = o

  pub or_else-none : (o : Option V) → or_else o none ≡ o
  unfolding or_else
  or_else-none none = refl
  or_else-none (some v) = refl

  pub or_else_assoc : (a b c : Option V) → or_else (or_else a b) c ≡ or_else a (or_else b c)
  unfolding or_else
  or_else_assoc none b c = refl
  or_else_assoc (some v) b c = refl

  -- `d.get(k)`
  unfoldable pub lookup : String → Dict V → Option V
  lookup k [] = none
  lookup k ((j, v) ∷ d) = if k == j then some v else lookup k d

  -- `d[k] = v`
  unfoldable pub insert : String → V → Dict V → Dict V
  insert k v [] = (k, v) ∷ []
  insert k v ((j, w) ∷ d) = if k == j then (k, v) ∷ d else (j, w) ∷ insert k v d

  -- `{**d, **e}`
  unfoldable pub merge : Dict V → Dict V → Dict V
  unfolding insert
  merge d [] = d
  merge d ((k, v) ∷ e) = merge (insert k v d) e

  pub lookup-insert :
      (j k : String) (v : V) (d : Dict V)
      → lookup j (insert k v d) ≡ (if j == k then some v else lookup j d)
  unfolding lookup insert
  lookup-insert j k v [] = refl
  lookup-insert j k v ((i, w) ∷ d) = ground (arith, lookup-insert j k v d)

  pub contains-keys-insert :
      (k j : String) (v : V) (d : Dict V)
      → contains (keys (insert j v d)) k ≡ (k == j || contains (keys d) k)
  unfolding contains keys insert
  contains-keys-insert k j v [] = refl
  contains-keys-insert k j v ((i, w) ∷ d) = ground (arith, contains-keys-insert k j v d)

  pub contains-keys_of_lookup :
      (k : String) {v : V} (d : Dict V) → lookup k d ≡ some v → contains (keys d) k ≡ true
  unfolding lookup keys contains
  contains-keys_of_lookup k [] h = cc
  contains-keys_of_lookup k {v} ((j, w) ∷ d) h = ground (arith, contains-keys_of_lookup k {v = v} d)

  pub lookup_of_contains-keys :
      (k : String) (d : Dict V) → contains (keys d) k ≡ true → (v : V) × (lookup k d ≡ some v)
  unfolding lookup keys contains
  lookup_of_contains-keys k [] h = cc
  lookup_of_contains-keys k ((j, w) ∷ d) h = elim (Bool-cases (k == j)) [
    | inl same ↦ (w, rw same)
    | inr other ↦ let (v, e) = lookup_of_contains-keys k d (rw other at h) in (v, rw other e)
  ]
