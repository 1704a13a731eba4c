-- ===== src/Base/Result.antt =====
-- A Python call that may raise: its value, or what it raised.
use mathlib.Core.Path.{◌≡◌, refl}
use mathlib.Core.Bool.{Bool, true, false}

pub data Result {ℓ κ} (E : Type ℓ) (A : Type κ) : Type (ℓ ⊔ κ) where
  ok : A → Result E A
  err : E → Result E A

module _ {ℓ} {E : Type ℓ} where
  infixl 5 ◌>>=◌ ◌>>◌
  abbrev pub ◌>>=◌ {κ μ} : {A : Type κ} {B : Type μ} → Result E A → (A → Result E B) → Result E B
  ok value >>= next = next value
  err raised >>= next = err raised

  abbrev pub ◌>>◌ {κ} : {B : Type κ} → Result E (Unit {0}) → Result E B → Result E B
  first >> second = first >>= λ _. second

  -- `if c: raise e`
  abbrev pub raise_if : Bool → E → Result E (Unit {0})
  raise_if true e = err e
  raise_if false e = ok tt

  -- Inversion of a successful bind.
  pub >>=-eq-ok {κ μ} :
      {A : Type κ} {B : Type μ} (first : Result E A) (next : A → Result E B) {last : B}
      → (first >>= next) ≡ ok last
      → (value : A) × (first ≡ ok value) × (next value ≡ ok last)
  >>=-eq-ok (ok value) next returned = (value, refl, returned)
  >>=-eq-ok (err raised) next returned = cc

  pub raise_if-eq-ok : (b : Bool) (e : E) {u : Unit {0}} → raise_if b e ≡ ok u → b ≡ false
  raise_if-eq-ok true e h = cc
  raise_if-eq-ok false e h = refl
