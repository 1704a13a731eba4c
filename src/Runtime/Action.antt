-- ===== src/Runtime/Action.antt =====
-- Actions on the world, one after the other: an exception ends the sequence and keeps the world.
use hermes_agent_runtime.Base.{◌≡◌, refl}
use hermes_agent_runtime.Base.Result.{ok, err}
use hermes_agent_runtime.Runtime.Exceptions.{Call, Exception}
use hermes_agent_runtime.Runtime.Machine.{Action}

module _ {W A : Type 0} where
  abbrev pub pure : A → Action W A
  pure a w = (ok a, w)

  abbrev pub raise : Exception → Action W A
  raise e w = (err e, w)

  abbrev pub lift : Call A → Action W A
  lift r w = (r, w)

infixl 5 ◌>>=◌ ◌>>◌
abbrev pub ◌>>=◌ : {W A B : Type 0} → Action W A → (A → Action W B) → Action W B
◌>>=◌ action next w = let (r, w') = action w in elim r [ ok a ↦ next a w' | err e ↦ (err e, w') ]

abbrev pub ◌>>◌ : {W A B : Type 0} → Action W A → Action W B → Action W B
first >> second = first >>= λ _. second

pub >>=-at :
    {W A B : Type 0} (action : Action W A) (next : A → Action W B) (w : W) {a : A}
    → (action w).0 ≡ ok a
    → (action >>= next) w ≡ next a (action w).1
>>=-at {W} {A} {B} action next w {a} h = go (action w).0 h
  where
    go :
        (r : Call A)
        → r ≡ ok a
        → elim r as (λ _. Call B × W) [
          | ok a' ↦ next a' (action w).1
          | err e ↦ (err e, (action w).1)
        ]
          ≡ next a (action w).1
    go r e = rw e refl

-- Inversion of a sequence that returns
pub >>=-returns :
    {W A B : Type 0} (action : Action W A) (next : A → Action W B) (w : W) {b : B}
    → ((action >>= next) w).0 ≡ ok b
    → (a : A) × ((action w).0 ≡ ok a) × ((next a (action w).1).0 ≡ ok b)
>>=-returns {W} {A} {B} action next w {b} h = go (action w).0 refl h
  where
    go :
        (r : Call A)
        → (action w).0 ≡ r
        → (elim r as (λ _. Call B × W) [
          | ok a ↦ next a (action w).1
          | err e ↦ (err e, (action w).1)
        ]).0
          ≡ ok b
        → (a : A) × ((action w).0 ≡ ok a) × ((next a (action w).1).0 ≡ ok b)
    go (ok a) e k = (a, e, k)
    go (err x) e k = cc

-- Where an action returns, its value satisfies a predicate.
abbrev pub Gives : {W A : Type 0} → (A → Type 0) → Call A × W → Type 0
Gives P (ok a, w) = P a
Gives P (err e, w) = Unit

pub >>=-Gives :
    {W A B : Type 0} (P : B → Type 0) (action : Action W A) (next : A → Action W B) (w : W)
    → ((a : A) → (action w).0 ≡ ok a → Gives P (next a (action w).1))
    → Gives P ((action >>= next) w)
>>=-Gives {W} {A} {B} P action next w h = go (action w).0 refl
  where
    go :
        (r : Call A)
        → (action w).0 ≡ r
        → Gives P (elim r as (λ _. Call B × W) [
          | ok a ↦ next a (action w).1
          | err e ↦ (err e, (action w).1)
        ])
    go (ok a) e = h a e
    go (err x) e = tt
