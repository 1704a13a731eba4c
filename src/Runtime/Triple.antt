-- ===== src/Runtime/Triple.antt =====
-- Postconditions of the runtime's actions: one for a normal return, one for what is raised.
use hermes_agent_runtime.Base.{◌≡◌, refl, Bool, true, false, if◌then◌else◌}
use hermes_agent_runtime.Base.Result.{ok, err}
use hermes_agent_runtime.Runtime.Exceptions.{Exception, Call, is_exception}
use hermes_agent_runtime.Runtime.Machine.{Machine, M, ◌>>=◌, ◌>>◌, try_except}

module _ {W A : Type 0} where
  abbrev pub Post :
      (A → Machine W → Type 0) → (Exception → Machine W → Type 0) → Call A × Machine W → Type 0
  Post Q E (ok a, m) = Q a m
  Post Q E (err e, m) = E e m

  pub Post-mono :
      (Q R : A → Machine W → Type 0) (E F : Exception → Machine W → Type 0)
      → ((a : A) (m : Machine W) → Q a m → R a m)
      → ((e : Exception) (m : Machine W) → E e m → F e m)
      → (o : Call A × Machine W) → Post Q E o
      → Post R F o
  Post-mono Q R E F f g (ok a, m) h = f a m h
  Post-mono Q R E F f g (err e, m) h = g e m h

  -- An ordinary exception is handled, and an interrupt goes on.
  pub try_except-Post :
      (Q : A → Machine W → Type 0) (E F : Exception → Machine W → Type 0) (body : M W A)
      (handler : Exception → M W A) (m : Machine W)
      → Post Q E (body m)
      → ((e : Exception) (m' : Machine W)
          → is_exception e ≡ true
          → E e m'
          → Post Q F (handler e m'))
      → ((e : Exception) (m' : Machine W) → is_exception e ≡ false → E e m' → F e m')
      → Post Q F (try_except body handler m)
  try_except-Post Q E F body handler m h caught passed = go (body m) h
    where
      branch :
          (e : Exception) (m' : Machine W) (t : Bool)
          → is_exception e ≡ t
          → E e m'
          → Post Q F (if t then handler e m' else (err e, m'))
      branch e m' true eq x = caught e m' eq x
      branch e m' false eq x = passed e m' eq x

      go :
          (o : Call A × Machine W)
          → Post Q E o
          → Post Q F (elim (o.0) [
            | ok a ↦ (ok a, o.1)
            | err e ↦ if is_exception e then handler e o.1 else (err e, o.1)
          ])
      go (ok a, m') x = x
      go (err e, m') x = branch e m' (is_exception e) refl x

module _ {W A B : Type 0} where
  pub >>=-Post :
      (R : A → Machine W → Type 0) (Q : B → Machine W → Type 0) (E : Exception → Machine W → Type 0)
      (x : M W A) (f : A → M W B) (m : Machine W)
      → Post R E (x m)
      → ((a : A) (m' : Machine W) → R a m' → Post Q E (f a m'))
      → Post Q E ((x >>= f) m)
  >>=-Post R Q E x f m h k = go (x m) h
    where
      go :
          (o : Call A × Machine W)
          → Post R E o
          → Post Q E (elim (o.0) [ ok a ↦ f a o.1 | err e ↦ (err e, o.1) ])
      go (ok a, m') r = k a m' r
      go (err e, m') r = r

module _ {W B : Type 0} where
  pub >>-Post :
      (P : Machine W → Type 0) (Q : B → Machine W → Type 0) (E : Exception → Machine W → Type 0)
      (x : M W (Unit {0})) (k : M W B) (m : Machine W)
      → Post (λ _. P) E (x m)
      → ((m' : Machine W) → P m' → Post Q E (k m'))
      → Post Q E ((x >> k) m)
  >>-Post P Q E x k m h next = >>=-Post (λ _. P) Q E x (λ _. k) m h (λ _. next)
