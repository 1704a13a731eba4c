-- ===== src/Base/Order.antt =====
-- What does not depend on the order in which a set's elements are listed.
use mathlib.Core.Path.{◌≡◌, refl, ap, ◌∙◌}
use mathlib.Core.Bool.{Bool, true, false, ◌||◌}
use mathlib.Core.List.Permᴰ
use mathlib.Core.List.{List, [], ◌∷◌, Permᴰ}
use native.Mathlib.Omega.{arith}
use hermes_agent_runtime.Base.Equality.{if◌then◌else◌}
use hermes_agent_runtime.Base.Lists.{select, any}

-- No element, the only one, or several
pub data Census {ℓ} (A : Type ℓ) : Type ℓ where
  nobody several : Census A
  only : A → Census A

module _ {ℓ} {A : Type ℓ} where
  put-perm :
      (t : Bool) (a : A) {xs ys : List A}
      → Permᴰ xs ys
      → Permᴰ (if t then a ∷ xs else xs) (if t then a ∷ ys else ys)
  put-perm true a r = Permᴰ.cons refl r
  put-perm false a r = r

  put-swap :
      (t u : Bool) (a b : A) (xs : List A)
      → let ys = if u then b ∷ xs else xs in
        let zs = if t then a ∷ xs else xs in
        Permᴰ (if t then a ∷ ys else ys) (if u then b ∷ zs else zs)
  put-swap true true a b xs = Permᴰ.swap refl refl
  put-swap true false a b xs = Permᴰ.refl _
  put-swap false u a b xs = Permᴰ.refl _

  pub select-perm :
      (p : A → Bool) {xs ys : List A} → Permᴰ xs ys → Permᴰ (select p xs) (select p ys)
  unfolding select
  select-perm p Permᴰ.nil = Permᴰ.nil
  select-perm p (Permᴰ.cons {b = b} e r) = rw e (put-perm (p b) b (select-perm p r))
  select-perm p (Permᴰ.swap {a' = a} {b' = b} {l = l} e f) =
      rw (e, f) (put-swap (p b) (p a) b a (select p l))
  select-perm p (Permᴰ.trans r s) = Permᴰ.trans (select-perm p r) (select-perm p s)

  pub any-perm : (p : A → Bool) {xs ys : List A} → Permᴰ xs ys → any p xs ≡ any p ys
  unfolding any
  any-perm p Permᴰ.nil = refl
  any-perm p (Permᴰ.cons {a = a} {b = b} e r) = rw e (ap (λ t. p b || t) (any-perm p r))
  any-perm p (Permᴰ.swap e f) = rw (e, f) (ground arith)
  any-perm p (Permᴰ.trans r s) = any-perm p r ∙ any-perm p s

  abbrev pub is_nil : List A → Bool
  is_nil [] = true
  is_nil (_ ∷ _) = false

  is_nil-perm : {xs ys : List A} → Permᴰ xs ys → is_nil xs ≡ is_nil ys
  is_nil-perm Permᴰ.nil = refl
  is_nil-perm (Permᴰ.cons e r) = refl
  is_nil-perm (Permᴰ.swap e f) = refl
  is_nil-perm (Permᴰ.trans r s) = is_nil-perm r ∙ is_nil-perm s

  abbrev pub census : List A → Census A
  census [] = nobody
  census (x ∷ xs) = if is_nil xs then only x else several

  pub census-perm : {xs ys : List A} → Permᴰ xs ys → census xs ≡ census ys
  census-perm Permᴰ.nil = refl
  census-perm (Permᴰ.cons e r) = rw (e, is_nil-perm r)
  census-perm (Permᴰ.swap e f) = refl
  census-perm (Permᴰ.trans r s) = census-perm r ∙ census-perm s
