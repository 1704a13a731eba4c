-- ===== src/Env/Laws.antt =====
-- What the process finds in its environment once the file is loaded.
use hermes_agent_runtime.Base.{
  All-map, ◌≡◌, refl, ◌∙◌, sym, ap, Bool, true, false, String, Option, none, some, List, [], ◌∷◌,
  ◌==◌, string_eq, if◌then◌else◌, select, arith, Bool-cases, inl, inr, contains, All,
}
use hermes_agent_runtime.Base.Dict.{
  Dict, lookup, insert, merge, lookup-insert, or_else, or_else-none, or_else_assoc, keys,
}
use hermes_agent_runtime.Env.Process.{export, missing, required_keys, is_falsy, set_default}

or_else-some : (v : String) (o : Option String) → some v ≡ or_else (some v) o
unfolding or_else
or_else-some v o = refl

or_else-none-first : (o : Option String) → o ≡ or_else none o
unfolding or_else
or_else-none-first o = refl

-- No name stands twice.
abbrev pub Distinct : List String → Type 0
Distinct [] = Unit
Distinct (k ∷ ks) = (contains ks k ≡ false) × Distinct ks

lookup-set_default :
    (k key value : String) (environ : Dict String)
    → lookup k (set_default key value environ)
      ≡ or_else (lookup k environ) (if k == key then some value else none)
lookup-set_default k key value environ = go (lookup key environ) refl
  where
    go :
        (o : Option String)
        → lookup key environ ≡ o
        → lookup k (elim o [ none ↦ insert key value environ | some _ ↦ environ ])
          ≡ or_else (lookup k environ) (if k == key then some value else none)
    go none gone = elim (Bool-cases (k == key)) [
      | inl same ↦
          let e : k ≡ key = ground arith in
          rw (lookup-insert k key value environ, same, ap (λ x. lookup x environ) e ∙ gone)
            (or_else-none-first (some value))
      | inr other ↦
          rw (lookup-insert k key value environ, other) (sym (or_else-none (lookup k environ)))
    ]
    go (some v) here = elim (Bool-cases (k == key)) [
      | inl same ↦
          let e : k ≡ key = ground arith in
          rw (same, ap (λ x. lookup x environ) e ∙ here) (or_else-some v (some value))
      | inr other ↦ rw other (sym (or_else-none (lookup k environ)))
    ]

if_lookup :
    (b : Bool) (v : String) (o : Option String)
    → or_else (if b then some v else none) o ≡ (if b then some v else o)
unfolding or_else
if_lookup true v o = refl
if_lookup false v o = refl

-- What stood in the environment before stays.
pub lookup-export :
    (k : String) (env environ : Dict String)
    → lookup k (export env environ) ≡ or_else (lookup k environ) (lookup k env)
unfolding export lookup
lookup-export k [] environ = sym (or_else-none (lookup k environ))
lookup-export k ((key, value) ∷ env) environ =
    lookup-export k env (set_default key value environ)
    ∙ rw
        (
          lookup-set_default k key value environ,
          or_else_assoc (lookup k environ) (if k == key then some value else none) (lookup k env),
          if_lookup (k == key) value (lookup k env),
        )
        refl

lookup-none_of : (k : String) (d : Dict String) → contains (keys d) k ≡ false → lookup k d ≡ none
unfolding lookup keys contains
lookup-none_of k [] h = refl
lookup-none_of k ((j, v) ∷ d) h = ground (arith, lookup-none_of k d)

-- In a mapping that is laid over another its settings win.
lookup-merge_first :
    (k : String) (env environ : Dict String)
    → Distinct (keys environ)
    → lookup k (merge env environ) ≡ or_else (lookup k environ) (lookup k env)
unfolding merge lookup keys
lookup-merge_first k env [] d = or_else-none-first (lookup k env)
lookup-merge_first k env ((key, value) ∷ environ) (fresh, d) =
    let rest = lookup-merge_first k (insert key value env) environ d in
    let new = lookup-insert k key value env in
    elim (Bool-cases (k == key)) [
      | inl same ↦
          let e : k ≡ key = ground arith in
          let gone = ap (λ x. lookup x environ) e ∙ lookup-none_of key environ fresh in
          rest
          ∙ rw (new, same, gone)
              (sym (or_else-none-first (some value)) ∙ or_else-some value (lookup k env))
      | inr other ↦ rest ∙ rw (new, other) refl
    ]

pub select_nil-false {ℓ} :
    {A : Type ℓ} (p : A → Bool) (xs : List A) → select p xs ≡ [] → All (λ x. p x ≡ false) xs
unfolding select
select_nil-false p [] h = tt
select_nil-false p (x ∷ xs) h = elim (Bool-cases (p x)) [
  | inl bad ↦ cc (rw bad at h)
  | inr good ↦ (good, select_nil-false p xs (rw good at h))
]

-- There is a setting, and it is not empty.
abbrev pub IsSetIn : Dict String → String → Type 0
IsSetIn environ k = (v : String) × (lookup k environ ≡ some v) × ((v == "") ≡ false)

pub truthy_of :
    (o : Option String) → is_falsy o ≡ false → (v : String) × (o ≡ some v) × ((v == "") ≡ false)
truthy_of none h = cc
truthy_of (some v) h = (v, refl, h)

-- What is not missing in the merged mapping stands in the environment after the export.
found-export :
    (env environ : Dict String) (k : String)
    → Distinct (keys environ)
    → is_falsy (lookup k (merge env environ)) ≡ false
    → IsSetIn (export env environ) k
found-export env environ k d h =
    let same = lookup-merge_first k env environ d ∙ sym (lookup-export k env environ) in
    truthy_of (lookup k (export env environ)) (ap is_falsy (sym same) ∙ h)

-- If nothing is missing, the export gives the process every setting that is required.
pub export_complete :
    (env environ : Dict String)
    → Distinct (keys environ)
    → missing env environ ≡ []
    → All (IsSetIn (export env environ)) required_keys
unfolding missing
export_complete env environ d h =
    All-map (λ k. found-export env environ k d) required_keys
      (select_nil-false (λ k. is_falsy (lookup k (merge env environ))) required_keys h)
