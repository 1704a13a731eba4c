-- ===== src/Env/Missing.antt =====
-- What `missing_required` finds, said without the loop over the names.
use hermes_agent_runtime.Base.{
  ◌≡◌, refl, Bool, true, false, String, List, [], ◌∷◌, ◌==◌, string_eq, select, contains, All,
  arith, Bool-cases, inl, inr, subst,
}
use hermes_agent_runtime.Base.Dict.{Dict, lookup, merge}
use hermes_agent_runtime.Base.Result.{ok, >>=-eq-ok}
use hermes_agent_runtime.Env.File.{Files, load_env}
use hermes_agent_runtime.Env.Process.{
  env_file_path, required_keys, is_falsy, missing, missing_required,
}
use hermes_agent_runtime.Env.Laws.{IsSetIn, select_nil-false, truthy_of}

-- The file is read, and a name that is required has no setting, or an empty one, in the mapping that
-- lays the environment over the file.
pub record Lacks (files : Files) (environ : Dict String) : Type 0 where
  pub env : Dict String
  pub loaded : load_env files (env_file_path environ) ≡ ok env
  pub name : String
  pub required : contains required_keys name ≡ true
  pub unset : ¬ IsSetIn (merge env environ) name

All-contains :
    (P : String → Type 0) (k : String) (xs : List String) → All P xs → contains xs k ≡ true → P k
unfolding contains
All-contains P k [] h c = cc
All-contains P k (x ∷ xs) (first, rest) c = elim (Bool-cases (k == x)) [
  | inl same ↦ let e : x ≡ k = ground arith in subst P e first
  | inr other ↦ All-contains P k xs rest (ground arith)
]

select-cons :
    (p : String → Bool) (xs : List String) {k : String} {ks : List String}
    → select p xs ≡ k ∷ ks
    → (contains xs k ≡ true) × (p k ≡ true)
unfolding select contains
select-cons p [] h = cc
select-cons p (x ∷ xs) {k} {ks} h = elim (Bool-cases (p x)) [
  | inl taken ↦
      let chosen : x ∷ select p xs ≡ k ∷ ks = rw taken at h in
      let e : x ≡ k = cc in (ground arith, cc)
  | inr left ↦
      let later : select p xs ≡ k ∷ ks = rw left at h in
      let (here, holds) = select-cons p xs later in (ground arith, holds)
]

unset_of :
    (environ : Dict String) (k : String) → is_falsy (lookup k environ) ≡ true → ¬ IsSetIn environ k
unset_of environ k h (v, found, full) =
    let e : is_falsy (lookup k environ) ≡ (v == "") = rw found refl in cc

pub missing_required-Lacks :
    (files : Files) (environ : Dict String) {k : String} {ks : List String}
    → missing_required files environ ≡ ok (k ∷ ks)
    → Lacks files environ
unfolding missing_required missing
missing_required-Lacks files environ {k} {ks} h =
    let (env, loaded, found) =
      >>=-eq-ok (load_env files (env_file_path environ)) (λ env. ok (missing env environ)) h in
    let these : missing env environ ≡ k ∷ ks = cc in
    let (required, falsy) =
      select-cons (λ k. is_falsy (lookup k (merge env environ))) required_keys these in
    record {
      env = env;
      loaded = loaded;
      name = k;
      required = required;
      unset = unset_of (merge env environ) k falsy;
    }

pub Lacks-missing_required :
    (files : Files) (environ : Dict String)
    → Lacks files environ
    → (k : String) × (ks : List String) × (missing_required files environ ≡ ok (k ∷ ks))
unfolding missing_required missing
Lacks-missing_required files environ l = go (missing l.env environ) refl
  where
    absent : String → Bool
    absent k = is_falsy (lookup k (merge l.env environ))

    go :
        (names : List String)
        → missing l.env environ ≡ names
        → (k : String) × (ks : List String) × (missing_required files environ ≡ ok (k ∷ ks))
    go [] e =
        let all_there = select_nil-false absent required_keys e in
        let there =
          All-contains (λ k. absent k ≡ false) l.name required_keys all_there l.required in
        absurd (l.unset (truthy_of (lookup l.name (merge l.env environ)) there))
    go (k ∷ ks) e = (k, ks, rw (l.loaded, e) refl)
