-- ===== src/Canary/Verdict.antt =====
-- What each group of the canary's checks shows where it passes.
use hermes_agent_runtime.Base.{
  ℕ, ◌<◌, ◌≡◌, refl, sym, ap, ◌∙◌, Bool, true, false, ◌&&◌, String, ◌<>◌, Option, none, some, List,
  [], ◌∷◌, ◌++◌, map, string_eq, if◌then◌else◌, contains, all, All, All-map, arith, ℤ, pos, negsuc,
  zero, suc,
}
use hermes_agent_runtime.Base.Dict.{keys}
use hermes_agent_runtime.Base.Result.{ok, err, ◌>>=◌}
use hermes_agent_runtime.Base.Strip.{splitlines}
use hermes_agent_runtime.Runtime.Exceptions.{Call, is_exception}
use hermes_agent_runtime.Env.File.{parse_env}
use hermes_agent_runtime.Env.Process.{required_keys}
use hermes_agent_runtime.Clients.Json.{Json, Members, null, object, end, get}
use hermes_agent_runtime.Canary.Pin.{
  Disk, Check, pin_checks, pin_checks_of, against, items, is_text, is_nil, mismatched,
}
use hermes_agent_runtime.Canary.Secrets.{
  SecretFile, secret_checks, with_contents, keys_in, keys_present,
}
use hermes_agent_runtime.Canary.Laws.{keys_in-parse_env}
use hermes_agent_runtime.Canary.Checks.{is_zero, read_board, suite_check}

abbrev pub passed : List Check → Bool
passed cs = all (λ c. c.1) cs

passed-append : (xs ys : List Check) → passed (xs ++ ys) ≡ (passed xs && passed ys)
unfolding all
passed-append [] ys = refl
passed-append (x ∷ xs) ys = ground (arith, passed-append xs ys)

pub passed-split :
    (xs ys : List Check) → passed (xs ++ ys) ≡ true → (passed xs ≡ true) × (passed ys ≡ true)
passed-split xs ys h = let e = passed-append xs ys in (ground arith, ground arith)

pub all-All : {A : Type 0} (p : A → Bool) (xs : List A) → all p xs ≡ true → All (λ x. p x ≡ true) xs
unfolding all
all-All p [] h = tt
all-All p (x ∷ xs) h = (ground arith, all-All p xs (ground arith))

-- The file of settings is safe and gives every setting that is required a name.
pub record IsSecret (file : SecretFile) : Type 0 where
  pub private_mode : file.mode ≡ "0o600"
  pub contents : String
  pub read : file.contents ≡ ok contents
  pub named : All (λ k. contains (keys (parse_env contents)) k ≡ true) required_keys

abbrev pub passes : Call (List Check) → Bool
passes (ok cs) = passed cs
passes (err e) = false

pub board-passes :
    (r : Call (String × ℕ))
    → passes (read_board r) ≡ true
    → (found : String × ℕ) × (r ≡ ok found) × (0 < found.1)
unfolding all
board-passes (ok (path, total)) p = ((path, total), refl, ground arith)
board-passes (err e) p = go (is_exception e) p
  where
    go :
        (b : Bool)
        → passes (if b then ok (("board_read", false) ∷ []) else err e) ≡ true
        → (found : String × ℕ) × (err e ≡ ok found) × (0 < found.1)
    go true k = cc
    go false k = cc

keys_present-named :
    (contents : String)
    → keys_present contents ≡ true
    → All (λ k. contains (keys (parse_env contents)) k ≡ true) required_keys
unfolding keys_present
keys_present-named contents h =
    All-map {P = λ k. contains (keys_in (splitlines contents)) k ≡ true}
      {Q = λ k. contains (keys (parse_env contents)) k ≡ true}
      (λ k found. sym (keys_in-parse_env k contents) ∙ found) required_keys
      (all-All (contains (keys_in (splitlines contents))) required_keys h)

pub secrets-passes :
    (o : Option SecretFile)
    → passes (secret_checks o) ≡ true
    → (file : SecretFile) × (o ≡ some file) × IsSecret file
unfolding secret_checks all
secrets-passes none p = cc
secrets-passes (some file) p = (file, refl, go file.contents refl p)
  where
    go :
        (r : Call String)
        → file.contents ≡ r
        → passes (with_contents file.mode r) ≡ true
        → IsSecret file
    go (err e) h k = cc
    go (ok contents) h k = record {
      private_mode = ground arith;
      contents = contents;
      read = h;
      named = keys_present-named contents (ground arith);
    }

abbrev pub both : List Check
both = ("chain_pin_commit", true) ∷ ("chain_pin_files", true) ∷ []

two_passed :
    (a b : Bool)
    → passed (("chain_pin_commit", a) ∷ ("chain_pin_files", b) ∷ []) ≡ true
    → ◌≡◌ {A = Call (List Check)}
        (ok (("chain_pin_commit", a) ∷ ("chain_pin_files", b) ∷ []))
        (ok both)
unfolding all
two_passed true true h = refl
two_passed true false h = cc
two_passed false b h = cc

against-passes :
    (disk : Disk) (chain_pin : String) (pin : Json)
    → passes (against disk chain_pin pin) ≡ true
    → against disk chain_pin pin ≡ ok both
against-passes disk chain_pin pin p = go (get pin "commit" null) (get pin "files" (object end)) p
  where
    last :
        (pinned : Json) (r : Call Members)
        → passes (
            r >>= λ members. ok (
              ("chain_pin_commit", is_text pinned chain_pin)
              ∷ ("chain_pin_files", is_nil (mismatched disk members))
              ∷ []))
          ≡ true
        → (r >>= λ members. ok (
            ("chain_pin_commit", is_text pinned chain_pin)
            ∷ ("chain_pin_files", is_nil (mismatched disk members))
            ∷ []))
          ≡ ok both
    last pinned (ok members) k = two_passed _ _ k
    last pinned (err e) k = cc

    go :
        (r s : Call Json)
        → passes (
            r >>= λ pinned. s >>= λ files. items files >>= λ members. ok (
              ("chain_pin_commit", is_text pinned chain_pin)
              ∷ ("chain_pin_files", is_nil (mismatched disk members))
              ∷ []))
          ≡ true
        → (r >>= λ pinned. s >>= λ files. items files >>= λ members. ok (
            ("chain_pin_commit", is_text pinned chain_pin)
            ∷ ("chain_pin_files", is_nil (mismatched disk members))
            ∷ []))
          ≡ ok both
    go (ok pinned) (ok files) k = last pinned (items files) k
    go (ok pinned) (err e) k = cc
    go (err e) s k = cc

pub pins-passes :
    (disk : Disk) (chain_pin : String)
    → passes (pin_checks disk chain_pin) ≡ true
    → pin_checks disk chain_pin ≡ ok both
unfolding pin_checks all
pins-passes disk chain_pin p = go disk.pin p
  where
    go :
        (o : Option (Call Json))
        → passes (pin_checks_of disk chain_pin o) ≡ true
        → pin_checks_of disk chain_pin o ≡ ok both
    go none k = cc
    go (some (err e)) k = cc
    go (some (ok pin)) k = against-passes disk chain_pin pin k

pub is_zero-pos : (n : ℤ) → is_zero n ≡ true → n ≡ pos 0
is_zero-pos (pos zero) h = refl
is_zero-pos (pos (suc n)) h = cc
is_zero-pos (negsuc n) h = cc

pub suite-passes : (o : Option ℤ) → (suite_check o).1 ≡ true → o ≡ some (pos 0)
suite-passes none h = cc
suite-passes (some n) h = ap some (is_zero-pos n h)

pub labelled-passed :
    (p : String → Bool) (units : List (String × String))
    → passed (map (λ unit. ("unit_file_present[" <> unit.1 <> "]", p unit.0)) units) ≡ true
    → all (λ unit. p unit.0) units ≡ true
unfolding all
labelled-passed p [] h = refl
labelled-passed p (unit ∷ units) h = ground (arith, labelled-passed p units)
