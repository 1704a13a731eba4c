-- ===== src/Canary/Laws.antt =====
-- What the canary's own reading of the settings finds, and what its check of the pin shows.
use hermes_agent_runtime.Base.{
  ◌≡◌, refl, Bool, ◌||◌, String, Option, none, some, List, [], ◌∷◌, ◌==◌, string_eq, contains,
  arith, Bool-cases, inl, inr,
}
use hermes_agent_runtime.Base.Dict.{Dict, keys, contains-keys-insert}
use hermes_agent_runtime.Base.Strip.{strip, splitlines, split_once, begins_with}
use hermes_agent_runtime.Env.File.{unquote, clean, load_line, put, load_lines, parse_env}
use hermes_agent_runtime.Canary.Secrets.{first_part, add_key, key_in, keys_in}

-- A line gives the same name to both readers.
contains-line :
    (k raw : String) (out : Dict String) (rest : Bool)
    → (contains (keys (put (load_line raw) out)) k || rest)
      ≡ (contains (add_key (key_in raw) []) k || (rest || contains (keys out) k))
unfolding load_line key_in contains
contains-line k raw out rest = elim (Bool-cases (strip raw == "" || begins_with b'#' (strip raw))) [
  | inl skipped ↦ rw skipped (ground arith)
  | inr read ↦ rw read (go (split_once b'=' (strip raw)))
]
  where
    go :
        (o : Option (String × String))
        → (contains (keys (put (clean o) out)) k || rest)
          ≡ (contains (add_key (first_part o) []) k || (rest || contains (keys out) k))
    go none = ground arith
    go (some (key, value)) = ground (arith, contains-keys-insert k (strip key) (unquote value) out)

contains-add_key :
    (k : String) (o : Option String) (names : List String)
    → contains (add_key o names) k ≡ (contains (add_key o []) k || contains names k)
unfolding contains
contains-add_key k none names = refl
contains-add_key k (some key) names = ground arith

contains-load_lines :
    (k : String) (lines : List String) (out : Dict String)
    → contains (keys (load_lines lines out)) k
      ≡ (contains (keys_in lines) k || contains (keys out) k)
unfolding load_lines keys_in contains
contains-load_lines k [] out = refl
contains-load_lines k (raw ∷ lines) out =
    let rest = contains-load_lines k lines (put (load_line raw) out) in
    let line = contains-line k raw out (contains (keys_in lines) k) in
    let added = contains-add_key k (key_in raw) (keys_in lines) in ground arith

-- The canary finds in a file of settings exactly the names that `load_env` reads there.
pub keys_in-parse_env :
    (k contents : String)
    → contains (keys_in (splitlines contents)) k ≡ contains (keys (parse_env contents)) k
unfolding parse_env keys contains
keys_in-parse_env k contents = ground (arith, contains-load_lines k (splitlines contents) [])
