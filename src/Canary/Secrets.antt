-- ===== src/Canary/Secrets.antt =====
-- The eighth check of the canary: the file of settings.
use hermes_agent_runtime.Base.{
  Bool, false, ◌||◌, String, Option, none, some, List, [], ◌∷◌, ◌==◌, string_eq, if◌then◌else◌,
  contains, all,
}
use hermes_agent_runtime.Base.Result.{ok, err}
use hermes_agent_runtime.Base.Strip.{strip, splitlines, split_once, begins_with}
use hermes_agent_runtime.Runtime.Exceptions.{Call}
use hermes_agent_runtime.Env.Process.{required_keys}
use hermes_agent_runtime.Canary.Pin.{Check}

-- A file: its mode in octal digits, as `oct` shows it, and its text
pub record SecretFile : Type 0 where
  pub mode : String
  pub contents : Call String

abbrev pub first_part : Option (String × String) → Option String
first_part none = none
first_part (some (key, value)) = some (strip key)

-- The name that a line gives, if it gives any
unfoldable pub key_in : String → Option String
unfolding strip split_once
key_in raw =
    let line = strip raw in
    if line == "" || begins_with b'#' line then none else first_part (split_once b'=' line)

abbrev pub add_key : Option String → List String → List String
add_key none keys = keys
add_key (some key) keys = key ∷ keys

-- The set of the names, as a list in which one may stand twice
unfoldable pub keys_in : List String → List String
unfolding key_in
keys_in [] = []
keys_in (raw ∷ lines) = add_key (key_in raw) (keys_in lines)

-- `required <= keys`
unfoldable pub keys_present : String → Bool
unfolding keys_in splitlines contains all
keys_present contents = all (contains (keys_in (splitlines contents))) required_keys

abbrev pub with_contents : String → Call String → Call (List Check)
with_contents mode (err e) = err e
with_contents mode (ok contents) =
    ok (("secret_file_mode", mode == "0o600") ∷ ("secret_keys_present", keys_present contents) ∷ [])

unfoldable pub secret_checks : Option SecretFile → Call (List Check)
unfolding keys_present
secret_checks none = ok (("secret_file_mode", false) ∷ [])
secret_checks (some file) = with_contents file.mode file.contents
