-- ===== src/Payloads/Validate.antt =====
-- The checks of payloads.py. What is raised is a `PayloadValidationError` with its message, or the
-- `ValueError` of `urlsplit`.
use hermes_agent_runtime.Base.{ℕ, Bool, true, false, not, ◌&&◌, ◌||◌, List, [], ◌∷◌}
use hermes_agent_runtime.Base.{String, ◌<>◌, none, some, ◌==◌, string_eq, contains}
use hermes_agent_runtime.Base.{if◌then◌else◌, any, all, eqb, length, is_negative}
use hermes_agent_runtime.Base.Dict.{lookup}
use hermes_agent_runtime.Base.Result.{Result, ok, err, ◌>>◌, raise_if}
use hermes_agent_runtime.Base.Text.{
  starts_with, codes, lower, occurs, in_range, is_digit, is_letter,
}
use hermes_agent_runtime.Payloads.Value.{Value, int, text, container, value_eq}
use hermes_agent_runtime.Payloads.Contract.{
  enum_table, deploy_environments, int_fields, url_fields, IdPattern, id_patterns, secret_words,
}
use hermes_agent_runtime.Payloads.Url.{urlsplit, SplitResult}

pub data Failure : Type 0 where
  invalid : String → Failure
  bad_url : Failure

abbrev pub Checked : Type 0 → Type 0
Checked A = Result Failure A

-- `[0-9A-HJKMNP-TV-Z]`
unfoldable pub is_crockford : ℕ → Bool
is_crockford c =
    is_digit c
    || in_range b'A' b'H' c
    || eqb c b'J'
    || eqb c b'K'
    || eqb c b'M'
    || eqb c b'N'
    || in_range b'P' b'T' c
    || in_range b'V' b'Z' c

is_task_code : ℕ → Bool
is_task_code c = is_letter c || is_digit c || eqb c b'_' || eqb c b'-'

is_hex : ℕ → Bool
is_hex c = is_digit c || in_range b'a' b'f' c || in_range b'A' b'F' c

-- `pattern.fullmatch(value)`
unfoldable pub fullmatch : IdPattern → List ℕ → Bool
unfolding is_crockford all is_task_code is_hex
fullmatch IdPattern.run_id (r ∷ u ∷ n ∷ u' ∷ s) =
    eqb r b'r' && eqb u b'u' && eqb n b'n' && eqb u' b'_' && eqb (length s) 26 && all is_crockford s
fullmatch IdPattern.kanban_task_id (t ∷ u ∷ c ∷ s) =
    eqb t b't' && eqb u b'_' && all is_task_code (c ∷ s)
fullmatch IdPattern.commit_sha s = eqb (length s) 40 && all is_hex s
fullmatch _ _ = false

unfoldable pub holds_secret : String → Bool
unfolding codes lower occurs any
holds_secret s =
    let lowered = lower (codes s) in any (λ word. occurs (codes word) lowered) secret_words

-- `value not in options`
abbrev misses : List String → Value → Bool
misses options (text s) = not (contains options s)
misses options _ = true

unfoldable pub check_text : String → Value → Checked (Unit {0})
unfolding holds_secret
check_text key container = err (invalid (key <> " must be a scalar value"))
check_text key (text s) = do
  raise_if (s == "") (invalid (key <> " must not be empty"))
  raise_if (holds_secret s) (invalid (key <> " contains prohibited sensitive text"))
check_text key _ = ok tt

-- `not isinstance(value, int) or isinstance(value, bool) or (key != "exit_code" and value < 0)`
not_count : String → Value → Bool
not_count key (int n) = not (key == "exit_code") && is_negative n
not_count key _ = true

unfoldable pub check_int : String → Value → Checked (Unit {0})
unfolding contains not_count
check_int key value =
    raise_if (contains int_fields key && not_count key value)
      (invalid (key <> " must be an integer"))

unfoldable pub check_enum : String → String → Value → Checked (Unit {0})
unfolding lookup contains
check_enum event_type key value = elim (lookup key enum_table) [
  | none ↦ ok tt
  | some options ↦
      raise_if (misses options value && (not (key == "reason") || event_type == "lock.rejected"))
        (invalid (key <> " has an unsupported value"))
]

unfoldable pub check_environment : String → String → Value → Checked (Unit {0})
unfolding contains starts_with
check_environment event_type key value =
    raise_if
      (key == "environment" && starts_with event_type "deploy." && misses deploy_environments value)
      (invalid "deploy events require preview, staging, or production environment")

-- A value that is no text matches no pattern.
abbrev fails_pattern : IdPattern → Value → Bool
fails_pattern p (text s) = not (fullmatch p (codes s))
fails_pattern p _ = true

unfoldable pub check_pattern : String → Value → Checked (Unit {0})
unfolding lookup fullmatch codes
check_pattern key value = elim (lookup key id_patterns) [
  | none ↦ ok tt
  | some p ↦ raise_if (fails_pattern p value) (invalid (key <> " has an invalid format"))
]

abbrev is_empty : List ℕ → Bool
is_empty [] = true
is_empty (_ ∷ _) = false

same_codes : List ℕ → List ℕ → Bool
same_codes [] [] = true
same_codes (a ∷ s) (b ∷ t) = eqb a b && same_codes s t
same_codes _ _ = false

check_parts : String → SplitResult → Checked (Unit {0})
unfolding same_codes codes
check_parts key parsed = do
  raise_if (not (same_codes parsed.scheme (codes "https")) || is_empty parsed.netloc)
      (invalid (key <> " must be an HTTPS URL"))
  raise_if (not (is_empty parsed.query) || not (is_empty parsed.fragment))
      (invalid (key <> " must not contain query string or fragment"))

unfoldable pub validate_https_url : String → Value → Checked (Unit {0})
unfolding urlsplit codes check_parts
validate_https_url key (text s) = elim (urlsplit (codes s)) [
  | none ↦ err bad_url
  | some parsed ↦ check_parts key parsed
]
validate_https_url key _ = err (invalid (key <> " must be a string URL"))

unfoldable pub check_url : String → Value → Checked (Unit {0})
unfolding contains validate_https_url
check_url key value = if contains url_fields key then validate_https_url key value else ok tt

unfoldable pub validate_value : String → String → Value → Checked (Unit {0})
unfolding check_text check_int check_enum check_environment check_pattern check_url
validate_value event_type key value = do
  check_text key value
  check_int key value
  check_enum event_type key value
  check_environment event_type key value
  check_pattern key value
  check_url key value
