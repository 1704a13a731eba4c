-- ===== src/Guard/Cards.antt =====
-- `_identifier_pattern` and `match_existing_cards`.
use hermes_agent_runtime.Base.{ℕ, Bool, true, false, not, ◌&&◌, ◌||◌, List, [], ◌∷◌, String}
use hermes_agent_runtime.Base.{Option, none, some, ◌==◌, string_eq, if◌then◌else◌}
use hermes_agent_runtime.Base.{length, drop, eqb}
use hermes_agent_runtime.Base.Dict.{Dict, lookup, insert}
use hermes_agent_runtime.Base.Sets.{unique}
use hermes_agent_runtime.Base.Sorting.{sorted_by}
use hermes_agent_runtime.Base.Text.{codes, begins, is_digit, is_letter}

-- A task of the board, with what `getattr` finds on it
pub record BoardTask : Type 0 where
  pub id : String
  pub status : Option String
  pub title : Option String
  pub body : Option String

-- `[0-9A-Za-z-]`
is_token_code : ℕ → Bool
is_token_code c = is_digit c || is_letter c || eqb c b'-'

abbrev begins_token : List ℕ → Bool
begins_token [] = false
begins_token (c ∷ _) = is_token_code c

-- The pattern matches at this place, where `inside` says that a token's character stands before.
token_here : Bool → List ℕ → List ℕ → Bool
unfolding begins is_token_code
token_here inside identifier s =
    not inside && begins s identifier && not (begins_token (drop (length identifier) s))

-- `pattern.search(s)`
unfoldable pub search_token : Bool → List ℕ → List ℕ → Bool
unfolding token_here is_token_code
search_token inside identifier [] = token_here inside identifier []
search_token inside identifier (c ∷ s) =
    token_here inside identifier (c ∷ s) || search_token (is_token_code c) identifier s

abbrev text_of : Option String → List ℕ
text_of none = []
text_of (some s) = codes s

unfoldable pub mentions : String → BoardTask → Bool
unfolding search_token codes
mentions identifier task =
    search_token false (codes identifier) (text_of task.title)
    || search_token false (codes identifier) (text_of task.body)

unfoldable pub is_archived : BoardTask → Bool
is_archived task = elim (task.status) [ none ↦ false | some status ↦ status == "archived" ]

abbrev pub is_some {ℓ} : {A : Type ℓ} → Option A → Bool
is_some none = false
is_some (some _) = true

-- The inner loop, over the identifiers that are looked for
unfoldable pub note_task : BoardTask → List String → Dict String → Dict String
unfolding lookup insert mentions
note_task task [] found = found
note_task task (identifier ∷ wanted) found = note_task task wanted (
    if is_some (lookup identifier found)
    then found
    else if mentions identifier task
    then insert identifier task.id found
    else found)

unfoldable pub note_tasks : List BoardTask → List String → Dict String → Dict String
unfolding note_task is_archived
note_tasks [] wanted found = found
note_tasks (task ∷ tasks) wanted found =
    note_tasks tasks wanted (if is_archived task then found else note_task task wanted found)

unfoldable pub match_existing_cards : List BoardTask → List String → Dict String
unfolding note_tasks sorted_by unique
match_existing_cards tasks identifiers =
    note_tasks (sorted_by (λ task. task.id) tasks) (unique identifiers) []
