-- ===== src/Guard/Found.antt =====
-- `match_existing_cards` finds a card for an identifier exactly if there is one.
use hermes_agent_runtime.Base.{
  ◌≡◌, refl, ◌∙◌, Bool, false, not, ◌&&◌, ◌||◌, String, some, List, [], ◌∷◌, ◌==◌, string_eq,
  if◌then◌else◌, contains, any, arith, Bool-cases, inl, inr, true, ◌⊎◌, ==-refl, sym,
}
use hermes_agent_runtime.Base.Dict.{contains-keys-insert, lookup-insert, Dict, lookup, insert, keys}
use hermes_agent_runtime.Base.Sets.{unique, unique_from}
use hermes_agent_runtime.Base.Sorting.{sorted_by, any-sorted_by}
use hermes_agent_runtime.Guard.Cards.{
  BoardTask, is_some, mentions, is_archived, note_task, note_tasks, match_existing_cards,
}

-- A card that keeps the identifier from being dispatched: not archived, and it mentions it.
unfoldable pub blocks : String → BoardTask → Bool
unfolding is_archived mentions
blocks identifier task = not (is_archived task) && mentions identifier task

pub contains-keys :
    {V : Type 0} (k : String) (d : Dict V) → contains (keys d) k ≡ is_some (lookup k d)
unfolding contains keys lookup
contains-keys k [] = refl
contains-keys k ((j, v) ∷ d) = ground (arith, contains-keys k d)

-- One identifier that is looked for
abbrev note_one : BoardTask → String → Dict String → Dict String
note_one task identifier found =
    if is_some (lookup identifier found)
    then found
    else if mentions identifier task
    then insert identifier task.id found
    else found

contains-note_one :
    (k : String) (task : BoardTask) (identifier : String) (found : Dict String)
    → contains (keys (note_one task identifier found)) k
      ≡ (contains (keys found) k || (k == identifier && mentions k task))
contains-note_one k task identifier found =
    let here = contains-keys identifier found in
    let new = contains-keys-insert k identifier task.id found in ground arith

contains-note_task :
    (k : String) (task : BoardTask) (wanted : List String) (found : Dict String)
    → contains (keys (note_task task wanted found)) k
      ≡ (contains (keys found) k || (contains wanted k && mentions k task))
unfolding note_task contains
contains-note_task k task [] found = ground arith
contains-note_task k task (identifier ∷ wanted) found =
    contains-note_task k task wanted (note_one task identifier found)
    ∙ rw (contains-note_one k task identifier found) (ground arith)

contains-note_tasks :
    (k : String) (tasks : List BoardTask) (wanted : List String) (found : Dict String)
    → contains (keys (note_tasks tasks wanted found)) k
      ≡ (contains (keys found) k || (contains wanted k && any (blocks k) tasks))
unfolding note_tasks any blocks
contains-note_tasks k [] wanted found = ground arith
contains-note_tasks k (task ∷ tasks) wanted found =
    contains-note_tasks k tasks wanted
      (if is_archived task then found else note_task task wanted found)
    ∙ (elim (Bool-cases (is_archived task)) [
      | inl archived ↦ rw archived (refl)
      | inr live ↦ rw (live, contains-note_task k task wanted found) (ground arith)
    ])

contains-unique_from :
    (k : String) (seen xs : List String)
    → contains (unique_from seen xs) k ≡ (contains xs k && not (contains seen k))
unfolding unique_from contains
contains-unique_from k seen [] = refl
contains-unique_from k seen (x ∷ xs) =
    let new = contains-unique_from k (x ∷ seen) xs in
    let old = contains-unique_from k seen xs in ground arith

contains-unique : (k : String) (xs : List String) → contains (unique xs) k ≡ contains xs k
unfolding unique contains
contains-unique k xs = contains-unique_from k [] xs ∙ ground arith

-- A card is found for exactly those of the identifiers that the title or the body of some task of
-- the board that is not archived has as a token of its own.
pub match_existing_cards_lem :
    (k : String) (tasks : List BoardTask) (identifiers : List String)
    → contains (keys (match_existing_cards tasks identifiers)) k
      ≡ (contains identifiers k && any (blocks k) tasks)
unfolding match_existing_cards contains keys
match_existing_cards_lem k tasks identifiers =
    contains-note_tasks k (sorted_by (λ task. task.id) tasks) (unique identifiers) []
    ∙ rw (contains-unique k identifiers, any-sorted_by (λ task. task.id) (blocks k) tasks) refl

-- No task has an empty id, and no card was noted with one.
abbrev pub has_no_id : BoardTask → Bool
has_no_id task = task.id == ""

abbrev is_blank : String × String → Bool
is_blank (key, value) = value == ""

any-insert_blank :
    (k v : String) (found : Dict String)
    → (v == "") ≡ false
    → any is_blank found ≡ false
    → any is_blank (insert k v found) ≡ false
unfolding any insert
any-insert_blank k v [] h none_blank = ground arith
any-insert_blank k v ((j, u) ∷ found) h none_blank = ground (arith, any-insert_blank k v found h)

note_task-blank :
    (task : BoardTask) (wanted : List String) (found : Dict String)
    → has_no_id task ≡ false
    → any is_blank found ≡ false
    → any is_blank (note_task task wanted found) ≡ false
unfolding note_task
note_task-blank task [] found h none_blank = none_blank
note_task-blank task (identifier ∷ wanted) found h none_blank =
    let noted = any-insert_blank identifier task.id found h none_blank in
    note_task-blank task wanted (note_one task identifier found) h (ground arith)

note_tasks-blank :
    (tasks : List BoardTask) (wanted : List String) (found : Dict String)
    → any has_no_id tasks ≡ false
    → any is_blank found ≡ false
    → any is_blank (note_tasks tasks wanted found) ≡ false
unfolding note_tasks any
note_tasks-blank [] wanted found h none_blank = none_blank
note_tasks-blank (task ∷ tasks) wanted found h none_blank =
    let noted = note_task-blank task wanted found (ground arith) none_blank in
    note_tasks-blank tasks wanted (if is_archived task then found else note_task task wanted found)
      (ground arith) (ground arith)

lookup-blank :
    (k : String) (found : Dict String) {v : String}
    → any is_blank found ≡ false
    → lookup k found ≡ some v
    → (v == "") ≡ false
unfolding any lookup
lookup-blank k [] h e = cc
lookup-blank k ((j, u) ∷ found) {v} h e = ground (arith, lookup-blank k found {v = v})

-- The card that is found has an id.
pub match_existing_cards-blank :
    (k : String) (tasks : List BoardTask) (identifiers : List String) {v : String}
    → any has_no_id tasks ≡ false
    → lookup k (match_existing_cards tasks identifiers) ≡ some v
    → (v == "") ≡ false
unfolding match_existing_cards any
match_existing_cards-blank k tasks identifiers h e =
    lookup-blank k (match_existing_cards tasks identifiers)
      (note_tasks-blank (sorted_by (λ task. task.id) tasks) (unique identifiers) []
        (any-sorted_by (λ task. task.id) has_no_id tasks ∙ h) refl)
      e

-- The task with this id is a card that keeps the identifier from being dispatched.
abbrev pub is_card_of : String → String → BoardTask → Bool
is_card_of identifier task_id task = task.id == task_id && blocks identifier task

lookup-note_one :
    (k v : String) (task : BoardTask) (identifier : String) (found : Dict String)
    → lookup k (note_one task identifier found) ≡ some v
    → ((task.id == v && mentions k task) ≡ true) ⊎ (lookup k found ≡ some v)
lookup-note_one k v task identifier found h =
    elim (Bool-cases (is_some (lookup identifier found))) [
      | inl there ↦ inr (rw there at h)
      | inr new ↦ elim (Bool-cases (mentions identifier task)) [
        | inr unnamed ↦ inr (rw (new, unnamed) at h)
        | inl named ↦
            let inserted : lookup k (insert identifier task.id found) ≡ some v =
              rw (new, named) at h in
            let looked = lookup-insert k identifier task.id found in
            elim (Bool-cases (k == identifier)) [
              | inl same ↦ inl (ground (arith, ==-refl v))
              | inr other ↦ inr (ground arith)
            ]
      ]
    ]

lookup-note_task :
    (k v : String) (task : BoardTask) (wanted : List String) (found : Dict String)
    → lookup k (note_task task wanted found) ≡ some v
    → ((task.id == v && mentions k task) ≡ true) ⊎ (lookup k found ≡ some v)
unfolding note_task
lookup-note_task k v task [] found h = inr h
lookup-note_task k v task (identifier ∷ wanted) found h =
    elim (lookup-note_task k v task wanted (note_one task identifier found) h) [
      | inl here ↦ inl here
      | inr before ↦ lookup-note_one k v task identifier found before
    ]

lookup-note_tasks :
    (k v : String) (tasks : List BoardTask) (wanted : List String) (found : Dict String)
    → lookup k (note_tasks tasks wanted found) ≡ some v
    → (any (is_card_of k v) tasks ≡ true) ⊎ (lookup k found ≡ some v)
unfolding note_tasks any blocks
lookup-note_tasks k v [] wanted found h = inr h
lookup-note_tasks k v (task ∷ tasks) wanted found h =
    let noted = if is_archived task then found else note_task task wanted found in
    elim (lookup-note_tasks k v tasks wanted noted h) [
      | inl later ↦ inl (ground arith)
      | inr before ↦ elim (Bool-cases (is_archived task)) [
        | inl archived ↦ inr (rw archived at before)
        | inr live ↦ elim (lookup-note_task k v task wanted found (rw live at before)) [
          | inl here ↦ inl (ground arith)
          | inr old ↦ inr old
        ]
      ]
    ]

-- The card that is found is the id of a task that is not archived and mentions the identifier.
pub lookup-match_existing_cards :
    (k v : String) (tasks : List BoardTask) (identifiers : List String)
    → lookup k (match_existing_cards tasks identifiers) ≡ some v
    → any (is_card_of k v) tasks ≡ true
unfolding match_existing_cards lookup
lookup-match_existing_cards k v tasks identifiers h =
    elim (lookup-note_tasks k v (sorted_by (λ task. task.id) tasks) (unique identifiers) [] h) [
      | inl here ↦ sym (any-sorted_by (λ task. task.id) (is_card_of k v) tasks) ∙ here
      | inr e ↦ cc
    ]
