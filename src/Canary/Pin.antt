-- ===== src/Canary/Pin.antt =====
-- gen_pin.py, and the check of the canary against the pin.
use hermes_agent_runtime.Base.{
  ℕ, Bool, true, false, not, ◌&&◌, String, Option, none, some, List, [], ◌∷◌, ◌==◌, string_eq,
  if◌then◌else◌, pos,
}
use hermes_agent_runtime.Base.Dict.{Dict, insert}
use hermes_agent_runtime.Base.Result.{ok, err, ◌>>=◌}
use hermes_agent_runtime.Base.Strip.{strip}
use hermes_agent_runtime.Runtime.Exceptions.{Call, error}
use hermes_agent_runtime.Clients.Json.{Json, null, number, text, object, Members, end, member, get}

-- A path that `rglob` lists, in the order of `sorted`: relative to the root of the chain, its last
-- part, and whether it is a file
pub record Entry : Type 0 where
  pub path : String
  pub name : String
  pub is_file : Bool

-- The root of the chain on a disk: the digest of a file, if it can be read, and what `json.loads`
-- makes of `PIN.json`, if it is a file
pub record Disk : Type 0 where
  pub listing : List Entry
  pub digest : String → Option String
  pub pin : Option (Call Json)

-- `COMMIT`
abbrev pub commit : String
commit = "477b28ede946a6bff5ae562339e31b999015518e"

-- `sha256` of gen_pin.py
abbrev pub hashed : Option String → Call String
hashed none = err (error "OSError" "")
hashed (some digest) = ok digest

unfoldable pub note_entry : Disk → Entry → Dict String → Call (Dict String)
unfolding insert
note_entry disk entry files =
    if entry.is_file && not (entry.name == "PIN.json")
    then (do digest ← hashed (disk.digest entry.path); ok (insert entry.path digest files))
    else ok files

-- The loop over the files
unfoldable pub hash_files : Disk → List Entry → Dict String → Call (Dict String)
unfolding note_entry
hash_files disk [] files = ok files
hash_files disk (entry ∷ entries) files = do
  files' ← note_entry disk entry files
  hash_files disk entries files'

unfoldable pub members_of : Dict String → Members
members_of [] = end
members_of ((path, digest) ∷ files) = member path (text digest) (members_of files)

unfoldable pub pin_of : String → String → String → Dict String → Json
unfolding strip members_of
pin_of subject remote now files = object (
    member "schema" (number (pos 1)) (
      member "commit" (text commit) (
        member "commit_subject" (text (strip subject)) (
          member "source_repo" (text (strip remote))
            (member "generated_at" (text now) (member "files" (object (members_of files)) end))))))

abbrev pub write_pin : Disk → Json → Call ℕ × Disk
write_pin disk pin = (ok 0, record disk { pin = some (ok pin) })

abbrev pub written : String → String → String → Disk → Call (Dict String) → Call ℕ × Disk
written subject remote now disk (err e) = (err e, disk)
written subject remote now disk (ok files) = write_pin disk (pin_of subject remote now files)

-- `main` of gen_pin.py. `subject` and `remote` are what `git` prints, `now` is the time; what
-- `json.dumps` writes, `json.loads` reads.
unfoldable pub generate : String → String → String → Disk → Call ℕ × Disk
unfolding hash_files pin_of
generate subject remote now disk = written subject remote now disk (hash_files disk disk.listing [])

-- A check of the canary: its label and whether it passed
abbrev pub Check : Type 0
Check = String × Bool

-- `value == s`
abbrev pub is_text : Json → String → Bool
is_text (text s) expected = s == expected
is_text _ expected = false

-- `sha256` of the canary
abbrev pub digest_or_missing : Option String → String
digest_or_missing none = "missing"
digest_or_missing (some digest) = digest

unfoldable pub mismatched : Disk → Members → List String
mismatched disk end = []
mismatched disk (member rel want files) =
    let rest = mismatched disk files in
    if is_text want (digest_or_missing (disk.digest rel)) then rest else rel ∷ rest

-- `value.items()`
abbrev pub items : Json → Call Members
items (object members) = ok members
items _ = err (error "AttributeError" "items")

abbrev pub is_nil : List String → Bool
is_nil [] = true
is_nil (_ ∷ _) = false

abbrev pub against : Disk → String → Json → Call (List Check)
against disk chain_pin pin = do
  pinned ← get pin "commit" null
  files ← get pin "files" (object end)
  members ← items files
  ok (
      ("chain_pin_commit", is_text pinned chain_pin)
      ∷ ("chain_pin_files", is_nil (mismatched disk members))
      ∷ [])

abbrev pub pin_checks_of : Disk → String → Option (Call Json) → Call (List Check)
pin_checks_of disk chain_pin none = ok (("chain_pin_commit", false) ∷ [])
pin_checks_of disk chain_pin (some (err e)) = err e
pin_checks_of disk chain_pin (some (ok pin)) = against disk chain_pin pin

-- The third and fourth check of the canary
unfoldable pub pin_checks : Disk → String → Call (List Check)
unfolding get mismatched
pin_checks disk chain_pin = pin_checks_of disk chain_pin disk.pin
