-- ===== src/Canary/Pinned.antt =====
-- The canary's check of the pin that gen_pin.py writes.
use hermes_agent_runtime.Base.{
  contains, ◌||◌, ◌≡◌, ◌↔◌, refl, sym, ap, ◌∙◌, Bool, true, false, not, ◌&&◌, String, Option, none,
  some, List, [], ◌∷◌, ◌==◌, string_eq, if◌then◌else◌, All, arith, Bool-cases, inl, inr, ==-refl,
}
use hermes_agent_runtime.Base.Dict.{Dict, insert, keys, contains-keys-insert}
use hermes_agent_runtime.Base.Result.{ok, err, ◌>>=◌, >>=-eq-ok}
use hermes_agent_runtime.Runtime.Exceptions.{Call}
use hermes_agent_runtime.Canary.Pin.{
  Entry, Disk, commit, note_entry, hash_files, hashed, members_of, pin_of, generate, written,
  digest_or_missing, mismatched, pin_checks, pin_checks_of, is_nil,
}

-- Each file has the digest that stands beside it.
abbrev pub Holds : Disk → String × String → Type 0
Holds disk (path, digest) = disk.digest path ≡ some digest

-- The canary would find the same digest.
abbrev pub Same : Disk → String × String → Type 0
Same disk (path, digest) = digest_or_missing (disk.digest path) ≡ digest

insert-Holds :
    (disk : Disk) (path digest : String) (files : Dict String)
    → disk.digest path ≡ some digest
    → All (Holds disk) files
    → All (Holds disk) (insert path digest files)
unfolding insert
insert-Holds disk path digest [] h all_hold = (h, tt)
insert-Holds disk path digest ((j, d) ∷ files) h (first, rest) = elim (Bool-cases (path == j)) [
  | inl same ↦ rw same (h, rest)
  | inr other ↦ rw other (first, insert-Holds disk path digest files h rest)
]

note_entry-Holds :
    (disk : Disk) (entry : Entry) (files : Dict String) {files' : Dict String}
    → note_entry disk entry files ≡ ok files'
    → All (Holds disk) files
    → All (Holds disk) files'
unfolding note_entry
note_entry-Holds disk entry files {files'} h all_hold =
    go (entry.is_file && not (entry.name == "PIN.json")) (disk.digest entry.path) refl h
  where
    go :
        (b : Bool) (o : Option String)
        → disk.digest entry.path ≡ o
        → (if b then (hashed o >>= λ digest. ok (insert entry.path digest files)) else ok files)
          ≡ ok files'
        → All (Holds disk) files'
    go false o e k = let same : files' ≡ files = cc in rw same all_hold
    go true none e k = cc
    go true (some digest) e k =
        let same : files' ≡ insert entry.path digest files = cc in
        rw same (insert-Holds disk entry.path digest files e all_hold)

hash_files-Holds :
    (disk : Disk) (entries : List Entry) (files : Dict String) {last : Dict String}
    → hash_files disk entries files ≡ ok last
    → All (Holds disk) files
    → All (Holds disk) last
unfolding hash_files
hash_files-Holds disk [] files {last} h all_hold = let same : last ≡ files = cc in rw same all_hold
hash_files-Holds disk (entry ∷ entries) files h all_hold =
    let (noted, e, rest) = >>=-eq-ok (note_entry disk entry files) (hash_files disk entries) h in
    hash_files-Holds disk entries noted rest (note_entry-Holds disk entry files e all_hold)

-- The entry is no file, or the pin itself, or its path is among those with a digest.
abbrev pub is_covered : Dict String → Entry → Bool
is_covered files entry =
    not (entry.is_file && not (entry.name == "PIN.json")) || contains (keys files) entry.path

keys-note_entry :
    (disk : Disk) (entry : Entry) (files : Dict String) {files' : Dict String}
    → note_entry disk entry files ≡ ok files'
    → (is_covered files' entry ≡ true)
      × ((k : String) → contains (keys files) k ≡ true → contains (keys files') k ≡ true)
unfolding note_entry
keys-note_entry disk entry files {files'} h =
    go (entry.is_file && not (entry.name == "PIN.json")) (disk.digest entry.path) refl h
  where
    go :
        (b : Bool) (o : Option String)
        → (entry.is_file && not (entry.name == "PIN.json")) ≡ b
        → (if b then (hashed o >>= λ digest. ok (insert entry.path digest files)) else ok files)
          ≡ ok files'
        → (is_covered files' entry ≡ true)
          × ((k : String) → contains (keys files) k ≡ true → contains (keys files') k ≡ true)
    go false o e k = let same : files' ≡ files = cc in (ground arith, λ name old. rw same old)
    go true none e k = cc
    go true (some digest) e k =
        let same : files' ≡ insert entry.path digest files = cc in
        let new = λ (name : String). contains-keys-insert name entry.path digest files in
        let here = new entry.path in
        let itself = ==-refl entry.path in
        let named : contains (keys files') entry.path ≡ true = rw same (ground arith) in
        (ground arith, λ name old. let there = new name in rw same (ground arith))

keys-hash_files :
    (disk : Disk) (entries : List Entry) (files : Dict String) {last : Dict String}
    → hash_files disk entries files ≡ ok last
    → All (λ entry. is_covered last entry ≡ true) entries
      × ((k : String) → contains (keys files) k ≡ true → contains (keys last) k ≡ true)
unfolding hash_files
keys-hash_files disk [] files {last} h =
    let same : last ≡ files = cc in (tt, λ name old. rw same old)
keys-hash_files disk (entry ∷ entries) files {last} h =
    let (noted, e, rest) = >>=-eq-ok (note_entry disk entry files) (hash_files disk entries) h in
    let (here, kept) = keys-note_entry disk entry files e in
    let (others, kept') = keys-hash_files disk entries noted rest in
    let still = kept' entry.path in
    let covered : is_covered last entry ≡ true =
      elim (Bool-cases (contains (keys noted) entry.path)) [
        | inl there ↦ let found = still there in ground arith
        | inr gone ↦ ground arith
      ] in
    ((covered, others), λ name old. kept' name (kept name old))

mismatched-Same :
    (disk : Disk) (files : Dict String)
    → is_nil (mismatched disk (members_of files)) ≡ true
    → All (Same disk) files
unfolding mismatched members_of
mismatched-Same disk [] h = tt
mismatched-Same disk ((path, digest) ∷ files) h =
    elim (Bool-cases (digest == digest_or_missing (disk.digest path))) [
      | inl same ↦ (ground arith, mismatched-Same disk files (rw same at h))
      | inr other ↦ cc (rw other at h)
    ]

Same-mismatched :
    (disk : Disk) (files : Dict String)
    → All (Same disk) files
    → is_nil (mismatched disk (members_of files)) ≡ true
unfolding mismatched members_of
Same-mismatched disk [] h = refl
Same-mismatched disk ((path, digest) ∷ files) (same, h) =
    rw (same, ==-refl digest) (Same-mismatched disk files h)

pin_checks_lem :
    (subject remote now : String) (files : Dict String) (disk : Disk)
    → disk.pin ≡ some (ok (pin_of subject remote now files))
    → pin_checks disk commit
      ≡ ok (
          ("chain_pin_commit", true)
          ∷ ("chain_pin_files", is_nil (mismatched disk (members_of files)))
          ∷ [])
unfolding pin_checks pin_of string_eq
pin_checks_lem subject remote now files disk h = ap (pin_checks_of disk commit) h ∙ refl

-- What `gen_pin.py` writes, where it returns: the pin of some files with their digests
generate-eq-ok :
    (subject remote now : String) (disk disk' : Disk)
    → generate subject remote now disk ≡ (ok 0, disk')
    → (files : Dict String) × (hash_files disk disk.listing [] ≡ ok files)
      × (disk'.pin ≡ some (ok (pin_of subject remote now files)))
unfolding generate
generate-eq-ok subject remote now disk disk' h = go (hash_files disk disk.listing []) refl h
  where
    go :
        (r : Call (Dict String))
        → hash_files disk disk.listing [] ≡ r
        → written subject remote now disk r ≡ (ok 0, disk')
        → (files : Dict String) × (hash_files disk disk.listing [] ≡ ok files)
          × (disk'.pin ≡ some (ok (pin_of subject remote now files)))
    go (ok files) e k = (files, e, ap (λ o. o.1.pin) (sym k))
    go (err x) e k = cc

-- After `gen_pin.py` has returned, the canary accepts the commit of its pin on any disk with that
-- pin, whatever has become of the files; and it accepts the files exactly if each that was hashed
-- still has the digest that it had then, where a file that cannot be read counts as one with the
-- digest `missing`. Every file that was listed was hashed, but for the pin itself.
pub generate-pin_checks :
    (subject remote now : String) (disk disk' other : Disk)
    → generate subject remote now disk ≡ (ok 0, disk')
    → other.pin ≡ disk'.pin
    → (files : Dict String) × (passed : Bool) × (hash_files disk disk.listing [] ≡ ok files)
      × All (λ entry. is_covered files entry ≡ true) disk.listing
      × All (Holds disk) files
      × (pin_checks other commit
          ≡ ok (("chain_pin_commit", true) ∷ ("chain_pin_files", passed) ∷ []))
      × ((passed ≡ true) ↔ All (Same other) files)
generate-pin_checks subject remote now disk disk' other h same =
    let (files, hashing, pinned) = generate-eq-ok subject remote now disk disk' h in
    (
      files,
      is_nil (mismatched other (members_of files)),
      hashing,
      (keys-hash_files disk disk.listing [] hashing).0,
      hash_files-Holds disk disk.listing [] hashing tt,
      pin_checks_lem subject remote now files other (same ∙ pinned),
      (mismatched-Same other files, Same-mismatched other files),
    )
