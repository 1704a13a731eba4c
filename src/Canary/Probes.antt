-- ===== src/Canary/Probes.antt =====
-- What it means that the probe passes.
use hermes_agent_runtime.Base.{
  ℕ, zero, suc, ◌≡◌, ◌↔◌, refl, sym, ap, ◌∙◌, Bool, true, false, ◌&&◌, String, ◌<>◌, ◌==◌,
  string_eq, if◌then◌else◌, ℤ, pos, negsuc, all, arith, Bool-cases, inl, inr, ==-refl,
}
use hermes_agent_runtime.Base.Result.{ok, err, ◌>>=◌, >>=-eq-ok}
use hermes_agent_runtime.Base.Strip.{strip}
use hermes_agent_runtime.Base.Text.{starts_with, starts_with-append_lem}
use hermes_agent_runtime.Runtime.Exceptions.{Call, is_exception, type_name}
use hermes_agent_runtime.Canary.Probe.{
  Probed, chain_sha_expected, probed_modules, wanted_symbols, commit_text, shown, commit_of,
  chain_commit, all_symbols, or_false, board_read, probe,
}

-- What the interpreter must have
pub record IsComplete (seen : Probed) : Type 0 where
  pub modules : all seen.imports probed_modules ≡ true
  pub output : String
  pub git : seen.git ≡ ok (pos 0, output)
  pub commit : strip output ≡ chain_sha_expected
  pub symbols : all_symbols seen.attributes wanted_symbols ≡ ok true
  pub total : ℕ
  pub board : seen.board ≡ ok total

-- What a failure of `git` shows is no commit.
prefixed-ne :
    (prefix s : String)
    → starts_with chain_sha_expected prefix ≡ false
    → ((prefix <> s) == chain_sha_expected) ≡ false
prefixed-ne prefix s h = elim (Bool-cases ((prefix <> s) == chain_sha_expected)) [
  | inr other ↦ other
  | inl same ↦
      let e : prefix <> s ≡ chain_sha_expected = ground arith in
      let bad = sym (starts_with-append_lem prefix s) ∙ ap (λ t. starts_with t prefix) e ∙ h in cc
]

rc-ne : starts_with chain_sha_expected "rc=" ≡ false
unfolding starts_with
rc-ne = refl

err-ne : starts_with chain_sha_expected "ERR:" ≡ false
unfolding starts_with
err-ne = refl

git-expected :
    (git : Call (ℤ × String)) (commit : String)
    → commit_of git ≡ ok commit
    → (commit == chain_sha_expected) ≡ true
    → (output : String) × (git ≡ ok (pos 0, output)) × (strip output ≡ chain_sha_expected)
git-expected (ok (pos zero, output)) commit h e =
    let same : commit ≡ strip output = cc in (output, refl, ground arith)
git-expected (ok (pos (suc n), output)) commit h e =
    let same : commit ≡ commit_text (pos (suc n)) output = cc in
    let bad = prefixed-ne "rc=" (shown (pos (suc n))) rc-ne in cc
git-expected (ok (negsuc n, output)) commit h e =
    let same : commit ≡ commit_text (negsuc n) output = cc in
    let bad = prefixed-ne "rc=" (shown (negsuc n)) rc-ne in cc
git-expected (err x) commit h e = go (is_exception x) h
  where
    go :
        (b : Bool)
        → (if b then ok ("ERR:" <> type_name x) else err x) ≡ ok commit
        → (output : String) × (◌≡◌ {A = Call (ℤ × String)} (err x) (ok (pos 0, output)))
          × (strip output ≡ chain_sha_expected)
    go true k =
        let same : commit ≡ "ERR:" <> type_name x = cc in
        let bad = prefixed-ne "ERR:" (type_name x) err-ne in cc
    go false k = cc

or_false-true : (r : Call Bool) → or_false r ≡ ok true → r ≡ ok true
or_false-true (ok b) h = h
or_false-true (err e) h = go (is_exception e) h
  where
    go : (b : Bool) → (if b then ok false else err e) ≡ ok true → err e ≡ ok true
    go true k = cc
    go false k = cc

board_read-true : (r : Call ℕ) → board_read r ≡ ok true → (total : ℕ) × (r ≡ ok total)
board_read-true (ok total) h = (total, refl)
board_read-true (err e) h = let bad = or_false-true (err e) h in cc

exit-zero : (b : Bool) → ◌≡◌ {A = Call ℕ} (ok (if b then 0 else 1)) (ok 0) → b ≡ true
exit-zero true h = refl
exit-zero false h = cc

four_true :
    (a b c d : Bool)
    → (a && (b && (c && d))) ≡ true
    → (a ≡ true) × (b ≡ true) × (c ≡ true) × (d ≡ true)
four_true true true true true h = (refl, refl, refl, refl)
four_true false b c d h = cc
four_true true false c d h = cc
four_true true true false d h = cc
four_true true true true false h = cc

probe-IsComplete : (seen : Probed) → probe seen ≡ ok 0 → IsComplete seen
unfolding probe chain_commit
probe-IsComplete seen h =
    let symbols_of = or_false (all_symbols seen.attributes wanted_symbols) in
    let verdict = λ (commit : String) (symbols board : Bool). ok (
      if all seen.imports probed_modules && (commit == chain_sha_expected && (symbols && board))
      then 0
      else 1) in
    let (commit, asked, h₁) =
      >>=-eq-ok (chain_commit seen.git)
        (λ commit. symbols_of >>= λ symbols. board_read seen.board >>= verdict commit symbols) h in
    let (symbols, found, h₂) =
      >>=-eq-ok symbols_of (λ symbols. board_read seen.board >>= verdict commit symbols) h₁ in
    let (board, read, h₃) = >>=-eq-ok (board_read seen.board) (verdict commit symbols) h₂ in
    let (modules, same_commit, has_symbols, has_board) =
      four_true (all seen.imports probed_modules) (commit == chain_sha_expected) symbols board (
        exit-zero
          (all seen.imports probed_modules && (commit == chain_sha_expected && (symbols && board)))
          h₃) in
    let (output, ran, expected) = git-expected seen.git commit asked same_commit in
    let (total, counted) = board_read-true seen.board (rw has_board at read) in
    record {
      modules = modules;
      output = output;
      git = ran;
      commit = expected;
      symbols =
          or_false-true (all_symbols seen.attributes wanted_symbols) (rw has_symbols at found);
      total = total;
      board = counted;
    }

IsComplete-probe : (seen : Probed) → IsComplete seen → probe seen ≡ ok 0
unfolding probe chain_commit
IsComplete-probe seen c =
    rw (c.git, c.commit, c.symbols, c.board, c.modules, ==-refl chain_sha_expected) refl

-- The probe exits with 0 exactly if all its modules can be imported, `git` has succeeded and shows the
-- expected commit, every name that is wanted is there, and the board is read.
pub probe_iff : (seen : Probed) → (probe seen ≡ ok 0) ↔ IsComplete seen
probe_iff seen = (probe-IsComplete seen, IsComplete-probe seen)
