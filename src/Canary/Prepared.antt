-- ===== src/Canary/Prepared.antt =====
-- What it means that the canary passes.
use hermes_agent_runtime.Base.{
  ℕ, ◌<◌, ◌≡◌, refl, ap, ◌∙◌, Bool, true, false, String, ◌<>◌, some, List, [], ◌∷◌, ◌++◌, map,
  string_eq, if◌then◌else◌, all, All, arith, ℤ, pos,
}
use hermes_agent_runtime.Base.Dict.{lookup}
use hermes_agent_runtime.Base.Result.{ok, err, ◌>>=◌}
use hermes_agent_runtime.Runtime.Exceptions.{Call}
use hermes_agent_runtime.Env.Process.{get_or, env_file_path}
use hermes_agent_runtime.Canary.Pin.{Check, pin_checks}
use hermes_agent_runtime.Canary.Secrets.{SecretFile, secret_checks}
use hermes_agent_runtime.Canary.Checks.{
  is_zero, Seen, default_pin, expected_home, imported, unit_files, interpreter_checks, read_board,
  suite_check, unit_checks, network_checks, joined, checks, exit_code, main,
}
use hermes_agent_runtime.Canary.Verdict.{
  passed, passes, IsSecret, passed-split, all-All, board-passes, secrets-passes, pins-passes,
  is_zero-pos, suite-passes, labelled-passed,
}

-- What the unit of the poller needs
pub record IsPrepared (seen : Seen) : Type 0 where
  pub home : get_or (lookup "HERMES_HOME" seen.environ) "" ≡ expected_home
  pub modules : All (λ name. seen.imports name ≡ true) imported
  pub pinned :
      pin_checks seen.disk (get_or (lookup "CHAIN_PIN" seen.environ) default_pin)
      ≡ ok (("chain_pin_commit", true) ∷ ("chain_pin_files", true) ∷ [])
  pub board : (found : String × ℕ) × (seen.board ≡ ok found) × (0 < found.1)
  pub tested : seen.suite ≡ some (pos 0)
  pub units : All (λ unit. seen.is_file unit.0 ≡ true) unit_files
  pub verified : seen.verify ≡ pos 0
  pub secrets :
      (file : SecretFile) × (seen.secrets (env_file_path seen.environ) ≡ some file) × IsSecret file

verify-passed :
    (n : ℤ) (b : Bool)
    → b ≡ true
    → passed (if b then ("systemd_analyze_verify", is_zero n) ∷ [] else []) ≡ true
    → n ≡ pos 0
unfolding all
verify-passed n true e k = is_zero-pos n (ground arith)
verify-passed n false e k = cc

units-passed :
    (seen : Seen)
    → passed (unit_checks seen) ≡ true
    → All (λ unit. seen.is_file unit.0 ≡ true) unit_files × (seen.verify ≡ pos 0)
unfolding unit_checks
units-passed seen h =
    let there = all (λ unit. seen.is_file unit.0) unit_files in
    let (present, last) =
      passed-split
        (map (λ unit. ("unit_file_present[" <> unit.1 <> "]", seen.is_file unit.0)) unit_files)
        (if there then ("systemd_analyze_verify", is_zero seen.verify) ∷ [] else []) h in
    let here = labelled-passed seen.is_file unit_files present in
    (
      all-All (λ unit. seen.is_file unit.0) unit_files here,
      verify-passed seen.verify there here last,
    )

-- The first of some checks, and the others
first-passed :
    (c : Check) (cs : List Check) → passed (c ∷ cs) ≡ true → (c.1 ≡ true) × (passed cs ≡ true)
unfolding all
first-passed c cs h = (ground arith, ground arith)

home-passed :
    (seen : Seen)
    → passed (interpreter_checks seen) ≡ true
    → get_or (lookup "HERMES_HOME" seen.environ) "" ≡ expected_home
unfolding interpreter_checks all
home-passed seen h = ground arith

exit_code-zero :
    (r : Call (List Check))
    → exit_code r ≡ ok 0
    → (cs : List Check) × (r ≡ ok cs) × (passed cs ≡ true)
exit_code-zero (err e) h = cc
exit_code-zero (ok cs) h = (cs, refl, go (passed cs) h)
  where
    go : (b : Bool) → ◌≡◌ {A = Call ℕ} (ok (if b then 0 else 1)) (ok 0) → b ≡ true
    go true k = refl
    go false k = cc

-- The parts that may raise have all returned.
parts-eq-ok :
    (p b s n : Call (List Check))
    (join : List Check → List Check → List Check → List Check → List Check) {cs : List Check}
    → (p >>= λ pins.
        b >>= λ boards. s >>= λ secrets. n >>= λ network. ok (join pins boards secrets network))
      ≡ ok cs
    → (pins boards secrets network : List Check) × ((p ≡ ok pins)
        × (b ≡ ok boards)
        × (s ≡ ok secrets)
        × (cs ≡ join pins boards secrets network))
parts-eq-ok (ok pins) (ok boards) (ok secrets) (ok network) join h =
    (pins, boards, secrets, network, (refl, refl, refl, cc))
parts-eq-ok (ok pins) (ok boards) (ok secrets) (err e) join h = cc
parts-eq-ok (ok pins) (ok boards) (err e) n join h = cc
parts-eq-ok (ok pins) (err e) s n join h = cc
parts-eq-ok (err e) b s n join h = cc

-- If the canary exits with 0, the process has the expected home; every module of the chain can be
-- imported; the two checks of the pin pass; the board has
-- a task; the tests of the chain and `systemd-analyze` have succeeded and the unit files are there; and
-- the file of settings is private and names every setting that is required, though one may be empty.
pub main-IsPrepared : (seen : Seen) → main seen ≡ ok 0 → IsPrepared seen
unfolding main checks
main-IsPrepared seen h =
    let (cs, checked, all_passed) = exit_code-zero (checks seen) h in
    let chain_pin = get_or (lookup "CHAIN_PIN" seen.environ) default_pin in
    let file = seen.secrets (env_file_path seen.environ) in
    let (pins, boards, secrets, network, (p, b, s, same)) =
      parts-eq-ok (pin_checks seen.disk chain_pin) (read_board seen.board) (secret_checks file)
        (network_checks seen) (joined seen) checked in
    let units = unit_checks seen in
    let after_suite = units ++ (secrets ++ network) in
    let after_boards = suite_check seen.suite ∷ after_suite in
    let after_imports = boards ++ after_boards in
    let after_pins = ("imports", all seen.imports imported) ∷ after_imports in
    let (home, h₁) =
      passed-split (interpreter_checks seen) (pins ++ after_pins) (rw same at all_passed) in
    let (pinned, h₂) = passed-split pins after_pins h₁ in
    let (modules, h₃) = first-passed ("imports", all seen.imports imported) after_imports h₂ in
    let (board, h₄) = passed-split boards after_boards h₃ in
    let (suite, h₅) = first-passed (suite_check seen.suite) after_suite h₄ in
    let (unit, h₆) = passed-split units (secrets ++ network) h₅ in
    let (secret, h₇) = passed-split secrets network h₆ in
    let (there, verified) = units-passed seen unit in
    record {
      home = home-passed seen home;
      modules = all-All seen.imports imported modules;
      pinned = pins-passes seen.disk chain_pin (ap passes p ∙ pinned);
      board = board-passes seen.board (ap passes b ∙ board);
      tested = suite-passes seen.suite suite;
      units = there;
      verified = verified;
      secrets = secrets-passes file (ap passes s ∙ secret);
    }
