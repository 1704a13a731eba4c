-- ===== src/Chain/Laws.antt =====
-- `LinearIssuePoller.poll` returns the issues that `classify_issue` accepts.
use hermes_agent_runtime.Base.{◌≡◌, refl, sym, Bool, true, false, not, List, [], ◌∷◌, map, select}
use hermes_agent_runtime.Base.{if◌then◌else◌, ◌==◌, string_eq}
use hermes_agent_runtime.Base.Result.{ok, err}
use hermes_agent_runtime.Runtime.Exceptions.{
  Call, run_conflict, execution_blocked, execution_event_error, error, interrupt,
}
use hermes_agent_runtime.Runtime.Labels.{Issue, Classification, classify_issue}
use hermes_agent_runtime.Runtime.Machine.{Machine, M, pure, lift, ◌>>=◌, ◌>>◌}
use hermes_agent_runtime.Chain.Selector.{
  LinearIssueSnapshot, SelectionDecision, blocked, ignored, is_eligible, select_issue, issue_of,
  decided, refusal, acceptance,
}
use hermes_agent_runtime.Chain.Poller.{Recorder, poll_issues, keep, record_if_blocked}

abbrev is_ok : {A : Type 0} → Call A → Bool
is_ok (ok _) = true
is_ok (err _) = false

-- The snapshot's issue has a classification.
abbrev pub is_runnable : LinearIssueSnapshot → Bool
is_runnable s = is_ok (classify_issue (issue_of s))

pub >>=-ok :
    {W A B : Type 0} (x : M W A) (f : A → M W B) (m : Machine W) {b : B}
    → ((x >>= f) m).0 ≡ ok b
    → (a : A) × ((x m).0 ≡ ok a) × ((f a (x m).1).0 ≡ ok b)
>>=-ok {W} {A} {B} x f m {b} h = go (x m).0 refl h
  where
    go :
        (r : Call A)
        → (x m).0 ≡ r
        → (elim r as (λ _. Call B × Machine W) [ ok a ↦ f a (x m).1 | err e ↦ (err e, (x m).1) ]).0
          ≡ ok b
        → (a : A) × ((x m).0 ≡ ok a) × ((f a (x m).1).0 ≡ ok b)
    go (ok a) e k = (a, e, k)
    go (err x') e k = cc

not_todo : (issue : Issue) → (issue.status == "Todo") ≡ false → is_ok (classify_issue issue) ≡ false
unfolding classify_issue
not_todo issue h = rw h refl

decided-eq-ok :
    (issue : Issue) (r : Call Classification) (d : SelectionDecision)
    → decided issue r ≡ ok d
    → (is_eligible d ≡ is_ok r) × (d.issue ≡ issue)
decided-eq-ok issue (ok c) d h = let e : d ≡ acceptance issue c = cc in rw e (refl, refl)
decided-eq-ok issue (err (execution_blocked message)) d h =
    let e : d ≡ refusal issue blocked message = cc in rw e (refl, refl)
decided-eq-ok issue (err (run_conflict _)) d h = cc
decided-eq-ok issue (err (execution_event_error _ _)) d h = cc
decided-eq-ok issue (err (error _ _)) d h = cc
decided-eq-ok issue (err (interrupt _)) d h = cc

chosen-eq-ok :
    (b : Bool) (issue : Issue) (r : Call Classification) (d : SelectionDecision)
    → (b ≡ false → is_ok r ≡ false)
    → (if not b
        then ok (refusal issue ignored "Only Todo issues are candidates")
        else decided issue r)
      ≡ ok d
    → (is_eligible d ≡ is_ok r) × (d.issue ≡ issue)
chosen-eq-ok true issue r d fails h = decided-eq-ok issue r d h
chosen-eq-ok false issue r d fails h =
    let e : d ≡ refusal issue ignored "Only Todo issues are candidates" = cc in
    rw e (sym (fails refl), refl)

select_issue-eq-ok :
    (s : LinearIssueSnapshot) (d : SelectionDecision)
    → select_issue s ≡ ok d
    → (is_eligible d ≡ is_runnable s) × (d.issue ≡ issue_of s)
unfolding select_issue
select_issue-eq-ok s d h =
    chosen-eq-ok (s.status == "Todo") (issue_of s) (classify_issue (issue_of s)) d
      (not_todo (issue_of s)) h

map-keep :
    (d : SelectionDecision) (s : LinearIssueSnapshot) (ds : List SelectionDecision)
    (rest : List LinearIssueSnapshot)
    → is_eligible d ≡ is_runnable s
    → d.issue ≡ issue_of s
    → map (λ d'. d'.issue) ds ≡ map issue_of rest
    → map (λ d'. d'.issue) (if is_eligible d then d ∷ ds else ds)
      ≡ map issue_of (if is_runnable s then s ∷ rest else rest)
map-keep d s ds rest same issue h = rw same (go (is_runnable s))
  where
    go :
        (b : Bool)
        → map (λ d'. d'.issue) (if b then d ∷ ds else ds)
          ≡ map issue_of (if b then s ∷ rest else rest)
    go true = rw (issue, h) refl
    go false = h

-- Where the poller returns, the issues of its decisions are those of the snapshots that
-- `classify_issue` accepts, in the order in which they were read; the recorder of blocked issues
-- changes nothing in that.
pub poll_issues-select :
    {W : Type 0} (record_blocked : Recorder W) (snapshots : List LinearIssueSnapshot)
    (m : Machine W) (decisions : List SelectionDecision)
    → (poll_issues record_blocked snapshots m).0 ≡ ok decisions
    → map (λ d. d.issue) decisions ≡ map issue_of (select is_runnable snapshots)
unfolding poll_issues select
poll_issues-select record_blocked [] m decisions h = let e : decisions ≡ [] = cc in rw e refl
poll_issues-select {W} record_blocked (s ∷ snapshots) m decisions h =
    let add : SelectionDecision → List SelectionDecision → M W (List SelectionDecision) =
      λ d rest. pure (keep record_blocked d rest) in
    let go_on : SelectionDecision → M W (List SelectionDecision) =
      λ d. poll_issues record_blocked snapshots >>= add d in
    let (d, chosen, noted) =
      >>=-ok (lift (select_issue s)) (λ d. record_if_blocked record_blocked d >> go_on d) m h in
    let later = (record_if_blocked record_blocked d m).1 in
    let (u, recorded, gone_on) =
      >>=-ok (record_if_blocked record_blocked d) (λ _. go_on d) m noted in
    let (rest, polled, added) =
      >>=-ok (poll_issues record_blocked snapshots) (add d) later gone_on in
    let (same, issue) = select_issue-eq-ok s d chosen in
    let kept =
      map-keep d s rest _ same issue
        (poll_issues-select record_blocked snapshots later rest polled) in
    let e : decisions ≡ keep record_blocked d rest = cc in rw e kept
