-- ===== src/Tick/Bounds.antt =====
-- The bound that the tick gives the guard.
use hermes_agent_runtime.Base.{
  ℕ, zero, suc, ◌<◌, ◌≡◌, refl, Bool, true, false, String, Option, none, some, List, if◌then◌else◌,
  arith, pos, negsuc, ℤ, ◌==◌, string_eq, take, select,
}
use hermes_agent_runtime.Base.Strip.{strip, int_of}
use hermes_agent_runtime.Base.Dict.{Dict, lookup}
use hermes_agent_runtime.Base.Result.{Result, ok, err}
use hermes_agent_runtime.Chain.Selector.{LinearIssueSnapshot}
use hermes_agent_runtime.Guard.Bound.{
  BadBound, default_max_dispatch_per_tick, bound_of, at_least_one, max_dispatch_per_tick,
}
use hermes_agent_runtime.Guard.Select.{GuardOutcome, select_with_guard}
use hermes_agent_runtime.Guard.Laws.{passes, select_with_guard_lem}
use hermes_agent_runtime.Tick.Issues.{resolve_bound, or_one}

or_one-pos : (r : Result BadBound ℕ) → ((n : ℕ) → r ≡ ok n → 0 < n) → 0 < or_one r
or_one-pos (ok n) h = h n refl
or_one-pos (err e) h = omega arith

at_least_one-pos : (raw : String) (o : Option ℤ) (n : ℕ) → at_least_one raw o ≡ ok n → 0 < n
at_least_one-pos raw none n h = cc
at_least_one-pos raw (some (pos zero)) n h = cc
at_least_one-pos raw (some (pos (suc k))) n h = let e : n ≡ suc k = cc in rw e (omega arith)
at_least_one-pos raw (some (negsuc k)) n h = cc

bound_of-pos : (o : Option String) (n : ℕ) → bound_of o ≡ ok n → 0 < n
bound_of-pos none n h = let e : n ≡ 1 = cc in rw e (omega arith)
bound_of-pos (some raw) n h = go (strip raw == "") h
  where
    go :
        (b : Bool)
        → (if b then ok default_max_dispatch_per_tick else at_least_one raw (int_of (strip raw)))
          ≡ ok n
        → 0 < n
    go true k = let e : n ≡ 1 = cc in rw e (omega arith)
    go false k = at_least_one-pos raw (int_of (strip raw)) n k

resolve_bound-pos : (environ : Dict String) → 0 < resolve_bound environ
unfolding resolve_bound max_dispatch_per_tick
resolve_bound-pos environ =
    or_one-pos (max_dispatch_per_tick environ)
      (bound_of-pos (lookup "POLLER_MAX_DISPATCH_PER_TICK" environ))

-- Whatever stands in `POLLER_MAX_DISPATCH_PER_TICK`, the bound of the tick is positive, and the guard
-- accepts it: it never raises, and it dispatches the first snapshots that pass.
pub resolve_bound-select :
    (environ : Dict String) (snapshots : List LinearIssueSnapshot) (existing : List String)
    → (outcome : GuardOutcome) × (select_with_guard snapshots existing (resolve_bound environ)
        ≡ ok outcome)
      × (0 < resolve_bound environ)
      × (outcome.dispatched ≡ take (resolve_bound environ) (select (passes existing) snapshots))
resolve_bound-select environ snapshots existing =
    let positive = resolve_bound-pos environ in
    (_, select_with_guard_lem snapshots existing (resolve_bound environ) positive, positive, refl)
