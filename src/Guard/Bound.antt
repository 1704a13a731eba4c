-- ===== src/Guard/Bound.antt =====
-- `max_dispatch_per_tick`. What its two `ValueError`s show is a value here.
use hermes_agent_runtime.Base.{
  ℕ, zero, suc, String, Option, none, some, ◌==◌, string_eq, if◌then◌else◌, ℤ, pos, negsuc,
}
use hermes_agent_runtime.Base.Dict.{Dict, lookup}
use hermes_agent_runtime.Base.Result.{Result, ok, err}
use hermes_agent_runtime.Base.Strip.{strip, int_of}

abbrev pub default_max_dispatch_per_tick : ℕ
default_max_dispatch_per_tick = 1

pub data BadBound : Type 0 where
  not_integer : String → BadBound
  below_one : ℤ → BadBound

abbrev pub at_least_one : String → Option ℤ → Result BadBound ℕ
at_least_one raw none = err (not_integer raw)
at_least_one raw (some (pos zero)) = err (below_one (pos zero))
at_least_one raw (some (pos (suc n))) = ok (suc n)
at_least_one raw (some (negsuc n)) = err (below_one (negsuc n))

abbrev pub bound_of : Option String → Result BadBound ℕ
bound_of none = ok default_max_dispatch_per_tick
bound_of (some raw) =
    if strip raw == ""
    then ok default_max_dispatch_per_tick
    else at_least_one raw (int_of (strip raw))

unfoldable pub max_dispatch_per_tick : Dict String → Result BadBound ℕ
unfolding lookup strip int_of
max_dispatch_per_tick env = bound_of (lookup "POLLER_MAX_DISPATCH_PER_TICK" env)
