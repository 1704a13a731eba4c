-- ===== src/Tests/Servers.antt =====
-- A server that counts its requests and always answers `false`.
use hermes_agent_runtime.Base.{ℕ, ◌+◌, ◌≡◌, ◌≢◌, refl, true, false, some, [], ◌∷◌, string_eq}
use hermes_agent_runtime.Base.Result.{ok, err}
use hermes_agent_runtime.Payloads.Value.{bool, text}
use hermes_agent_runtime.Runtime.Exceptions.{Exception}
use hermes_agent_runtime.Runtime.Labels.{classify_issue}
use hermes_agent_runtime.Runtime.Machine.{Request}
use hermes_agent_runtime.Runtime.Execute.{execute}
use hermes_agent_runtime.Supabase.Http.{SupabaseStore, Urlopen, Answer, Field, post}
use hermes_agent_runtime.Base.{String}
use hermes_agent_runtime.Base.Dict.{Dict}
use hermes_agent_runtime.Supabase.Store.{event}
use hermes_agent_runtime.Supabase.Laws.{Sends, runtime, event-Sends, execute-unlocked}
use hermes_agent_runtime.Tests.World.{
  silent, backend_issue, backend_class, backend_context, good_work, fresh,
}

abbrev busy : Urlopen ℕ
busy request n = (Answer.body (some (bool false)), n + 1)

abbrev project : SupabaseStore
project = record { url = "https://x.y"; service_key = "k"; timeout = 15 }

event-Sends_example :
    Sends busy project backend_context "lock.released"
      (("finished_status", text "done") ∷ [])
      0
      (event busy project backend_context "lock.released" (("finished_status", text "done") ∷ []) 0)
event-Sends_example =
    event-Sends busy project backend_context "lock.released" (("finished_status", text "done") ∷ [])
      0

refuses :
    (path : String) (fields : Dict Field) (n : ℕ)
    → (post busy project path fields n).0 ≢ ok (bool true)
unfolding post
refuses path fields n h = cc

backend_classified : classify_issue backend_issue ≡ ok backend_class
unfolding classify_issue string_eq
backend_classified = refl

execute-unlocked_example :
    let (r, m') = execute (runtime busy project 120 30) silent good_work 5 7 backend_issue fresh in
    (e : Exception) × (r ≡ err e) × (m'.log ≡ Request.claim backend_context 120 ∷ [])
execute-unlocked_example =
    execute-unlocked busy project 120 30 silent good_work 5 7 backend_issue fresh backend_classified
      refl (refuses _ _ _)
