-- ===== src/Runtime/Completion/Stored.antt =====
-- The events that are stored of those of a result.
use hermes_agent_runtime.Base.{
  ◌≡◌, true, false, List, [], ◌∷◌, contains, Bool-cases, inl, inr, if◌then◌else◌, String,
}
use hermes_agent_runtime.Base.Result.{ok, err, ◌>>=◌, >>=-eq-ok}
use hermes_agent_runtime.Payloads.Value.{Payload}
use hermes_agent_runtime.Payloads.Validate.{Checked}
use hermes_agent_runtime.Payloads.Event.{mapping, validate_event_payload}
use hermes_agent_runtime.Runtime.Exceptions.{Event}
use hermes_agent_runtime.Runtime.Events.{Key, key_eq, event_key, checked, normalize_events}

-- The events in their order, each with the payload that the contract makes of its own, and without
-- those whose key is in `seen` or came before.
pub data Kept : List Key → List Event → List Event → Type 0 where
  none_left : (seen : List Key) → Kept seen [] []
  kept :
      {seen : List Key} {events stored : List Event} (kind : String) (payload normalized : Payload)
      → validate_event_payload kind (mapping payload) ≡ ok normalized
      → contains seen (event_key kind normalized) ≡ false
      → Kept (event_key kind normalized ∷ seen) events stored
      → Kept seen ((kind, payload) ∷ events) ((kind, normalized) ∷ stored)
  repeated :
      {seen : List Key} {events stored : List Event} (kind : String) (payload normalized : Payload)
      → validate_event_payload kind (mapping payload) ≡ ok normalized
      → contains seen (event_key kind normalized) ≡ true
      → Kept seen events stored
      → Kept seen ((kind, payload) ∷ events) stored

checked-eq-ok : {A : Type 0} (r : Checked A) {a : A} → checked r ≡ ok a → r ≡ ok a
checked-eq-ok (ok a) h = cc
checked-eq-ok (err f) h = cc

pub normalize_events-Kept :
    (seen : List Key) (events : List Event) {stored : List Event}
    → normalize_events seen events ≡ ok stored
    → Kept seen events stored
unfolding normalize_events
normalize_events-Kept seen [] {stored} h = let e : stored ≡ [] = cc in rw e (none_left seen)
normalize_events-Kept seen ((kind, payload) ∷ events) {stored} h =
    let skip = normalize_events seen events in
    let keep = λ (p : Payload).
      (normalize_events (event_key kind p ∷ seen) events >>= λ (rest : List Event).
      ok ((kind, p) ∷ rest)) in
    let (normalized, valid, taken) =
      >>=-eq-ok (checked (validate_event_payload kind (mapping payload)))
        (λ (p : Payload). if contains seen (event_key kind p) then skip else keep p) h in
    let accepted = checked-eq-ok (validate_event_payload kind (mapping payload)) valid in
    elim (Bool-cases (contains seen (event_key kind normalized))) [
      | inl old ↦
          let later : skip ≡ ok stored = rw old at taken in
          repeated kind payload normalized accepted old (normalize_events-Kept seen events later)
      | inr new ↦
          let later : keep normalized ≡ ok stored = rw new at taken in
          let (rest, others, last) =
            >>=-eq-ok (normalize_events (event_key kind normalized ∷ seen) events)
              (λ (rest : List Event). ok ((kind, normalized) ∷ rest)) later in
          let e : stored ≡ (kind, normalized) ∷ rest = cc in
          rw e (
            kept kind payload normalized accepted new
              (normalize_events-Kept (event_key kind normalized ∷ seen) events others))
    ]
