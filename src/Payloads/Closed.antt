-- ===== src/Payloads/Closed.antt =====
-- What the contract lets through: a payload that it would let through again, unchanged.
use hermes_agent_runtime.Base.{
  ◌≡◌, ◌⊎◌, refl, ◌∙◌, sym, ap, subst, false, List, [], ◌∷◌, ◌++◌, String, ◌<>◌, Option, none, some,
}
use hermes_agent_runtime.Base.{string_eq, ◌==◌, arith, Bool-cases, inl, inr}
use hermes_agent_runtime.Base.Dict.{keys, lookup}
use hermes_agent_runtime.Base.Result.{ok, err, ◌>>=◌, raise_if, >>=-eq-ok, raise_if-eq-ok}
use hermes_agent_runtime.Payloads.Value.{Value, Payload, text}
use hermes_agent_runtime.Payloads.Contract.{event_fields}
use hermes_agent_runtime.Payloads.Validate.{invalid, validate_value, holds_secret, check_text}
use hermes_agent_runtime.Payloads.Event.{
  Argument, mapping, candidate_of, outside, refuse_names, normalize, check_dispatched,
  validate_fields, validate_event_payload,
}
use hermes_agent_runtime.Payloads.Normal.{
  Unit-eq, refuse_names-eq-ok, refuse_names-nil, normalize-kept-eq-ok, null_or_kept, normalize-null,
  normalize-again, outside-normalize,
}

-- The four checks of a payload that is accepted
validate_fields-eq-ok :
    (event_type : String) (required optional : List String) (fields : Payload) {p : Payload}
    → validate_fields event_type required optional fields ≡ ok p
    → (outside (required ++ optional) (keys fields) ≡ [])
      × (normalize event_type fields ≡ ok p)
      × (outside (keys p) required ≡ [])
      × (check_dispatched event_type p ≡ ok tt)
unfolding validate_fields
validate_fields-eq-ok event_type required optional fields {p} h =
    let (u, named, rest) =
      >>=-eq-ok
        (refuse_names "Unsupported payload fields" event_type
          (outside (required ++ optional) (keys fields)))
        _ h in
    let (q, normal, rest') = >>=-eq-ok (normalize event_type fields) _ rest in
    let (u', full, rest'') =
      >>=-eq-ok (refuse_names "Missing payload fields" event_type (outside (keys q) required)) _
        rest' in
    let (u'', dispatched, same) = >>=-eq-ok (check_dispatched event_type q) _ rest'' in
    let e : q ≡ p = cc in
    (
      refuse_names-eq-ok "Unsupported payload fields" event_type _ named,
      subst (λ r. normalize event_type fields ≡ ok r) e normal,
      subst (λ r. outside (keys r) required ≡ []) e
          (refuse_names-eq-ok "Missing payload fields" event_type _ full),
      subst (λ r. check_dispatched event_type r ≡ ok tt) e (dispatched ∙ ap ok (Unit-eq u'')),
    )

validate_fields-again :
    (event_type : String) (required optional : List String) (fields : Payload) {p : Payload}
    → validate_fields event_type required optional fields ≡ ok p
    → validate_fields event_type required optional p ≡ ok p
unfolding validate_fields
validate_fields-again event_type required optional fields {p} h =
    let (named, normal, full, dispatched) =
      validate_fields-eq-ok event_type required optional fields h in
    let still = outside-normalize (required ++ optional) event_type fields normal named in
    rw
      (
        refuse_names-nil "Unsupported payload fields" event_type _ still,
        normalize-again event_type fields normal,
        refuse_names-nil "Missing payload fields" event_type _ full,
        dispatched,
      )
      refl

-- A payload that was accepted is accepted again and comes back unchanged.
pub validate_event_payload-again :
    (event_type : String) (argument : Argument) (p : Payload)
    → validate_event_payload event_type argument ≡ ok p
    → validate_event_payload event_type (mapping p) ≡ ok p
unfolding validate_event_payload candidate_of
validate_event_payload-again event_type argument p h = go (event_fields event_type) h
  where
    go :
        (table : Option (List String × List String))
        → elim table [
          | none ↦ err (invalid ("Unknown event type: " <> event_type))
          | some (required, optional) ↦ do
            candidate ← candidate_of argument
            validate_fields event_type required optional candidate
        ]
          ≡ ok p
        → elim table [
          | none ↦ err (invalid ("Unknown event type: " <> event_type))
          | some (required, optional) ↦ do
            candidate ← candidate_of (mapping p)
            validate_fields event_type required optional candidate
        ]
          ≡ ok p
    go none k = cc
    go (some (required, optional)) k =
        let (fields, e, valid) = >>=-eq-ok (candidate_of argument) _ k in
        validate_fields-again event_type required optional fields valid

lookup-cons_cases :
    (key name : String) (first value : Value) (q : Payload)
    → lookup key ((name, first) ∷ q) ≡ some value
    → ((name ≡ key) × (first ≡ value)) ⊎ (lookup key q ≡ some value)
unfolding lookup
lookup-cons_cases key name first value q found = elim (Bool-cases (key == name)) [
  | inl same ↦ inl (ground arith, let e = rw same at found in cc)
  | inr other ↦ inr (rw other at found)
]

lookup-nil : (key : String) {value : Value} → lookup key [] ≡ some value → ⊥
unfolding lookup
lookup-nil key h = cc

-- The values that are kept have passed their checks.
validate_value_of_lookup :
    (event_type : String) (fields : Payload) {p : Payload} (key : String) (value : Value)
    → normalize event_type fields ≡ ok p
    → lookup key p ≡ some value
    → validate_value event_type key value ≡ ok tt
unfolding normalize
validate_value_of_lookup event_type [] {p} key value h found =
    let e : p ≡ [] = cc in elim (lookup-nil key (rw e at found)) [ ]
validate_value_of_lookup event_type ((name, first) ∷ fields) {p} key value h found =
    elim (null_or_kept first) [
      | inl gone ↦
          validate_value_of_lookup event_type fields key value
            (sym (normalize-null event_type name first fields gone) ∙ h) found
      | inr here ↦
          let (valid, q, e, same) = normalize-kept-eq-ok event_type name first fields here h in
          elim (lookup-cons_cases key name first value q (rw same at found)) [
            | inl (k, v) ↦ rw (sym k, sym v) valid
            | inr later ↦ validate_value_of_lookup event_type fields key value e later
          ]
    ]

validate_value-text :
    (event_type key s : String)
    → validate_value event_type key (text s) ≡ ok tt
    → ((s == "") ≡ false) × (holds_secret s ≡ false)
unfolding validate_value check_text
validate_value-text event_type key s h =
    let (u, checked, rest) = >>=-eq-ok (check_text key (text s)) _ h in
    let (u', filled, open_text) = >>=-eq-ok (raise_if (s == "") _) _ checked in
    (raise_if-eq-ok (s == "") _ filled, raise_if-eq-ok (holds_secret s) _ open_text)

-- The contract of the event type, and the fields of an accepted payload
accepted-normalize :
    (event_type : String) (argument : Argument) (p : Payload)
    → validate_event_payload event_type argument ≡ ok p
    → (required : List String) × (optional : List String) × (event_fields event_type
        ≡ some (required, optional))
      × (validate_fields event_type required optional p ≡ ok p)
unfolding validate_event_payload candidate_of
accepted-normalize event_type argument p h =
    go (event_fields event_type) refl (validate_event_payload-again event_type argument p h)
  where
    go :
        (table : Option (List String × List String))
        → event_fields event_type ≡ table
        → elim table [
          | none ↦ err (invalid ("Unknown event type: " <> event_type))
          | some (required, optional) ↦ do
            candidate ← candidate_of (mapping p)
            validate_fields event_type required optional candidate
        ]
          ≡ ok p
        → (required : List String) × (optional : List String) × (event_fields event_type
            ≡ some (required, optional))
          × (validate_fields event_type required optional p ≡ ok p)
    go none e k = cc
    go (some (required, optional)) e k = (required, optional, e, k)

-- A payload that is accepted is one of a known event type, has no field that its contract does
-- not name, and has every field that the contract requires.
pub validate_event_payload-fields :
    (event_type : String) (argument : Argument) (p : Payload)
    → validate_event_payload event_type argument ≡ ok p
    → (required : List String) × (optional : List String) × (event_fields event_type
        ≡ some (required, optional))
      × (outside (required ++ optional) (keys p) ≡ [])
      × (outside (keys p) required ≡ [])
validate_event_payload-fields event_type argument p h =
    let (required, optional, e, valid) = accepted-normalize event_type argument p h in
    let (named, normal, full, dispatched) =
      validate_fields-eq-ok event_type required optional p valid in
    (required, optional, e, named, full)

-- A text in an accepted payload is not empty and holds none of the secret words.
pub validate_event_payload-text :
    (event_type : String) (argument : Argument) (p : Payload) (key s : String)
    → validate_event_payload event_type argument ≡ ok p
    → lookup key p ≡ some (text s)
    → ((s == "") ≡ false) × (holds_secret s ≡ false)
validate_event_payload-text event_type argument p key s h found =
    let (required, optional, e, valid) = accepted-normalize event_type argument p h in
    let (named, normal, full, dispatched) =
      validate_fields-eq-ok event_type required optional p valid in
    validate_value-text event_type key s
      (validate_value_of_lookup event_type p key (text s) normal found)
