-- ===== src/Payloads/Normal.antt =====
-- `normalize` of payloads.py: what it keeps, and what it makes of a payload it has made.
use hermes_agent_runtime.Base.{
  ◌≡◌, ◌⊎◌, refl, ◌∙◌, sym, ap, true, false, not, List, [], ◌∷◌, String,
}
use hermes_agent_runtime.Base.{string_eq, contains, select, arith, inl, inr}
use hermes_agent_runtime.Base.Dict.{keys}
use hermes_agent_runtime.Base.Result.{ok, ◌>>=◌, ◌>>◌, >>=-eq-ok, raise_if-eq-ok}
use hermes_agent_runtime.Payloads.Value.{Value, Payload, null, bool, int, text, container, is_null}
use hermes_agent_runtime.Payloads.Validate.{validate_value}
use hermes_agent_runtime.Payloads.Event.{outside, is_nil, refuse_names, normalize}

pub Unit-eq : (u : Unit {0}) → u ≡ tt
Unit-eq tt = refl

is_nil_eq : (names : List String) → not (is_nil names) ≡ false → names ≡ []
is_nil_eq [] h = refl
is_nil_eq (_ ∷ _) h = cc

pub refuse_names-eq-ok :
    (what event_type : String) (names : List String) {u : Unit {0}}
    → refuse_names what event_type names ≡ ok u
    → names ≡ []
unfolding refuse_names
refuse_names-eq-ok what event_type names h =
    is_nil_eq names (raise_if-eq-ok (not (is_nil names)) _ h)

pub refuse_names-nil :
    (what event_type : String) (names : List String)
    → names ≡ []
    → refuse_names what event_type names ≡ ok tt
unfolding refuse_names
refuse_names-nil what event_type names h = rw h refl

-- A value that is not null is checked and kept.
normalize-kept :
    (event_type key : String) (value : Value) (fields : Payload)
    → is_null value ≡ false
    → normalize event_type ((key, value) ∷ fields) ≡ (
        validate_value event_type key value
        >> (normalize event_type fields >>= λ normalized. ok ((key, value) ∷ normalized)))
unfolding normalize
normalize-kept event_type key null fields h = cc
normalize-kept event_type key (bool b) fields h = refl
normalize-kept event_type key (int n) fields h = refl
normalize-kept event_type key (text s) fields h = refl
normalize-kept event_type key container fields h = refl

-- The inversion of `normalize` at a value that is kept
pub normalize-kept-eq-ok :
    (event_type key : String) (value : Value) (fields : Payload) {p : Payload}
    → is_null value ≡ false
    → normalize event_type ((key, value) ∷ fields) ≡ ok p
    → (validate_value event_type key value ≡ ok tt)
      × (q : Payload) × (normalize event_type fields ≡ ok q)
      × (p ≡ (key, value) ∷ q)
normalize-kept-eq-ok event_type key value fields {p} here h =
    let (u, valid, rest) =
      >>=-eq-ok (validate_value event_type key value) _
        (sym (normalize-kept event_type key value fields here) ∙ h) in
    let (q, e, same) = >>=-eq-ok (normalize event_type fields) _ rest in
    (valid ∙ ap ok (Unit-eq u), q, e, cc)

pub null_or_kept : (v : Value) → (v ≡ null) ⊎ (is_null v ≡ false)
null_or_kept null = inl refl
null_or_kept (bool b) = inr refl
null_or_kept (int n) = inr refl
null_or_kept (text s) = inr refl
null_or_kept container = inr refl

pub normalize-null :
    (event_type key : String) (value : Value) (fields : Payload)
    → value ≡ null
    → normalize event_type ((key, value) ∷ fields) ≡ normalize event_type fields
unfolding normalize
normalize-null event_type key value fields h = rw h refl

-- The fields that are kept, checked again
pub normalize-again :
    (event_type : String) (fields : Payload) {p : Payload}
    → normalize event_type fields ≡ ok p
    → normalize event_type p ≡ ok p
unfolding normalize
normalize-again event_type [] {p} h = let e : p ≡ [] = cc in rw e refl
normalize-again event_type ((key, value) ∷ fields) {p} h = elim (null_or_kept value) [
  | inl gone ↦
      normalize-again event_type fields (sym (normalize-null event_type key value fields gone) ∙ h)
  | inr here ↦
      let (valid, q, e, same) = normalize-kept-eq-ok event_type key value fields here h in
      rw same (
        normalize-kept event_type key value q here
        ∙ rw (valid, normalize-again event_type fields e) refl)
]

outside-cons :
    (allowed : List String) (name : String) (names : List String)
    → outside allowed (name ∷ names) ≡ []
    → (contains allowed name ≡ true) × (outside allowed names ≡ [])
unfolding outside select
outside-cons allowed name names h = (ground arith, ground arith)

outside-cons_of :
    (allowed : List String) (name : String) (names : List String)
    → contains allowed name ≡ true
    → outside allowed names ≡ []
    → outside allowed (name ∷ names) ≡ []
unfolding outside select
outside-cons_of allowed name names h rest = rw h rest

-- The names that a check refuses are not brought back.
pub outside-normalize :
    (allowed : List String) (event_type : String) (fields : Payload) {p : Payload}
    → normalize event_type fields ≡ ok p
    → outside allowed (keys fields) ≡ []
    → outside allowed (keys p) ≡ []
unfolding keys outside select normalize
outside-normalize allowed event_type [] {p} h none_out = let e : p ≡ [] = cc in rw e refl
outside-normalize allowed event_type ((key, value) ∷ fields) {p} h none_out =
    elim (null_or_kept value) [
      | inl gone ↦
          outside-normalize allowed event_type fields
            (sym (normalize-null event_type key value fields gone) ∙ h)
            (outside-cons allowed key (keys fields) none_out).1
      | inr here ↦
          let (valid, q, e, same) = normalize-kept-eq-ok event_type key value fields here h in
          let (named, rest) = outside-cons allowed key (keys fields) none_out in
          rw same (
            outside-cons_of allowed key (keys q) named
              (outside-normalize allowed event_type fields e rest))
    ]
