-- ===== src/Runtime/Ids.antt =====
-- `new_run_id`: its ids have the form that the payloads ask of a run id.
use Prim.Native.Char.{code}
use Prim.Native.String.{char_at}
use hermes_agent_runtime.Base.{
  ℕ, zero, suc, ◌+◌, ◌*◌, ◌/◌, ◌%◌, ◌^◌, ◌<◌, ◌≡◌, ◌⊎◌, inl, inr, refl, ap, Bool, true, ◌&&◌,
  String, ◌<>◌, arith, all, length,
}
use hermes_agent_runtime.Base.Text.{codes, codes-append}
use hermes_agent_runtime.Payloads.Contract.{IdPattern}
use hermes_agent_runtime.Payloads.Validate.{fullmatch, is_crockford}
use hermes_agent_runtime.Runtime.Context.{alphabet, digits, new_run_id}

-- The test at every number below a bound
all_below : (ℕ → Bool) → ℕ → Bool
all_below p zero = true
all_below p (suc n) = let rest = all_below p n in p n && rest

below_cases : (m n : ℕ) → m < suc n → (m ≡ n) ⊎ (m < n)
below_cases m n h = omega arith

all_below-at : (p : ℕ → Bool) (n m : ℕ) → all_below p n ≡ true → m < n → p m ≡ true
unfolding all_below
all_below-at p zero m h below = ground arith
all_below-at p (suc n) m h below = elim (below_cases m n below) [
  | inl e ↦ rw e (ground arith)
  | inr lt ↦ all_below-at p n m (ground arith) lt
]

abbrev letter_fits : ℕ → Bool
letter_fits n = is_crockford (code (char_at alphabet n))

alphabet-fits : all_below letter_fits 32 ≡ true
unfolding all_below is_crockford
alphabet-fits = refl

codes-digits-length : (n value : ℕ) → length (codes (digits n value)) ≡ n
unfolding codes digits
codes-digits-length zero value = refl
codes-digits-length (suc n) value = ap suc (codes-digits-length n value)

all-codes-digits : (n value : ℕ) → all is_crockford (codes (digits n value)) ≡ true
unfolding codes digits all
all-codes-digits zero value = refl
all-codes-digits (suc n) value =
    let fits = all_below-at letter_fits 32 (value / 32 ^ n % 32) alphabet-fits (omega arith) in
    rw (fits, all-codes-digits n value) refl

prefixed :
    (s : String)
    → length (codes s) ≡ 26
    → all is_crockford (codes s) ≡ true
    → fullmatch IdPattern.run_id (codes ("run_" <> s)) ≡ true
unfolding fullmatch codes
prefixed s long fits = rw (codes-append "run_" s, long, fits) refl

-- Every id that `new_run_id` makes matches the pattern of `run_id` in the payload contract: the
-- prefix and 26 letters of the alphabet.
pub new_run_id-matches :
    (millis bits : ℕ) → fullmatch IdPattern.run_id (codes (new_run_id millis bits)) ≡ true
unfolding new_run_id
new_run_id-matches millis bits =
    let value = millis * 2 ^ 80 + bits in
    prefixed (digits 26 value) (codes-digits-length 26 value) (all-codes-digits 26 value)
