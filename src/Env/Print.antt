-- ===== src/Env/Print.antt =====
-- A file of settings that is written out line by line is read back.
use Prim.Native.Char.{Char, code}
use Prim.Native.String.append
use hermes_agent_runtime.Base.{
  ◌≡◌, refl, ◌∙◌, ap, Bool, true, false, String, ◌<>◌, some, [], ◌∷◌, ◌==◌, string_eq, arith,
  Bool-cases, inl, inr, not, ==-refl, ◌&&◌, ◌||◌, eqb, ℕ, All,
}
use hermes_agent_runtime.Base.Dict.{Dict, insert, merge}
use hermes_agent_runtime.Base.Strip.{
  is_space, is_line_break, all_codes, lstrip, rstrip, keep_last, strip_by, strip, splitlines,
  split_once, begins_with,
}
use hermes_agent_runtime.Env.File.{unquote, load_line, put, load_lines, parse_env}

-- No character that a line or its parts could be stripped of
unfoldable pub is_plain : ℕ → Bool
unfolding is_space
is_plain c = not (is_space c || eqb c 34 || eqb c 39)

keep_last_none :
    (p : ℕ → Bool) (c : Char) (s : String) → p (code c) ≡ false → keep_last p c s ≡ String.◌∷◌ c s
keep_last_none p c String.[] h = rw h refl
keep_last_none p c (String.◌∷◌ d s) h = refl

lstrip_none : (p : ℕ → Bool) (s : String) → all_codes (λ c. not (p c)) s ≡ true → lstrip p s ≡ s
unfolding lstrip all_codes
lstrip_none p String.[] h = refl
lstrip_none p (String.◌∷◌ c s) h = ground arith

rstrip_none : (p : ℕ → Bool) (s : String) → all_codes (λ c. not (p c)) s ≡ true → rstrip p s ≡ s
unfolding rstrip all_codes
rstrip_none p String.[] h = refl
rstrip_none p (String.◌∷◌ c s) h =
    rw (rstrip_none p s (ground arith)) (keep_last_none p c s (ground arith))

strip_none : (p : ℕ → Bool) (s : String) → all_codes (λ c. not (p c)) s ≡ true → strip_by p s ≡ s
unfolding strip_by
strip_none p s h = rw (lstrip_none p s h) (rstrip_none p s h)

all_codes_sub :
    (p q : ℕ → Bool) (s : String)
    → ((c : ℕ) → p c ≡ true → q c ≡ true)
    → all_codes p s ≡ true
    → all_codes q s ≡ true
unfolding all_codes
all_codes_sub p q String.[] sub h = refl
all_codes_sub p q (String.◌∷◌ c s) sub h = ground (arith, sub (code c), all_codes_sub p q s sub)

append_cons : (c : Char) (s t : String) → String.◌∷◌ c s <> t ≡ String.◌∷◌ c (s <> t)
append_cons c s t = rw append.cons

append_nil : (t : String) → "" <> t ≡ t
append_nil t = rw append.nil

all_codes-append :
    (p : ℕ → Bool) (s t : String) → all_codes p (s <> t) ≡ (all_codes p s && all_codes p t)
unfolding all_codes
all_codes-append p String.[] t = rw (append_nil t) refl
all_codes-append p (String.◌∷◌ c s) t =
    rw (append_cons c s t) (ground (arith, all_codes-append p s t))

breaks_space : (c : ℕ) → is_space c ≡ false → is_line_break c ≡ false
unfolding is_space is_line_break
breaks_space c h = ground arith

-- A line without breaks, and the break after it
splitlines-line :
    (line rest : String)
    → all_codes (λ c. not (is_line_break c)) line ≡ true
    → splitlines (line <> ("\n" <> rest)) ≡ line ∷ splitlines rest
unfolding splitlines all_codes
splitlines-line String.[] rest h =
    rw (append_nil ("\n" <> rest), append_cons "\n" "" rest, append_nil rest) refl
splitlines-line (String.◌∷◌ c line) rest h =
    let plain : is_line_break (code c) ≡ false = ground arith in
    rw (append_cons c line ("\n" <> rest), plain, splitlines-line line rest (ground arith)) refl

split_once-line :
    (d : Char) (key value : String)
    → all_codes (λ c. not (eqb c (code d))) key ≡ true
    → split_once (code d) (key <> String.◌∷◌ d value) ≡ some (key, value)
unfolding split_once all_codes
split_once-line d String.[] value h = rw (append_nil (String.◌∷◌ d value)) (ground arith)
split_once-line d (String.◌∷◌ c key) value h =
    rw (append_cons c key (String.◌∷◌ d value), split_once-line d key value (ground arith))
      (ground arith)

-- A name and a setting that a line can carry: not a space, a break or a quotation mark in either,
-- and a name that is not empty, does not begin with `#` and has no `=`.
pub record IsEntry (key value : String) : Type 0 where
  pub plain_key : all_codes is_plain key ≡ true
  pub no_sign : all_codes (λ c. not (eqb c b'=')) key ≡ true
  pub no_comment : begins_with b'#' key ≡ false
  pub named : (key == "") ≡ false
  pub plain_value : all_codes is_plain value ≡ true

unfoldable pub print_line : String → String → String
print_line key value = key <> String.◌∷◌ "=" value

unfoldable pub print_env : Dict String → String
unfolding print_line
print_env [] = ""
print_env ((key, value) ∷ env) = print_line key value <> ("\n" <> print_env env)

abbrev pub IsEntryOf : String × String → Type 0
IsEntryOf (key, value) = IsEntry key value

cons-ne-empty : (c : Char) (s : String) → (String.◌∷◌ c s == "") ≡ false
cons-ne-empty c s = elim (Bool-cases (String.◌∷◌ c s == "")) [
  | inl same ↦ let e : String.◌∷◌ c s ≡ "" = ground arith in cc
  | inr other ↦ other
]

line_plain :
    (key value : String)
    → all_codes is_plain key ≡ true
    → all_codes is_plain value ≡ true
    → all_codes is_plain (print_line key value) ≡ true
unfolding print_line all_codes is_plain
line_plain key value h k = all_codes-append is_plain key (String.◌∷◌ "=" value) ∙ rw (h, k) refl

line_begins :
    (key value : String)
    → begins_with b'#' key ≡ false
    → (key == "") ≡ false
    → (begins_with b'#' (print_line key value) ≡ false) × ((print_line key value == "") ≡ false)
unfolding print_line
line_begins String.[] value h named = absurd (cc (==-refl {A = String} ""))
line_begins (String.◌∷◌ c key) value h named =
    rw (append_cons c key (String.◌∷◌ "=" value)) (h, cons-ne-empty c (key <> String.◌∷◌ "=" value))

plain_not :
    (p : ℕ → Bool) (s : String)
    → ((c : ℕ) → is_plain c ≡ true → p c ≡ false)
    → all_codes is_plain s ≡ true
    → strip_by p s ≡ s
plain_not p s sub h =
    strip_none p s (all_codes_sub is_plain (λ c. not (p c)) s (λ c k. ap not (sub c k)) h)

plain_space : (c : ℕ) → is_plain c ≡ true → is_space c ≡ false
unfolding is_plain
plain_space c h = ground arith

plain_double : (c : ℕ) → is_plain c ≡ true → eqb c 34 ≡ false
unfolding is_plain
plain_double c h = ground arith

plain_single : (c : ℕ) → is_plain c ≡ true → eqb c 39 ≡ false
unfolding is_plain
plain_single c h = ground arith

strip-plain : (s : String) → all_codes is_plain s ≡ true → strip s ≡ s
unfolding strip
strip-plain s h = plain_not is_space s plain_space h

unquote-plain : (s : String) → all_codes is_plain s ≡ true → unquote s ≡ s
unfolding unquote
unquote-plain s h =
    rw
      (
        strip-plain s h,
        plain_not (λ c. eqb c 34) s plain_double h,
        plain_not (λ c. eqb c 39) s plain_single h,
      )
      refl

print_line_split :
    (key value : String)
    → all_codes (λ c. not (eqb c b'=')) key ≡ true
    → split_once b'=' (print_line key value) ≡ some (key, value)
unfolding print_line
print_line_split key value h = split_once-line "=" key value h

load_line-print :
    (key value : String) → IsEntry key value → load_line (print_line key value) ≡ some (key, value)
unfolding load_line
load_line-print key value e =
    let (starts, named) = line_begins key value e.no_comment e.named in
    rw
      (
        strip-plain (print_line key value) (line_plain key value e.plain_key e.plain_value),
        starts,
        named,
      )
      (rw
        (
          print_line_split key value e.no_sign,
          strip-plain key e.plain_key,
          unquote-plain value e.plain_value,
        )
        refl)

line_unbroken :
    (key value : String)
    → IsEntry key value
    → all_codes (λ c. not (is_line_break c)) (print_line key value) ≡ true
line_unbroken key value e =
    all_codes_sub is_plain (λ c. not (is_line_break c)) (print_line key value)
      (λ c h. ap not (breaks_space c (plain_space c h)))
      (line_plain key value e.plain_key e.plain_value)

splitlines-nil : splitlines "" ≡ []
unfolding splitlines
splitlines-nil = refl

load_lines-print :
    (env out : Dict String)
    → All IsEntryOf env
    → load_lines (splitlines (print_env env)) out ≡ merge out env
unfolding load_lines print_env merge
load_lines-print [] out h = ap (λ lines. load_lines lines out) splitlines-nil
load_lines-print ((key, value) ∷ env) out (e, h) =
    ap (λ lines. load_lines lines out)
      (splitlines-line (print_line key value) (print_env env) (line_unbroken key value e))
    ∙ ap (λ o. load_lines (splitlines (print_env env)) (put o out)) (load_line-print key value e)
    ∙ load_lines-print env (insert key value out) h

-- A file that is written from settings, a line for each, is read back as the mapping that the
-- settings give one after the other, if no name or setting has a space, a line break or a
-- quotation mark and no name is empty, begins with `#` or has an `=`.
pub parse_env-print_env :
    (env : Dict String) → All IsEntryOf env → parse_env (print_env env) ≡ merge [] env
unfolding parse_env
parse_env-print_env env h = load_lines-print env [] h
