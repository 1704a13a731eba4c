-- ===== src/Base/Strip.antt =====
-- `str.strip`, `str.splitlines`, `str.split` at the first separator and `int`, on native texts.
use Prim.Native.Nat.{ℕ, zero, suc, ◌+◌, ◌-◌, ◌*◌}
use Prim.Native.Char.{Char, code}
use Prim.Native.String.{String}
use mathlib.Core.Bool.{Bool, true, false, ◌&&◌, ◌||◌}
use mathlib.Core.Option.{Option, none, some}
use mathlib.Core.List.{List, [], ◌∷◌}
use hermes_agent_runtime.Base.Equality.{if◌then◌else◌}
use hermes_agent_runtime.Base.Numbers.{eqb, ℤ, pos, negsuc}
use hermes_agent_runtime.Base.Text.{in_range, is_digit}

-- The characters that `strip()` takes away
unfoldable pub is_space : ℕ → Bool
is_space c =
    in_range 9 13 c
    || in_range 28 32 c
    || eqb c 0x85
    || eqb c 0xA0
    || eqb c 0x1680
    || in_range 0x2000 0x200A c
    || in_range 0x2028 0x2029 c
    || eqb c 0x202F
    || eqb c 0x205F
    || eqb c 0x3000

-- Those at which `splitlines()` breaks
unfoldable pub is_line_break : ℕ → Bool
is_line_break c = in_range 10 13 c || in_range 28 30 c || eqb c 0x85 || in_range 0x2028 0x2029 c

-- The same test at every character
unfoldable pub all_codes : (ℕ → Bool) → String → Bool
all_codes p String.[] = true
all_codes p (String.◌∷◌ c s) = p (code c) && all_codes p s

unfoldable pub lstrip : (ℕ → Bool) → String → String
lstrip p String.[] = ""
lstrip p (String.◌∷◌ c s) = let rest = lstrip p s in if p (code c) then rest else String.◌∷◌ c s

abbrev pub keep_last : (ℕ → Bool) → Char → String → String
keep_last p c String.[] = if p (code c) then "" else String.◌∷◌ c ""
keep_last p c (String.◌∷◌ d s) = String.◌∷◌ c (String.◌∷◌ d s)

unfoldable pub rstrip : (ℕ → Bool) → String → String
rstrip p String.[] = ""
rstrip p (String.◌∷◌ c s) = keep_last p c (rstrip p s)

unfoldable pub strip_by : (ℕ → Bool) → String → String
unfolding lstrip rstrip
strip_by p s = rstrip p (lstrip p s)

-- `s.strip()`
unfoldable pub strip : String → String
unfolding is_space strip_by
strip s = strip_by is_space s

-- A character in front of the first line
abbrev pub head_cons : Char → List String → List String
head_cons c [] = String.◌∷◌ c "" ∷ []
head_cons c (line ∷ lines) = String.◌∷◌ c line ∷ lines

abbrev pub begins_with : ℕ → String → Bool
begins_with d String.[] = false
begins_with d (String.◌∷◌ c s) = eqb (code c) d

-- `s.splitlines()`. A carriage return before a line feed is no break of its own.
unfoldable pub splitlines : String → List String
unfolding is_line_break
splitlines String.[] = []
splitlines (String.◌∷◌ c s) =
    let lines = splitlines s in
    if is_line_break (code c)
    then (if eqb (code c) 13 && begins_with 10 s then lines else "" ∷ lines)
    else head_cons c lines

abbrev pub in_front : Char → Option (String × String) → Option (String × String)
in_front c none = none
in_front c (some (before, after)) = some (String.◌∷◌ c before, after)

-- `s.split(d, 1)`, for a text in which the character `d` occurs
unfoldable pub split_once : ℕ → String → Option (String × String)
split_once d String.[] = none
split_once d (String.◌∷◌ c s) =
    let rest = in_front c (split_once d s) in if eqb (code c) d then some ("", s) else rest

-- The digits of a decimal literal, where an underscore stands between two digits: `digit` says that
-- a digit stands before.
unfoldable pub digits_from : Bool → ℕ → String → Option ℕ
digits_from digit n String.[] = if digit then some n else none
digits_from digit n (String.◌∷◌ c s) =
    let next =
      digits_from (is_digit (code c)) (if is_digit (code c) then n * 10 + (code c - b'0') else n)
        s in
    if is_digit (code c) || (eqb (code c) b'_' && digit) then next else none

abbrev signed : (ℕ → ℤ) → Option ℕ → Option ℤ
signed sign none = none
signed sign (some n) = some (sign n)

abbrev pub negative : ℕ → ℤ
negative zero = pos 0
negative (suc n) = negsuc n

-- `int(s)`, for a text that is stripped; `none` where it raises `ValueError`. Decimal digits that
-- are no ASCII characters, which `int` reads too, are not modelled.
unfoldable pub int_of : String → Option ℤ
unfolding digits_from
int_of String.[] = none
int_of (String.◌∷◌ c s) =
    if eqb (code c) b'-'
    then signed negative (digits_from false 0 s)
    else if eqb (code c) b'+'
    then signed pos (digits_from false 0 s)
    else signed pos (digits_from false 0 (String.◌∷◌ c s))
