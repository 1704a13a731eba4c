-- ===== src/Base/Text.antt =====
-- The text operations that the Python code uses: prefixes, substrings, lower case, and the
-- character classes of its regular expressions.
use Prim.Native.Nat.{ℕ, ◌+◌}
use Prim.Native.Char.{code}
use Prim.Native.String.{String, len, slice, ◌++◌ as ◌<>◌}
use Prim.Native.String.append
use mathlib.Core.Path.{◌≡◌, ap}
use mathlib.Core.Bool.{Bool, true, false, ◌&&◌, ◌||◌}
use mathlib.Core.List.{List, [], ◌∷◌, ◌++◌}
use text.Mathlib.Text.{starts_with as text_starts_with}
use hermes_agent_runtime.Base.Equality.{if◌then◌else◌}
use hermes_agent_runtime.Base.Numbers.{leb, eqb}
use text.Mathlib.TextPositions.{slice-append_right, len-append, starts_with-append}

-- `s.startswith(p)`
unfoldable pub starts_with : String → String → Bool
starts_with s p = text_starts_with s p

-- `s[len(p):]`, for a text that begins with `p`; so also `s.removeprefix(p)` there.
unfoldable pub remove_prefix : String → String → String
remove_prefix s p = slice s (len p) (len s)

pub starts_with-append_lem : (p s : String) → starts_with (p <> s) p ≡ true
unfolding starts_with
starts_with-append_lem p s = starts_with-append p s

pub remove_prefix-append : (p s : String) → remove_prefix (p <> s) p ≡ s
unfolding remove_prefix
remove_prefix-append p s = rw len-append (slice-append_right p s)

-- The code points of a text.
unfoldable pub codes : String → List ℕ
codes String.[] = []
codes (String.◌∷◌ c s) = code c ∷ codes s

pub codes-append : (s t : String) → codes (s <> t) ≡ codes s ++ codes t
unfolding codes
codes-append String.[] t = rw append.nil
codes-append (String.◌∷◌ c s) t = rw append.cons (ap (λ r. code c ∷ r) (codes-append s t))

abbrev pub in_range : ℕ → ℕ → ℕ → Bool
in_range lo hi c = leb lo c && leb c hi

-- `[0-9]`, `[A-Za-z]`
abbrev pub is_digit : ℕ → Bool
is_digit = in_range b'0' b'9'

abbrev pub is_letter : ℕ → Bool
is_letter c = in_range b'A' b'Z' c || in_range b'a' b'z' c

-- The lower case of a character, as far as it holds ASCII characters: `A` to `Z`, the Kelvin sign
-- and the dotted capital I. Any other character has none in its lower case and is kept, so that a
-- search for an ASCII word finds what Python's `str.lower` would show it.
lower_code : ℕ → List ℕ
lower_code c =
    if in_range b'A' b'Z' c
    then (c + 32) ∷ []
    else if eqb c 0x212A
    then b'k' ∷ []
    else if eqb c 0x130
    then b'i' ∷ 0x307 ∷ []
    else c ∷ []

-- `s.lower()`, on code points
unfoldable pub lower : List ℕ → List ℕ
unfolding lower_code
lower [] = []
lower (c ∷ s) = lower_code c ++ lower s

unfoldable pub begins : List ℕ → List ℕ → Bool
begins s [] = true
begins [] (d ∷ t) = false
begins (c ∷ s) (d ∷ t) = eqb c d && begins s t

-- `word in s`, on code points
unfoldable pub occurs : List ℕ → List ℕ → Bool
unfolding begins
occurs word [] = begins [] word
occurs word (c ∷ s) = begins (c ∷ s) word || occurs word s
