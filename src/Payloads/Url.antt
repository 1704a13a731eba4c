-- ===== src/Payloads/Url.antt =====
-- The parts of a URL that payloads.py reads from `urllib.parse.urlsplit`, on code points. The
-- checks that the library makes on a host in brackets or with characters outside ASCII are not
-- modelled: such a host is accepted here.
use hermes_agent_runtime.Base.{ℕ, Bool, false, ◌&&◌, ◌||◌, not, List, [], ◌∷◌}
use hermes_agent_runtime.Base.{Option, none, some, eqb, leb, all, any, select, if◌then◌else◌}
use mathlib.Core.Bool.{xor}
use hermes_agent_runtime.Base.Text.{is_letter, is_digit, lower}

abbrev pub Text : Type 0
Text = List ℕ

pub record SplitResult : Type 0 where
  pub scheme : Text
  pub netloc : Text
  pub query : Text
  pub fragment : Text

-- `url.lstrip` of the controls and the space.
strip_left : Text → Text
strip_left [] = []
strip_left (c ∷ s) = let rest = strip_left s in if leb c 32 then rest else c ∷ s

-- Tabs and line ends are taken out.
abbrev is_safe : ℕ → Bool
is_safe c = not (eqb c 9 || eqb c 10 || eqb c 13)

-- The text up to the first character that passes the test, and the rest from there.
unfoldable pub before : (ℕ → Bool) → Text → Text
before p [] = []
before p (c ∷ s) = let rest = before p s in if p c then [] else c ∷ rest

unfoldable pub from : (ℕ → Bool) → Text → Text
from p [] = []
from p (c ∷ s) = let rest = from p s in if p c then c ∷ s else rest

drop_first : Text → Text
drop_first [] = []
drop_first (_ ∷ s) = s

is_scheme_code : ℕ → Bool
is_scheme_code c = is_letter c || is_digit c || eqb c b'+' || eqb c b'-' || eqb c b'.'

-- A text that can be a scheme: it begins with a letter, and a colon follows it.
is_scheme : Text → Text → Bool
unfolding is_scheme_code all
is_scheme [] after = false
is_scheme (c ∷ s) [] = false
is_scheme (c ∷ s) (_ ∷ _) = is_letter c && all is_scheme_code (c ∷ s)

abbrev ends_netloc : ℕ → Bool
ends_netloc c = eqb c b'/' || eqb c b'?' || eqb c b'#'

-- What follows `//`, if the text begins so.
authority : Text → Option Text
authority (a ∷ b ∷ s) = if eqb a b'/' && eqb b b'/' then some s else none
authority _ = none

-- The fragment is cut off first, then the query.
split_tail : Text → Text → Text → SplitResult
unfolding before from drop_first
split_tail scheme netloc s = record {
  scheme = scheme;
  netloc = netloc;
  query = drop_first (from (eqb b'?') (before (eqb b'#') s));
  fragment = drop_first (from (eqb b'#') s);
}

-- `none` is the ValueError of a host with one bracket of a pair.
split_netloc : Text → Text → Option SplitResult
unfolding authority before from split_tail any xor
split_netloc scheme url = elim (authority url) [
  | none ↦ some (split_tail scheme [] url)
  | some s ↦
      let netloc = before ends_netloc s in
      if xor (any (eqb b'[') netloc) (any (eqb b']') netloc)
      then none
      else some (split_tail scheme netloc (from ends_netloc s))
]

split_scheme : Text → Option SplitResult
unfolding is_scheme before from drop_first lower split_netloc
split_scheme url =
    let scheme = before (eqb b':') url in
    let rest = from (eqb b':') url in
    if is_scheme scheme rest
    then split_netloc (lower scheme) (drop_first rest)
    else split_netloc [] url

unfoldable pub urlsplit : Text → Option SplitResult
unfolding strip_left select split_scheme
urlsplit url = split_scheme (select is_safe (strip_left url))
