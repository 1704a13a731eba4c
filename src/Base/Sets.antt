-- ===== src/Base/Sets.antt =====
-- Python's frozensets of text, as lists.
use Prim.Native.String.{String}
use mathlib.Core.List.{List, [], ◌∷◌}
use hermes_agent_runtime.Base.Equality.{contains, string_eq, if◌then◌else◌}

-- `frozenset(xs)`
unfoldable pub frozenset : List String → List String
unfolding contains
frozenset [] = []
frozenset (x ∷ xs) = let rest = frozenset xs in if contains rest x then rest else x ∷ rest

-- The distinct texts of a list, each where it first stands: the keys of `{x: … for x in xs}`.
unfoldable pub unique_from : List String → List String → List String
unfolding contains
unique_from seen [] = []
unique_from seen (x ∷ xs) =
    let rest = unique_from (x ∷ seen) xs in
    let same = unique_from seen xs in if contains seen x then same else x ∷ rest

unfoldable pub unique : List String → List String
unfolding unique_from
unique = unique_from []
