-- ===== src/Runtime/Labels/Unordered.antt =====
-- The labels are a set: how they are listed does not matter.
use mathlib.Core.List.Permᴰ
use mathlib.Core.List.{Permᴰ}
use hermes_agent_runtime.Base.{◌≡◌, refl, ◌∙◌, sym, ap, List, [], ◌∷◌, String, ◌<>◌}
use hermes_agent_runtime.Base.Order.{
  select-perm, any-perm, Census, nobody, several, only, census, census-perm,
}
use hermes_agent_runtime.Base.Result.{ok, err}
use hermes_agent_runtime.Base.Text.{starts_with}
use hermes_agent_runtime.Runtime.Exceptions.{Call, execution_blocked}
use hermes_agent_runtime.Runtime.Labels.{
  Issue, is_agent, is_unknown_agent, at_most_one, exactly_one, one, classify_issue, values_of,
}

values_of-perm :
    (prefix : String) {xs ys : List String}
    → Permᴰ xs ys
    → Permᴰ (values_of prefix xs) (values_of prefix ys)
unfolding values_of Permᴰ.map
values_of-perm prefix r = Permᴰ.map _ (select-perm (λ l. starts_with l prefix) r)

-- Both helpers see only whether a list is empty, a single element, or longer.
module _ (prefix default : String) where
  settled : Census String → Call String
  settled nobody = ok default
  settled several = err (execution_blocked ("Conflicting " <> prefix <> " labels"))
  settled (only value) = ok value

  at_most_one-settled : (xs : List String) → at_most_one prefix default xs ≡ settled (census xs)
  unfolding settled
  at_most_one-settled [] = refl
  at_most_one-settled (x ∷ []) = refl
  at_most_one-settled (x ∷ y ∷ xs) = refl

single : Census String → Call String
single (only label) = ok label
single _ = err (execution_blocked "Orchestrator must classify missing or ambiguous agent labels")

exactly_one-single : (xs : List String) → exactly_one xs ≡ single (census xs)
unfolding single
exactly_one-single [] = refl
exactly_one-single (x ∷ []) = refl
exactly_one-single (x ∷ y ∷ xs) = refl

one-perm :
    (prefix default : String) {xs ys : List String}
    → Permᴰ xs ys
    → one xs prefix default ≡ one ys prefix default
unfolding one
one-perm prefix default r =
    at_most_one-settled prefix default _
    ∙ ap (settled prefix default) (census-perm (values_of-perm prefix r))
    ∙ sym (at_most_one-settled prefix default _)

exactly_one-perm : {xs ys : List String} → Permᴰ xs ys → exactly_one xs ≡ exactly_one ys
exactly_one-perm r = exactly_one-single _ ∙ ap single (census-perm r) ∙ sym (exactly_one-single _)

-- The outcome of `classify_issue`, its refusals included, is the same for every listing of the labels.
pub classify_issue-perm :
    (issue : Issue) {labels : List String}
    → Permᴰ issue.labels labels
    → classify_issue (record issue { labels = labels }) ≡ classify_issue issue
unfolding classify_issue
classify_issue-perm issue r = rw (
  ← any-perm is_unknown_agent r,
  ← exactly_one-perm (select-perm is_agent r),
  ← one-perm "risk:" "low" r,
  ← one-perm "execution:" "auto" r,
  ← one-perm "env:" "local" r,
)
