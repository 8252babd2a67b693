-- ===== src/Handoff/Checks.antt =====
-- The checks of `Handoff::select` on its input: sources, links, attribution, chronology, outcomes.
use localoud_ai.Base.{
  ℕ, suc, String, List, [], ◌∷◌, ◌++◌, Option, none, some, Bool, true, false, not, ◌&&◌, ◌||◌, ltb,
  leb, ◌==◌, nat_eq, string_eq, is_empty, any, find, contains, if◌then◌else◌, Result, ok, err,
  ◌>>=◌, ◌>>◌, bail_if,
}
use localoud_ai.Base.Text.{is_blank}
use localoud_ai.Handoff.{
  Section, Evidence, Outcome, Group, Handoff, HandoffError, purpose, constraints, decisions,
  current_state, unresolved, completion, correction_not_by_user, correction_too_early,
  incomplete_source, missing_section, panicked, unmatched_outcome, unresolved_dependency,
  unresolved_source, unsupported_attribution, same_section, is_user, is_tool, by_user_only,
  group_ids, source_ids_of,
}

-- A loop over the items that stops at the first error.
unfoldable pub each :
    {A : Type 0} → (A → Result HandoffError (Unit {0})) → List A → Result HandoffError (Unit {0})
each check [] = ok tt
each check (a ∷ l) = check a >> each check l

unfoldable pub check_source : Evidence → Result HandoffError (Unit {0})
check_source s =
    bail_if (is_blank s.id || is_blank s.reference || is_blank s.text) incomplete_source

-- The first loop over the groups: every source and every linked group is there.
unfoldable pub check_links : Handoff → Group → Result HandoffError (Unit {0})
check_links h g = do
  bail_if
      (is_blank g.id
        || is_empty g.source_ids
        || any (λ id. not (contains (source_ids_of h.sources) id)) g.source_ids)
      (unresolved_source g.id)
  bail_if
      (any (λ id. id == g.id || not (contains (group_ids h.groups) id))
        (g.depends_on ++ g.corrects))
      (unresolved_dependency g.id)

abbrev pub source_of : String → List Evidence → Option Evidence
source_of id sources = find (λ s. s.id == id) sources

abbrev pub group_of : String → List Group → Option Group
group_of id groups = find (λ g. g.id == id) groups

abbrev pub outcome_of : String → List Outcome → Option Outcome
outcome_of id outcomes = find (λ o. o.call_id == id) outcomes

-- `sources[id].role != Role::User`, where the index panics if the source is not there.
unfoldable pub not_by_user : List Evidence → String → Result HandoffError Bool
not_by_user sources id = elim (source_of id sources) [
  | none ↦ err panicked
  | some s ↦ ok (not (is_user s.role))
]

unfoldable pub any_not_by_user : List Evidence → List String → Result HandoffError Bool
unfolding not_by_user
any_not_by_user sources [] = ok false
any_not_by_user sources (id ∷ rest) =
    let later = any_not_by_user sources rest in
    not_by_user sources id >>= λ b. if b then ok true else later

-- `position(|s| &s.id == id).unwrap()` over the list of the sources.
unfoldable pub position : String → List Evidence → Result HandoffError ℕ
position id [] = err panicked
position id (s ∷ ss) =
    let rest = position id ss in if s.id == id then ok 0 else (rest >>= λ n. ok (suc n))

abbrev pub max_of : ℕ → ℕ → ℕ
max_of a b = if ltb a b then b else a

abbrev pub min_of : ℕ → ℕ → ℕ
min_of a b = if ltb a b then a else b

-- `.map(position).max().unwrap()` and `.min().unwrap()`
unfoldable pub extreme : (ℕ → ℕ → ℕ) → List Evidence → List String → Result HandoffError ℕ
unfolding position
extreme pick sources [] = err panicked
extreme pick sources (id ∷ []) = position id sources
extreme pick sources (id ∷ more ∷ rest) = do
  n ← position id sources
  m ← extreme pick sources (more ∷ rest)
  ok (pick n m)

-- One correction of a group: the evidence of the old group comes before that of the new one.
unfoldable pub check_correction : Handoff → Group → String → Result HandoffError (Unit {0})
unfolding extreme
check_correction h g old = elim (group_of old h.groups) [
  | none ↦ err panicked
  | some o ↦ extreme max_of h.sources o.source_ids >>= λ latest_old.
      extreme min_of h.sources g.source_ids >>= λ earliest_new.
      bail_if (leb earliest_new latest_old) correction_too_early
]

abbrev pub exit_zero : Option ℕ → Bool
exit_zero none = false
exit_zero (some n) = n == 0

abbrev pub succeeded : Option Outcome → Bool
succeeded none = false
succeeded (some e) = e.completed && exit_zero e.exit_code

abbrev pub call_succeeded : List Outcome → Option String → Bool
call_succeeded outcomes none = false
call_succeeded outcomes (some id) = succeeded (outcome_of id outcomes)

-- Whether the evidence is the output of a tool call that completed with exit code 0.
unfoldable pub is_verified : Handoff → String → Result HandoffError Bool
is_verified h id = elim (source_of id h.sources) [
  | none ↦ err panicked
  | some s ↦ ok (is_tool s.role && call_succeeded h.outcomes s.call_id)
]

unfoldable pub all_verified : Handoff → List String → Result HandoffError Bool
unfolding is_verified
all_verified h [] = ok true
all_verified h (id ∷ rest) =
    let later = all_verified h rest in is_verified h id >>= λ b. if b then later else ok false

-- `test && value?`-like conditions: the value is asked for only if the test passes.
abbrev pub when : Bool → Result HandoffError Bool → Result HandoffError Bool
when true r = r
when false r = ok false

-- The second loop over the groups: attribution, chronology and outcomes.
unfoldable pub check_group : Handoff → Group → Result HandoffError (Unit {0})
unfolding any_not_by_user check_correction all_verified each
check_group h g = do
  foreign ← when (by_user_only g.section) (any_not_by_user h.sources g.source_ids)
  bail_if foreign (unsupported_attribution g.id)
  unasked ← when (not (is_empty g.corrects)) (any_not_by_user h.sources g.source_ids)
  bail_if unasked correction_not_by_user
  each (check_correction h g) g.corrects
  unmatched ← when g.verified_outcome (all_verified h g.source_ids >>= λ b. ok (not b))
  bail_if unmatched unmatched_outcome

abbrev pub required_sections : List Section
required_sections = purpose ∷ constraints ∷ decisions ∷ current_state ∷ unresolved ∷ completion ∷ []

unfoldable pub check_section : Handoff → Section → Result HandoffError (Unit {0})
check_section h required =
    bail_if (not (any (λ g. same_section g.section required) h.groups)) (missing_section required)
