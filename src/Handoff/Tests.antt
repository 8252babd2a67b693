-- ===== src/Handoff/Tests.antt =====
-- Runs of `select`. The size of a selection is taken to be ten bytes for each of its groups.
use localoud_ai.Base.{
  ℕ, ◌≤◌, ◌≡◌, ◌*◌, refl, inl, inr, String, List, [], ◌∷◌, length, Option, none, some, Bool, true,
  false, Result, ok, err, In,
}
use localoud_ai.Handoff.{
  Section, Role, Evidence, Group, Handoff, Selection, over_budget, group_ids, purpose, constraints,
  decisions, current_state, unresolved, completion, background,
}
use localoud_ai.Handoff.Packing.{select}
use localoud_ai.Handoff.Select.{select-fits, select-mandatory, select-closed}

abbrev said : String → Evidence
said id = record {
  id = id;
  role = Role.user;
  reference = "message:1";
  text = "keep the tests";
  call_id = none;
}

abbrev group : String → Section → List String → Group
group id section depends_on = record {
  id = id;
  section = section;
  source_ids = "e1" ∷ [];
  depends_on = depends_on;
  corrects = [];
  verified_outcome = false;
}

abbrev goal : Group
goal = group "goal" purpose ("detail" ∷ [])

abbrev detail : Group
detail = group "detail" background []

abbrev notes : Handoff
notes = record {
  sources = said "e1" ∷ [];
  groups =
      goal
      ∷ group "limits" constraints []
      ∷ group "choices" decisions []
      ∷ group "state" current_state []
      ∷ group "open" unresolved []
      ∷ group "done" completion []
      ∷ detail
      ∷ group "aside" background []
      ∷ [];
  outcomes = [];
  max_bytes = 70;
}

abbrev bytes : Handoff → ℕ
bytes h = 1000

abbrev size : Selection → ℕ
size s = 10 * length s.groups

-- All but the last group, which does not fit.
abbrev kept : Selection
kept = record {
  sources = said "e1" ∷ [];
  groups =
      goal
      ∷ group "limits" constraints []
      ∷ group "choices" decisions []
      ∷ group "state" current_state []
      ∷ group "open" unresolved []
      ∷ group "done" completion []
      ∷ detail
      ∷ [];
  outcomes = [];
  omitted_background_groups = "aside" ∷ [];
}

selected : select bytes size notes ≡ ok kept
unfolding select localoud_ai.Base.Text.is_blank
selected = refl

select-fits_example : 70 ≤ 70
select-fits_example = select-fits bytes size notes kept selected

select-mandatory_example : In goal kept.groups
select-mandatory_example = select-mandatory bytes size notes kept selected goal (inl refl) refl

select-closed_example : In "detail" (group_ids kept.groups)
select-closed_example =
    select-closed bytes size notes kept selected goal "detail" (inl refl) (inl refl)

too_small : select bytes size (record notes { max_bytes = 60 }) ≡ err over_budget
unfolding select localoud_ai.Base.Text.is_blank
too_small = refl
