-- ===== src/Handoff.antt =====
-- crates/hub-context/src/handoff.rs: the handoff of a conversation. The JSON
-- texts whose length the code bounds (serde_json) are parameters: the byte length of the text of a
-- handoff and of a selection. A `BTreeMap` or `BTreeSet` of texts is a list in the order of
-- insertion, of which the code reads membership, size and values by key.
pub mod Checks
pub mod Packing
pub mod Closure
pub mod Select
mod Tests
use localoud_ai.Base.{
  ℕ, zero, suc, reverse, ◌+◌, ◌≤◌, ◌<◌, ◌≡◌, String, List, [], ◌∷◌, ◌++◌, map, Option, none, some,
  Bool, true, false, not, ◌&&◌, ◌||◌, ltb, leb, ◌==◌, nat_eq, string_eq, is_empty, length, any, all,
  keep, find, contains, if◌then◌else◌, Result, ok, err, ◌>>=◌, ◌>>◌, bail_if,
}
use localoud_ai.Base.Text.{is_blank}

pub data Section : Type 0 where
  purpose constraints decisions current_state unresolved completion background : Section

pub data Role : Type 0 where
  user assistant tool : Role

pub record Evidence : Type 0 where
  pub id : String
  pub role : Role
  pub reference : String
  pub text : String
  pub call_id : Option String

-- `exit_code` is an `i32`, as the number that its 32 bits spell.
pub record Outcome : Type 0 where
  pub call_id : String
  pub completed : Bool
  pub exit_code : Option ℕ

pub record Group : Type 0 where
  pub id : String
  pub section : Section
  pub source_ids : List String
  pub depends_on : List String
  pub corrects : List String
  pub verified_outcome : Bool

pub record Handoff : Type 0 where
  pub sources : List Evidence
  pub groups : List Group
  pub outcomes : List Outcome
  pub max_bytes : ℕ

pub record Selection : Type 0 where
  pub sources : List Evidence
  pub groups : List Group
  pub outcomes : List Outcome
  pub omitted_background_groups : List String

pub data HandoffError : Type 0 where
  limits_exceeded too_large duplicate_id incomplete_source : HandoffError
  unresolved_source unresolved_dependency : String → HandoffError
  unsupported_attribution : String → HandoffError
  correction_not_by_user correction_too_early unmatched_outcome : HandoffError
  missing_section : Section → HandoffError
  ungrouped_source over_budget : HandoffError
  -- of the conversion of a conversation
  bad_message_count conversation_too_long bad_message missing_call_id outcome_metadata :
      HandoffError
  bad_candidate_count bad_candidate unknown_message quote_mismatch : HandoffError
  missing_target correction_not_earlier conflicting_outcomes unknown_section : HandoffError
  -- an `unwrap` of nothing, or a missing key of a map that is indexed
  panicked : HandoffError

abbrev pub same_section : Section → Section → Bool
same_section purpose purpose = true
same_section constraints constraints = true
same_section decisions decisions = true
same_section current_state current_state = true
same_section unresolved unresolved = true
same_section completion completion = true
same_section background background = true
same_section _ _ = false

abbrev pub is_user : Role → Bool
is_user Role.user = true
is_user _ = false

abbrev pub is_tool : Role → Bool
is_tool Role.tool = true
is_tool _ = false

abbrev pub by_user_only : Section → Bool
by_user_only purpose = true
by_user_only constraints = true
by_user_only completion = true
by_user_only _ = false

-- Whether a list of keys has no repetition: a map made of it is then as large.
unfoldable pub all_distinct : List String → Bool
all_distinct [] = true
all_distinct (x ∷ xs) = not (contains xs x) && all_distinct xs

abbrev pub group_ids : List Group → List String
group_ids groups = map (λ g. g.id) groups

abbrev pub source_ids_of : List Evidence → List String
source_ids_of sources = map (λ s. s.id) sources
