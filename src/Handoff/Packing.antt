-- ===== src/Handoff/Packing.antt =====
-- The selection of `Handoff::select`: the closure of a set of groups, the packing, and the budget.
use localoud_ai.Base.{
  ℕ, zero, suc, reverse, String, List, [], ◌∷◌, ◌++◌, map, Option, none, some, Bool, false, not,
  ◌||◌, ltb, leb, ◌==◌, nat_eq, string_eq, is_empty, length, any, keep, contains, if◌then◌else◌,
  Result, ok, ◌>>◌, bail_if,
}
use localoud_ai.Handoff.{
  Group, Handoff, Selection, HandoffError, background, duplicate_id, limits_exceeded, over_budget,
  too_large, ungrouped_source, same_section, all_distinct, group_ids, source_ids_of,
}
use localoud_ai.Handoff.Checks.{
  each, check_source, check_links, check_group, required_sections, check_section,
}

-- `set.insert(x)` and `set.extend(xs)`
abbrev pub insert_text : String → List String → List String
insert_text x l = if contains l x then l else l ++ x ∷ []

unfoldable pub extend : List String → List String → List String
extend l [] = l
extend l (x ∷ xs) = extend (insert_text x l) xs

-- The body of the loop of `closure` over the groups.
unfoldable pub close_group : List String → Group → List String
unfolding extend
close_group selected g =
    if contains selected g.id || any (contains selected) g.corrects
    then extend (insert_text g.id selected) (g.depends_on ++ g.corrects)
    else selected

unfoldable pub close_round : List String → List Group → List String
unfolding close_group
close_round selected [] = selected
close_round selected (g ∷ gs) = close_round (close_group selected g) gs

-- `closure`: rounds until one adds nothing. A round that adds something adds an identifier of a
-- group, so one round more than there are groups is enough.
unfoldable pub closure_loop : ℕ → List Group → List String → List String
unfolding close_round
closure_loop zero groups selected = selected
closure_loop (suc fuel) groups selected =
    let next = close_round selected groups in
    let rest = closure_loop fuel groups next in
    if length selected == length next then next else rest

unfoldable pub closure : List Group → List String → List String
unfolding closure_loop
closure groups selected = closure_loop (suc (length groups)) groups selected

abbrev called : String → Option String → Bool
called id none = false
called id (some c) = c == id

-- `pack`. The profile and the authority of a selection are fixed texts.
unfoldable pub pack : Handoff → List String → Selection
pack h selected =
    let kept = keep (λ g. contains selected g.id) h.groups in
    let evidence = keep (λ s. any (λ g. contains g.source_ids s.id) kept) h.sources in
    record {
      sources = evidence;
      groups = kept;
      outcomes = keep (λ e. any (λ s. called e.call_id s.call_id) evidence) h.outcomes;
      omitted_background_groups = group_ids (keep (λ g. not (contains selected g.id)) h.groups);
    }

-- The groups that a selection must have.
abbrev pub is_mandatory : Group → Bool
is_mandatory g = not (same_section g.section background) || not (is_empty g.corrects)

-- One round of the last loop: an optional group, if it still fits with all that it needs.
unfoldable pub try_group :
    (selection_bytes : Selection → ℕ) → Handoff → List String → Group → List String
unfolding pack
try_group selection_bytes h selected g =
    let next = closure h.groups (insert_text g.id selected) in
    if leb (selection_bytes (pack h next)) h.max_bytes then next else selected

unfoldable pub add_optional :
    (selection_bytes : Selection → ℕ) → Handoff → List String → List Group → List String
unfolding try_group
add_optional selection_bytes h selected [] = selected
add_optional selection_bytes h selected (g ∷ gs) =
    add_optional selection_bytes h (try_group selection_bytes h selected g) gs

unfoldable pub mandatory : Handoff → List String
mandatory h = closure h.groups (group_ids (keep is_mandatory h.groups))

module _ (handoff_bytes : Handoff → ℕ) (selection_bytes : Selection → ℕ) where
  unfoldable pub validate : Handoff → Result HandoffError (Unit {0})
  unfolding all_distinct check_source check_links check_group check_section each
  validate h = do
    bail_if
        (h.max_bytes == 0
          || ltb 144000 h.max_bytes
          || ltb 256 (length h.sources)
          || ltb 256 (length h.groups))
        limits_exceeded
    bail_if (ltb 1000000 (handoff_bytes h)) too_large
    bail_if
        (not (all_distinct (source_ids_of h.sources))
          || not (all_distinct (group_ids h.groups))
          || not (all_distinct (map (λ o. o.call_id) h.outcomes)))
        duplicate_id
    each check_source h.sources
    each (check_links h) h.groups
    each (check_group h) h.groups
    each (check_section h) required_sections
    bail_if (any (λ s. not (any (λ g. contains g.source_ids s.id) h.groups)) h.sources)
        ungrouped_source

  -- `Handoff::select`
  unfoldable pub select : Handoff → Result HandoffError Selection
  unfolding validate add_optional mandatory closure
  select h = do
    validate h
    bail_if (ltb h.max_bytes (selection_bytes (pack h (mandatory h)))) over_budget
    ok (pack h (add_optional selection_bytes h (mandatory h) (reverse h.groups)))
