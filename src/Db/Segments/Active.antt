-- ===== src/Db/Segments/Active.antt =====
-- Which segment serves a thread (crates/hub-db/src/lib.rs).
use mathlib.Core.List.{reverse-append, reverse_aux}
use localoud_ai.Base.{
  ◌≡◌, refl, sym, ap, ◌∙◌, inl, inr, String, List, [], ◌∷◌, ◌++◌, map, reverse, Option, some, Bool,
  true, false, ◌&&◌, ◌==◌, nat_eq, string_eq, ==_refl, ==_sound, find, count_if, leb, ◌^◌,
  Bool-cases, if◌then◌else◌, ok, >>-eq-ok, ok_injective, bail_if, bail_if-eq-ok, arith,
}
use localoud_ai.Core.{HubThreadId}
use localoud_ai.Db.{update_where}
use localoud_ai.Providers.{validate_target}
use localoud_ai.Db.Segments.{
  ProviderSegment, already_ended, number_too_large, constraint_failed, valid_target, is_active,
  end_segment, start_provider_segment, active_provider_segment,
}

start-eq-ok :
    (has_thread : HubThreadId → Bool) (has_profile : String → Bool) (r : ProviderSegment)
    (rows rows' : List ProviderSegment)
    → start_provider_segment has_thread has_profile r rows ≡ ok rows'
    → (r.ended ≡ false) × (update_where (is_active r.thread_id) end_segment rows ++ r ∷ [] ≡ rows')
unfolding start_provider_segment
start-eq-ok has_thread has_profile r rows rows' h =
    let (_, h1) = >>-eq-ok (valid_target (validate_target r.target)) _ h in
    let (e, h2) = >>-eq-ok (bail_if r.ended already_ended) _ h1 in
    let (_, h3) = >>-eq-ok (bail_if (leb (2 ^ 63) r.profile_revision) number_too_large) _ h2 in
    let (_, h4) = >>-eq-ok (bail_if _ constraint_failed) _ h3 in
    (bail_if-eq-ok r.ended already_ended e, ok_injective h4)

map-reverse_aux :
    (f : ProviderSegment → ProviderSegment) (xs ys : List ProviderSegment)
    → reverse_aux (map f xs) (map f ys) ≡ map f (reverse_aux xs ys)
map-reverse_aux f [] ys = refl
map-reverse_aux f (x ∷ xs) ys = map-reverse_aux f xs (x ∷ ys)

module _ (thread other : HubThreadId) where
  abbrev ending : ProviderSegment → ProviderSegment
  ending r = if is_active thread r then end_segment r else r

  -- A row that another thread finds is not changed.
  kept :
      (rows : List ProviderSegment)
      → (thread == other) ≡ false
      → find (is_active other) (map ending rows) ≡ find (is_active other) rows
  kept [] h = refl
  kept (r ∷ rows) h = elim (Bool-cases (is_active thread r)) [
    | inl mine ↦
        let named = ==_sound r.thread_id thread (ground arith) in
        let foreign : (r.thread_id == other) ≡ false = rw named h in
        rw (mine, foreign) (kept rows h)
    | inr not_mine ↦ elim (Bool-cases (is_active other r)) [
      | inl found ↦ rw (not_mine, found) refl
      | inr passed ↦ rw (not_mine, passed) (kept rows h)
    ]
  ]

one_active :
    (rows : List ProviderSegment) (r : ProviderSegment)
    → r.ended ≡ false
    → count_if
        (is_active r.thread_id)
        (update_where (is_active r.thread_id) end_segment rows ++ r ∷ [])
      ≡ 1
one_active [] r open_row = rw (==_refl r.thread_id, open_row) refl
one_active (x ∷ rows) r open_row = elim (Bool-cases (is_active r.thread_id x)) [
  | inl active ↦ rw (active, and_false (x.thread_id == r.thread_id)) (one_active rows r open_row)
  | inr over ↦ rw (over, over) (one_active rows r open_row)
]
  where
    and_false : (b : Bool) → (b && false) ≡ false
    and_false true = refl
    and_false false = refl

-- When a segment starts, it is the one active segment of its thread, every other thread is served by
-- the segment that served it before, and no second segment of the thread is active.
pub start-active :
    (has_thread : HubThreadId → Bool) (has_profile : String → Bool) (r : ProviderSegment)
    (rows rows' : List ProviderSegment)
    → start_provider_segment has_thread has_profile r rows ≡ ok rows'
    → ((thread : HubThreadId)
        → active_provider_segment thread rows'
          ≡ (if r.thread_id == thread then some r else active_provider_segment thread rows))
      × (count_if (is_active r.thread_id) rows' ≡ 1)
unfolding active_provider_segment
start-active has_thread has_profile r rows rows' h =
    let (open_row, e) = start-eq-ok has_thread has_profile r rows rows' h in
    (
      λ thread. ap (last_active thread) (sym e) ∙ served thread open_row,
      rw (← e) (one_active rows r open_row),
    )
  where
    last_active : HubThreadId → List ProviderSegment → Option ProviderSegment
    last_active thread l = find (is_active thread) (reverse l)

    served :
        (thread : HubThreadId)
        → r.ended ≡ false
        → find
            (is_active thread)
            (reverse (update_where (is_active r.thread_id) end_segment rows ++ r ∷ []))
          ≡ (if r.thread_id == thread then some r else find (is_active thread) (reverse rows))
    served thread open_row = elim (Bool-cases (r.thread_id == thread)) [
      | inl mine ↦
          rw
            (
              reverse-append (update_where (is_active r.thread_id) end_segment rows) (r ∷ []),
              mine,
              open_row,
            )
            refl
      | inr other ↦
          rw
            (
              reverse-append (update_where (is_active r.thread_id) end_segment rows) (r ∷ []),
              other,
              map-reverse_aux (ending r.thread_id thread) rows [],
            )
            (kept r.thread_id thread (reverse rows) other)
    ]
