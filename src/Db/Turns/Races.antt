-- ===== src/Db/Turns/Races.antt =====
-- The two orders in which the completion of a turn and the answer that names the turn may come
-- (`update_provider_status` and `resolve_turn_intent` of crates/hub-db/src/lib.rs).
use localoud_ai.Base.{
  ℕ, ◌≡◌, refl, sym, ap, ◌∙◌, inl, inr, String, List, [], ◌∷◌, ◌++◌, map, Option, none, some, Bool,
  true, false, not, ◌||◌, ◌==◌, nat_eq, string_eq, ==_refl, any, find, reverse, if◌then◌else◌,
  Bool-cases, arith,
}
use mathlib.Core.List.{reverse-append}
use localoud_ai.Db.Sessions.{Store, TurnRow, EventRow}
use localoud_ai.Db.Turns.{
  is, is_ended, takes_status, with_turn_status, completes, starts_on, thread_of, last_event,
  append_event, conclude_status, update_provider_status, resolve_turn_intent, resolved_status,
}

-- The completion of a turn arrives: the event is written, then the status.
unfoldable pub complete :
    (String → Option String × Option String) → ℕ → String → String → String → String → Store → Store
unfolding append_event update_provider_status
complete read_body id thread turn status body s =
    (update_provider_status thread status (some turn)
      (append_event read_body id (some thread) "turn_completed" body s)).1

-- The two of them, either first.
abbrev pub answer_first :
    (String → Option String × Option String)
    → String
    → String
    → ℕ
    → String
    → String
    → String
    → String
    → Store
    → Store
answer_first read_body intent answered id thread turn status body s =
    complete read_body id thread turn status body
      (resolve_turn_intent intent (some turn) answered s)

abbrev pub completion_first :
    (String → Option String × Option String)
    → String
    → String
    → ℕ
    → String
    → String
    → String
    → String
    → Store
    → Store
completion_first read_body intent answered id thread turn status body s =
    resolve_turn_intent intent (some turn) answered
      (complete read_body id thread turn status body s)

abbrev names_turn : String → TurnRow → Bool
names_turn turn r = is r.provider_turn_id turn

or_true : (b : Bool) → (b || true) ≡ true
or_true true = refl
or_true false = refl

module _ (intent turn answered status : String) where
  abbrev resolve_row : String → TurnRow → TurnRow
  resolve_row to r =
      if r.id == intent then record r { provider_turn_id = some turn; status = to } else r

  abbrev complete_row : TurnRow → TurnRow
  complete_row r = if takes_status turn status r then with_turn_status status r else r

  -- What becomes of a row in the two orders.
  row_same :
      (r : TurnRow)
      → names_turn turn r ≡ false
      → (status == "inProgress") ≡ false
      → complete_row (resolve_row answered r) ≡ resolve_row status (complete_row r)
  row_same r new fresh = elim (Bool-cases (r.id == intent)) [
    | inl mine ↦ rw (mine, new, mine, ==_refl turn, fresh, or_true (not (is_ended answered))) refl
    | inr other ↦ rw (other, new, other) refl
  ]

  rows_same :
      (rows : List TurnRow)
      → any (names_turn turn) rows ≡ false
      → (status == "inProgress") ≡ false
      → map complete_row (map (resolve_row answered) rows)
        ≡ map (resolve_row status) (map complete_row rows)
  rows_same [] new fresh = refl
  rows_same (r ∷ rows) new fresh =
      let first : names_turn turn r ≡ false = ground arith in
      let rest : any (names_turn turn) rows ≡ false = ground arith in
      rw (row_same r first fresh)
        (ap (λ l. resolve_row status (complete_row r) ∷ l) (rows_same rows rest fresh))

  -- The answer changes no events, so that the thread takes the status either way.
  conclude-resolve :
      (thread : String) (o : Option EventRow) (s : Store)
      → (conclude_status thread status turn o
          (record s { turns = map (resolve_row status) s.turns })).1
        ≡ record (conclude_status thread status turn o s).1 {
          turns = map (resolve_row status) (conclude_status thread status turn o s).1.turns;
        }
  unfolding conclude_status
  conclude-resolve thread none s = refl
  conclude-resolve thread (some e) s = ground arith

  conclude-events :
      (thread : String) (o : Option EventRow) (s : Store)
      → (conclude_status thread status turn o s).1.events ≡ s.events
  unfolding conclude_status
  conclude-events thread none s = refl
  conclude-events thread (some e) s = ground arith

last_event-snoc :
    (p : EventRow → Bool) (l : List EventRow) (e : EventRow)
    → p e ≡ true
    → find p (reverse (l ++ e ∷ [])) ≡ some e
last_event-snoc p l e h = rw (reverse-append l (e ∷ []), h) refl

abbrev completion : ℕ → String → String → String → Store → EventRow
completion id thread turn status s = record {
  id = id;
  thread_id = thread_of thread s;
  kind = "turn_completed";
  turn_id = some turn;
  text = some status;
}

-- The completion of a turn, as one step.
abbrev completed : String → ℕ → String → String → String → Store → Store
completed intent id thread turn status s =
    let events = s.events ++ completion id thread turn status s ∷ [] in
    (conclude_status thread status turn (find (starts_on (thread_of thread s)) (reverse events))
      (record s { turns = map (complete_row intent turn "" status) s.turns; events = events })).1

complete-completed :
    (read_body : String → Option String × Option String) (intent : String) (id : ℕ)
    (thread turn status body : String) (s : Store)
    → read_body body ≡ (some turn, some status)
    → (status == "inProgress") ≡ false
    → complete read_body id thread turn status body s ≡ completed intent id thread turn status s
unfolding complete append_event update_provider_status
complete-completed read_body intent id thread turn status body s read fresh =
    rw (complete, append_event, read) (ground arith)

-- An answer handled before any completion of the turn is known, and after one.
resolved-early :
    (intent turn answered status : String) (s : Store)
    → last_event (completes turn) s ≡ none
    → resolve_turn_intent intent (some turn) answered s
      ≡ record s { turns = map (resolve_row intent turn answered status answered) s.turns }
unfolding resolve_turn_intent resolved_status
resolved-early intent turn answered status s unseen = rw unseen refl

resolved-late :
    (intent turn answered status : String) (e : EventRow) (s : Store)
    → last_event (completes turn) s ≡ some e
    → e.text ≡ some status
    → resolve_turn_intent intent (some turn) answered s
      ≡ record s { turns = map (resolve_row intent turn answered status status) s.turns }
unfolding resolve_turn_intent resolved_status
resolved-late intent turn answered status e s seen text = rw (seen, text) refl

-- A turn is asked for, and its identifier is not known yet: no row has it, and no completion of it was
-- written. Then the store is the same whether the answer that names the turn is handled first, or the
-- completion of the turn, unless this claims that the turn is in progress.
pub completion_either_way :
    (read_body : String → Option String × Option String) (intent answered : String) (id : ℕ)
    (thread turn status body : String) (s : Store)
    → read_body body ≡ (some turn, some status)
    → (status == "inProgress") ≡ false
    → any (names_turn turn) s.turns ≡ false
    → last_event (completes turn) s ≡ none
    → answer_first read_body intent answered id thread turn status body s
      ≡ completion_first read_body intent answered id thread turn status body s
completion_either_way read_body intent answered id thread turn status body s read fresh new unseen =
    let e = completion id thread turn status s in
    let events = s.events ++ e ∷ [] in
    let o = find (starts_on (thread_of thread s)) (reverse events) in
    let quiet : Store = record s {
      turns = map (complete_row intent turn "" status) s.turns;
      events = events;
    } in
    let seen : last_event (completes turn) (conclude_status thread status turn o quiet).1 ≡ some e =
      rw (conclude-events intent turn "" status thread o quiet)
        (last_event-snoc (completes turn) s.events e (rw (==_refl turn) refl)) in
    let answered_first =
      ap (λ (r : Store). complete read_body id thread turn status body r)
        (resolved-early intent turn answered status s unseen)
      ∙ complete-completed read_body intent id thread turn status body
          (record s { turns = map (resolve_row intent turn answered status answered) s.turns }) read
          fresh in
    let swapped =
      ap
        (λ (l : List TurnRow).
          (conclude_status thread status turn o (record quiet { turns = l })).1)
        (rows_same intent turn answered status s.turns new fresh) in
    let completed_first =
      ap (λ (r : Store). resolve_turn_intent intent (some turn) answered r)
        (complete-completed read_body intent id thread turn status body s read fresh)
      ∙ resolved-late intent turn answered status e (conclude_status thread status turn o quiet).1
          seen refl in
    answered_first
    ∙ swapped
    ∙ conclude-resolve intent turn "" status thread o quiet
    ∙ sym completed_first
