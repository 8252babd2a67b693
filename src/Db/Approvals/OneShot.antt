-- ===== src/Db/Approvals/OneShot.antt =====
-- How often a sequence of calls on the table of tool approvals (crates/hub-db/src/lib.rs) spends an
-- approval.
use localoud_ai.Base.{
  ℕ, ◌+◌, ◌≤◌, ◌≡◌, refl, sym, ap, subst, String, List, [], ◌∷◌, Option, none, some, Bool, true,
  false, ◌&&◌, ◌==◌, nat_eq, string_eq, ==_sound, Bool-cases, find-In, if◌then◌else◌, Result,
  Result-cases, ok, err, Distinct, Distinct-snoc, arith, inl, inr, ◌∙◌, map-append,
}
use localoud_ai.Core.{HubThreadId}
use localoud_ai.Db.{update_where, row_with, row_with-In, row_with-none, keys, keys-map}
use localoud_ai.Db.Approvals.{
  ToolApproval, ApprovalStatus, pending, approved, denied, consumed, is_approved, set_status,
  verdict, undecided, spendable, matches, create_tool_approval, tool_approval, decide_tool_approval,
  consume_tool_approval,
}
use localoud_ai.Db.Approvals.Life.{
  Moves, stay, created, decided, spent, Call, create, decide, consume, serve, key, key-update,
  IsKeyed, status_of, status_of-update, create-eq-ok, consume-eq-ok, serve-Moves,
}

abbrev is_ok : {E A : Type 0} → Result E A → Bool
is_ok (ok a) = true
is_ok (err e) = false

approved_only : (s : ApprovalStatus) → is_approved s ≡ true → s ≡ approved
approved_only pending h = cc
approved_only approved h = refl
approved_only denied h = cc
approved_only consumed h = cc

abbrev left : Option ApprovalStatus → ℕ
left (some consumed) = 0
left _ = 1

Moves-left : {s t : Option ApprovalStatus} → Moves s t → left t ≤ left s
Moves-left stay = omega arith
Moves-left created = omega arith
Moves-left (decided true) = omega arith
Moves-left (decided false) = omega arith
Moves-left spent = omega arith

module _ {Value : Type 0} where
  -- Whether a call spends the approval with an identifier.
  unfoldable pub spends : String → Call Value → List (ToolApproval Value) → Bool
  spends id (consume id' thread turn_id digest) rows =
      id' == id && is_ok (consume_tool_approval id' thread turn_id digest rows)
  spends id _ rows = false

  -- How often a sequence of calls spends the approval.
  unfoldable pub times_spent :
      (HubThreadId → Bool) → String → List (Call Value) → List (ToolApproval Value) → ℕ
  times_spent has_thread id [] rows = 0
  times_spent has_thread id (c ∷ cs) rows =
      (if spends id c rows then 1 else 0) + times_spent has_thread id cs (serve has_thread c rows)

  IsKeyed-update :
      (p : ToolApproval Value → Bool) (s : ApprovalStatus) (rows : List (ToolApproval Value))
      → IsKeyed rows
      → IsKeyed (update_where p (set_status s) rows)
  IsKeyed-update p s rows d =
      subst Distinct
        (sym (keys-map key (λ r. if p r then set_status s r else r) rows (key-update p s))) d

  serve-IsKeyed :
      (has_thread : HubThreadId → Bool) (c : Call Value) (rows : List (ToolApproval Value))
      → IsKeyed rows
      → IsKeyed (serve has_thread c rows)
  unfolding serve decide_tool_approval
  serve-IsKeyed has_thread (create r) rows d =
      elim (Result-cases (create_tool_approval has_thread r rows)) [
        | inr (e, h) ↦ rw h d
        | inl (rows', h) ↦
            let (_, new, same) = create-eq-ok has_thread r rows rows' h in
            rw (h, ← same)
              (subst Distinct (sym (map-append key rows (r ∷ [])))
                (Distinct-snoc (keys key rows) r.id d (row_with-none key rows r.id new)))
      ]
  serve-IsKeyed has_thread (decide id approve) rows d =
      IsKeyed-update (undecided id) (verdict approve) rows d
  serve-IsKeyed has_thread (consume id thread turn_id digest) rows d =
      elim (Result-cases (consume_tool_approval id thread turn_id digest rows)) [
        | inr (e, h) ↦ rw h d
        | inl (got, h) ↦
            let (r, _, same) = consume-eq-ok id thread turn_id digest rows got h in
            rw (h, ← same) (IsKeyed-update (spendable id) consumed rows d)
      ]

  -- A call that spends an approval finds it approved and leaves it consumed.
  spends_lem :
      (has_thread : HubThreadId → Bool) (id : String) (c : Call Value)
      (rows : List (ToolApproval Value))
      → IsKeyed rows
      → spends id c rows ≡ true
      → (status_of id rows ≡ some approved)
        × (status_of id (serve has_thread c rows) ≡ some consumed)
  unfolding spends serve tool_approval
  spends_lem has_thread id (create r) rows d h = cc
  spends_lem has_thread id (decide id' approve) rows d h = cc
  spends_lem has_thread id (consume id' thread turn_id digest) rows d h =
      let same_id = ==_sound id' id (ground arith) in
      elim (Result-cases (consume_tool_approval id' thread turn_id digest rows)) [
        | inr (e, q) ↦ let bad = rw (q, spends) at h in ground arith
        | inl (got, q) ↦
            let (r, f, same) = consume-eq-ok id' thread turn_id digest rows got q in
            let (m, tests) = find-In (matches id' thread turn_id digest) rows f in
            let named : r.id ≡ id = ==_sound r.id id' (ground arith) ∙ same_id in
            let found : row_with key id rows ≡ some r =
              subst (λ i. row_with key i rows ≡ some r) named (row_with-In key rows r d m) in
            let ready : is_approved r.status ≡ true = ground arith in
            let takes : spendable id' r ≡ true = ground arith in
            (
              rw found (ap some (approved_only r.status ready)),
              rw (q, ← same)
                  (status_of-update (spendable id') consumed id rows ∙ rw (found, takes) refl),
            )
      ]

  times_spent-left :
      (has_thread : HubThreadId → Bool) (id : String) (cs : List (Call Value))
      (rows : List (ToolApproval Value))
      → IsKeyed rows
      → times_spent has_thread id cs rows ≤ left (status_of id rows)
  unfolding times_spent
  times_spent-left has_thread id [] rows d = omega arith
  times_spent-left has_thread id (c ∷ cs) rows d =
      let rest =
        times_spent-left has_thread id cs (serve has_thread c rows)
          (serve-IsKeyed has_thread c rows d) in
      let less = Moves-left (serve-Moves has_thread c id rows) in
      elim (Bool-cases (spends id c rows)) [
        | inr fails ↦ rw fails (omega (arith, rest, less))
        | inl spending ↦
            let (before, after) = spends_lem has_thread id c rows d spending in
            rw (spending, before) (omega (arith, (rw after at rest)))
      ]

  -- Whatever calls are made on a table without repeated identifiers, and in whatever order, an
  -- approval is spent at most once.
  pub times_spent-le :
      (has_thread : HubThreadId → Bool) (id : String) (cs : List (Call Value))
      (rows : List (ToolApproval Value))
      → IsKeyed rows
      → times_spent has_thread id cs rows ≤ 1
  times_spent-le has_thread id cs rows d =
      omega (arith, times_spent-left has_thread id cs rows d, capped (status_of id rows))
    where
      capped : (s : Option ApprovalStatus) → left s ≤ 1
      capped none = omega arith
      capped (some pending) = omega arith
      capped (some approved) = omega arith
      capped (some denied) = omega arith
      capped (some consumed) = omega arith
