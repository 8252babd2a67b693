-- ===== src/Db/Approvals/Life.antt =====
-- The life of the status of an approval: what a call on the table of tool approvals
-- (crates/hub-db/src/lib.rs) makes of it.
use localoud_ai.Base.{
  ◌≡◌, refl, sym, subst, String, List, [], ◌∷◌, ◌++◌, Option, none, some, Option-cases, Bool, true,
  false, not, ◌||◌, ◌==◌, nat_eq, string_eq, Bool-cases, find, any, if◌then◌else◌, Result,
  Result-cases, ok, err, >>=-eq-ok, >>-eq-ok, ok_injective, bail_if, bail_if-eq-ok, ok_or,
  ok_or-eq-ok, Distinct, arith, inl, inr, len,
}
use localoud_ai.Base.Text.{is_blank, all_chars, is_ascii_hexdigit}
use localoud_ai.Core.{HubThreadId}
use localoud_ai.Db.{
  update_where, affected, row_with, row_with-map, row_with-snoc, row_with-append, keys, if_found,
}
use localoud_ai.Db.Approvals.{
  ToolApproval, ApprovalStatus, pending, approved, denied, consumed, not_pending, bad_identity,
  constraint_failed, not_approved, already_consumed, is_pending, is_approved, set_status, verdict,
  same_call, has_id, undecided, spendable, matches, create_tool_approval, tool_approval,
  decide_tool_approval, consume_tool_approval,
}

-- The life of an approval.
pub data Moves : Option ApprovalStatus → Option ApprovalStatus → Type 0 where
  stay : {s : Option ApprovalStatus} → Moves s s
  created : Moves none (some pending)
  decided : (approve : Bool) → Moves (some pending) (some (verdict approve))
  spent : Moves (some approved) (some consumed)

pub data Call (Value : Type 0) : Type 0 where
  create : ToolApproval Value → Call Value
  decide : String → Bool → Call Value
  consume : String → HubThreadId → String → String → Call Value

abbrev or_keep : {E A : Type 0} → List A → Result E (List A) → List A
or_keep rows (ok rows') = rows'
or_keep rows (err e) = rows

module _ {Value : Type 0} where
  abbrev rows_of :
      {E : Type 0}
      → List (ToolApproval Value)
      → Result E (Value × List (ToolApproval Value))
      → List (ToolApproval Value)
  rows_of rows (ok got) = got.1
  rows_of rows (err e) = rows

  -- The rows after a call.
  unfoldable pub serve :
      (HubThreadId → Bool) → Call Value → List (ToolApproval Value) → List (ToolApproval Value)
  serve has_thread (create r) rows = or_keep rows (create_tool_approval has_thread r rows)
  serve has_thread (decide id approve) rows = (decide_tool_approval id approve rows).1
  serve has_thread (consume id thread turn_id digest) rows =
      rows_of rows (consume_tool_approval id thread turn_id digest rows)

  abbrev pub key : ToolApproval Value → String
  key r = r.id

  abbrev pub IsKeyed : List (ToolApproval Value) → Type 0
  IsKeyed rows = Distinct (keys key rows)

  -- The status of an approval.
  abbrev pub status_of : String → List (ToolApproval Value) → Option ApprovalStatus
  status_of id rows = if_found (λ (r : ToolApproval Value). r.status) (tool_approval id rows)

  pub key-update :
      (p : ToolApproval Value → Bool) (s : ApprovalStatus) (r : ToolApproval Value)
      → key (if p r then set_status s r else r) ≡ key r
  key-update p s r = elim (Bool-cases (p r)) [ inl e ↦ rw e refl | inr e ↦ rw e refl ]

  -- A row after an update has the status that the update gives it.
  pub status_of-update :
      (p : ToolApproval Value → Bool) (s : ApprovalStatus) (id : String)
      (rows : List (ToolApproval Value))
      → status_of id (update_where p (set_status s) rows)
        ≡ if_found
            (λ (r : ToolApproval Value). (if p r then set_status s r else r).status)
            (tool_approval id rows)
  unfolding tool_approval
  status_of-update p s id rows =
      rw (row_with-map key id (λ r. if p r then set_status s r else r) rows (key-update p s))
        (fused (row_with key id rows))
    where
      fused :
          (o : Option (ToolApproval Value))
          → if_found
              (λ (r : ToolApproval Value). r.status)
              (if_found (λ r. if p r then set_status s r else r) o)
            ≡ if_found (λ (r : ToolApproval Value). (if p r then set_status s r else r).status) o
      fused none = refl
      fused (some r) = refl

  -- What an update that only changes rows of one status does to the status of an approval.
  Moves-update :
      (p : ToolApproval Value → Bool) (old new : ApprovalStatus)
      → ((r : ToolApproval Value) → p r ≡ true → r.status ≡ old)
      → Moves (some old) (some new)
      → (o : Option (ToolApproval Value))
      → Moves
          (if_found (λ (r : ToolApproval Value). r.status) o)
          (if_found (λ (r : ToolApproval Value). (if p r then set_status new r else r).status) o)
  Moves-update p old new only move none = stay
  Moves-update p old new only move (some r) = elim (Bool-cases (p r)) [
    | inl passes ↦ rw (passes, only r passes) move
    | inr fails ↦ rw fails stay
  ]

  decide-Moves :
      (id id' : String) (approve : Bool) (rows : List (ToolApproval Value))
      → Moves (status_of id rows) (status_of id (decide_tool_approval id' approve rows).1)
  unfolding decide_tool_approval
  decide-Moves id id' approve rows =
      subst (Moves (status_of id rows))
        (sym (status_of-update (undecided id') (verdict approve) id rows))
        (Moves-update (undecided id') pending (verdict approve)
          (λ r h. only r.status (ground (arith, h))) (decided approve) (tool_approval id rows))
    where
      only : (s : ApprovalStatus) → is_pending s ≡ true → s ≡ pending
      only pending h = refl
      only approved h = cc
      only denied h = cc
      only consumed h = cc

  spend-Moves :
      (id id' : String) (rows : List (ToolApproval Value))
      → Moves
          (status_of id rows)
          (status_of id (update_where (spendable id') (set_status consumed) rows))
  spend-Moves id id' rows =
      subst (Moves (status_of id rows)) (sym (status_of-update (spendable id') consumed id rows)) (
        Moves-update (spendable id') approved consumed (λ r h. only r.status (ground (arith, h)))
          spent (tool_approval id rows))
    where
      only : (s : ApprovalStatus) → is_approved s ≡ true → s ≡ approved
      only pending h = cc
      only approved h = refl
      only denied h = cc
      only consumed h = cc

  find-none :
      (p : ToolApproval Value → Bool) (rows : List (ToolApproval Value))
      → any p rows ≡ false
      → find p rows ≡ none
  find-none p [] h = refl
  find-none p (r ∷ rows) h = elim (Bool-cases (p r)) [
    | inl passes ↦ let bad = rw passes at h in cc
    | inr fails ↦ rw fails (find-none p rows (rw fails at h))
  ]

  -- What the insertion of an approval was let through for.
  pub create-eq-ok :
      (has_thread : HubThreadId → Bool) (r : ToolApproval Value)
      (rows rows' : List (ToolApproval Value))
      → create_tool_approval has_thread r rows ≡ ok rows'
      → (is_pending r.status ≡ true) × (row_with key r.id rows ≡ none) × (rows ++ r ∷ [] ≡ rows')
  unfolding create_tool_approval
  create-eq-ok has_thread r rows rows' h =
      let (a, h1) = >>-eq-ok (bail_if (not (is_pending r.status)) not_pending) _ h in
      let (_, h2) =
        >>-eq-ok
          (bail_if
            (is_blank r.id
              || is_blank r.turn_id
              || not (len r.digest == 64)
              || not (all_chars is_ascii_hexdigit r.digest))
            bad_identity)
          _ h1 in
      let (c, h3) =
        >>-eq-ok
          (bail_if
            (any (has_id r.id) rows || any (same_call r) rows || not (has_thread r.thread_id))
            constraint_failed)
          _ h2 in
      let a' = bail_if-eq-ok _ _ a in
      let c' = bail_if-eq-ok _ _ c in
      (ground arith, find-none (has_id r.id) rows (ground arith), ok_injective h3)

  snoc-Moves :
      (id : String) (r : ToolApproval Value) (rows : List (ToolApproval Value))
      → is_pending r.status ≡ true
      → Moves (status_of id rows) (status_of id (rows ++ r ∷ []))
  unfolding tool_approval
  snoc-Moves id r rows fresh = elim (Option-cases (row_with key id rows)) [
    | inr (old, e) ↦ rw (e, row_with-append key id rows (r ∷ []) e) stay
    | inl e ↦ elim (Bool-cases (r.id == id)) [
      | inl mine ↦ rw (e, row_with-snoc key id rows r e, mine) (waiting r.status fresh)
      | inr other ↦ rw (e, row_with-snoc key id rows r e, other) stay
    ]
  ]
    where
      waiting : (s : ApprovalStatus) → is_pending s ≡ true → Moves none (some s)
      waiting pending h = created
      waiting approved h = cc
      waiting denied h = cc
      waiting consumed h = cc

  pub consume-eq-ok :
      (id : String) (thread : HubThreadId) (turn_id digest : String)
      (rows : List (ToolApproval Value)) (got : Value × List (ToolApproval Value))
      → consume_tool_approval id thread turn_id digest rows ≡ ok got
      → (r : ToolApproval Value) × (find (matches id thread turn_id digest) rows ≡ some r)
        × ((r.request, update_where (spendable id) (set_status consumed) rows) ≡ got)
  unfolding consume_tool_approval
  consume-eq-ok id thread turn_id digest rows got h =
      let (r, f, h1) =
        >>=-eq-ok (ok_or (find (matches id thread turn_id digest) rows) not_approved) _ h in
      let (_, h2) =
        >>-eq-ok (bail_if (not (affected (spendable id) rows == 1)) already_consumed) _ h1 in
      (r, ok_or-eq-ok _ not_approved f, ok_injective h2)

  -- A call moves the status of every approval along its life, or leaves it.
  pub serve-Moves :
      (has_thread : HubThreadId → Bool) (c : Call Value) (id : String)
      (rows : List (ToolApproval Value))
      → Moves (status_of id rows) (status_of id (serve has_thread c rows))
  unfolding serve
  serve-Moves has_thread (create r) id rows =
      elim (Result-cases (create_tool_approval has_thread r rows)) [
        | inr (e, h) ↦ rw h stay
        | inl (rows', h) ↦
            let (fresh, _, same) = create-eq-ok has_thread r rows rows' h in
            rw (h, ← same) (snoc-Moves id r rows fresh)
      ]
  serve-Moves has_thread (decide id' approve) id rows = decide-Moves id id' approve rows
  serve-Moves has_thread (consume id' thread turn_id digest) id rows =
      elim (Result-cases (consume_tool_approval id' thread turn_id digest rows)) [
        | inr (e, h) ↦ rw h stay
        | inl (got, h) ↦
            let (r, _, same) = consume-eq-ok id' thread turn_id digest rows got h in
            rw (h, ← same) (spend-Moves id id' rows)
      ]
