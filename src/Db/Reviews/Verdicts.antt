-- ===== src/Db/Reviews/Verdicts.antt =====
-- What stands in the table of reviews (crates/hub-db/src/lib.rs).
use localoud_ai.Base.{
  ◌≡◌, ◌⊎◌, refl, sym, subst, inl, inr, String, List, [], ◌∷◌, ◌++◌, Bool, true, false, not, ◌&&◌,
  ◌==◌, nat_eq, string_eq, Bool-cases, Result, Result-cases, ok, err, >>-eq-ok, ok_injective,
  bail_if, bail_if-eq-ok, In, In-append_left, All, All-append,
}
use localoud_ai.Core.{TaskId, HubThreadId}
use localoud_ai.Db.{update_where, In-update_other}
use localoud_ai.Db.Reviews.{
  ReviewRun, not_pending, same_session, constraint_failed, create_review_run, finish_review_run,
  awaits, conclude, is_verdict,
}

pub data Call (Value : Type 0) : Type 0 where
  create : ReviewRun Value → Call Value
  -- identifier, hash of the artifact, verdict and body
  finish : String → String → String → Value → Call Value

abbrev or_keep : {E A : Type 0} → List A → Result E (List A) → List A
or_keep rows (ok rows') = rows'
or_keep rows (err e) = rows

and_false : (b c : Bool) → (b && c && false) ≡ false
and_false true true = refl
and_false true false = refl
and_false false c = refl

module _ {Value : Type 0} where
  unfoldable pub serve :
      (TaskId → Bool)
      → (HubThreadId → Bool)
      → Call Value
      → List (ReviewRun Value)
      → List (ReviewRun Value)
  unfolding create_review_run finish_review_run
  serve has_task has_thread (create r) rows =
      or_keep rows (create_review_run has_task has_thread r rows)
  serve has_task has_thread (finish id artifact_hash verdict body) rows =
      (finish_review_run id artifact_hash verdict body rows).1

  -- The reviewer is not the executor.
  abbrev pub IsIndependent : ReviewRun Value → Type 0
  IsIndependent r = (r.executor_thread_id == r.reviewer_thread_id) ≡ false

  create-eq-ok :
      (has_task : TaskId → Bool) (has_thread : HubThreadId → Bool) (r : ReviewRun Value)
      (rows rows' : List (ReviewRun Value))
      → create_review_run has_task has_thread r rows ≡ ok rows'
      → IsIndependent r × (rows ++ r ∷ [] ≡ rows')
  unfolding create_review_run
  create-eq-ok has_task has_thread r rows rows' h =
      let (_, h1) = >>-eq-ok (bail_if (not (r.verdict == "pending")) not_pending) _ h in
      let (e, h2) =
        >>-eq-ok (bail_if (r.executor_thread_id == r.reviewer_thread_id) same_session) _ h1 in
      let (_, h3) = >>-eq-ok (bail_if _ constraint_failed) _ h2 in
      (bail_if-eq-ok _ same_session e, ok_injective h3)

  All-conclude :
      (p : ReviewRun Value → Bool) (verdict : String) (body : Value) (rows : List (ReviewRun Value))
      → All IsIndependent rows
      → All IsIndependent (update_where p (conclude verdict body) rows)
  All-conclude p verdict body [] hs = tt
  All-conclude p verdict body (r ∷ rows) (h, hs) = elim (Bool-cases (p r)) [
    | inl y ↦ rw y (h, All-conclude p verdict body rows hs)
    | inr n ↦ rw n (h, All-conclude p verdict body rows hs)
  ]

  abbrev Stands : List (ReviewRun Value) → List (ReviewRun Value) → Type 0
  Stands rows rows' =
      ((r : ReviewRun Value) → In r rows → (r.verdict == "pending") ≡ false → In r rows')
      × All IsIndependent rows'

  finish-rows :
      (id artifact_hash verdict : String) (body : Value) (rows : List (ReviewRun Value))
      → ((finish_review_run id artifact_hash verdict body rows).1 ≡ rows)
        ⊎ ((finish_review_run id artifact_hash verdict body rows).1
            ≡ update_where (awaits id artifact_hash) (conclude verdict body) rows)
  unfolding finish_review_run
  finish-rows id artifact_hash verdict body rows = elim (Bool-cases (not (is_verdict verdict))) [
    | inl bad ↦ inl (rw bad refl)
    | inr good ↦ inr (rw good refl)
  ]

  -- A review that has its verdict stays as it is, whatever review is created or finished, and no review
  -- comes to be of a session by itself.
  pub serve_stands :
      (has_task : TaskId → Bool) (has_thread : HubThreadId → Bool) (c : Call Value)
      (rows : List (ReviewRun Value))
      → All IsIndependent rows
      → ((r : ReviewRun Value)
          → In r rows
          → (r.verdict == "pending") ≡ false
          → In r (serve has_task has_thread c rows))
        × All IsIndependent (serve has_task has_thread c rows)
  unfolding serve
  serve_stands has_task has_thread (create x) rows hs =
      elim (Result-cases (create_review_run has_task has_thread x rows)) [
        | inr (e, h) ↦ rw h (λ r m v. m, hs)
        | inl (rows', h) ↦
            let (alone, e) = create-eq-ok has_task has_thread x rows rows' h in
            rw (h, ← e)
              (
                λ r m v. In-append_left r rows (x ∷ []) m,
                All-append IsIndependent rows (x ∷ []) hs (alone, tt),
              )
      ]
  serve_stands has_task has_thread (finish id artifact_hash verdict body) rows hs =
      elim (finish-rows id artifact_hash verdict body rows) [
        | inl e ↦ subst (Stands rows) (sym e) (λ r m v. m, hs)
        | inr e ↦ subst (Stands rows) (sym e) (
          λ r m v.
              In-update_other (awaits id artifact_hash) (conclude verdict body) r rows m
                (rw v (and_false (r.id == id) (r.artifact_hash == artifact_hash))),
          All-conclude (awaits id artifact_hash) verdict body rows hs,
        )
      ]
