-- ===== src/Context/Cut.antt =====
-- The cutting of a retrieval (`finish` of crates/hub-context/src/lib.rs): its loop, and what is left.
use text.Mathlib.TextLemmas.{length-nil, length-cons}
use localoud_ai.Base.{
  ℕ, zero, suc, ◌+◌, ◌-◌, ◌≤◌, ◌<◌, ◌≡◌, ◌≢◌, subst, String, count, List, Option-cases, true, false,
  inl, inr, ltb, ◌||◌, Bool-cases, ok, err, >>=-eq-ok, ok_injective, arith, Result-cases,
}
use localoud_ai.Base.Text.{is_nil, first_chars}
use localoud_ai.Core.{TaskId, ProjectId, ContextRetrieval}
use localoud_ai.Context.{Outside, ContextRequest, RetrievalResult, out_of_fuel, estimate_tokens}
use localoud_ai.Context.Store.{Rows, capsule, retrievals, total, commit_retrieval}
use localoud_ai.Context.Broker.{cut, shorten, finish, initial_result, row_of}

first_chars-count : (n : ℕ) (s : String) → count (first_chars n s) ≤ n
unfolding first_chars
first_chars-count zero s = omega (arith, length-nil)
first_chars-count (suc n) String.[] = omega (arith, length-nil)
first_chars-count (suc n) (String.◌∷◌ c s) =
    omega (arith, length-cons c (first_chars n s), first_chars-count n s)

count_positive : (s : String) → is_nil s ≡ false → 0 < count s
unfolding is_nil
count_positive String.[] h = cc
count_positive (String.◌∷◌ c s) h = omega (arith, length-cons c s)

cut-count : (s : String) → is_nil s ≡ false → count (cut s) < count s
unfolding cut
cut-count s h = omega (arith, first_chars-count (count s - 33) s, count_positive s h)

module _ (out : Outside) where
  shorten-ne-out_of_fuel :
      (fuel budget : ℕ) (r : RetrievalResult)
      → count r.text < fuel
      → shorten out fuel budget r ≢ err out_of_fuel
  unfolding shorten
  shorten-ne-out_of_fuel zero budget r enough = absurd (omega (arith, enough))
  shorten-ne-out_of_fuel (suc fuel) budget r enough =
      elim (Bool-cases (ltb budget (estimate_tokens (out.result_text r)))) [
        | inr fits ↦ rw fits (λ e. cc)
        | inl large ↦ elim (Bool-cases (is_nil r.text)) [
          | inl empty ↦ rw (large, empty) (λ e. cc)
          | inr more ↦
              rw (large, more)
                (shorten-ne-out_of_fuel fuel budget
                  (record r { truncated = true; text = cut r.text })
                  (omega (arith, enough, cut-count r.text more)))
        ]
      ]

  shorten-fits :
      (fuel budget : ℕ) (r got : RetrievalResult)
      → shorten out fuel budget r ≡ ok got
      → estimate_tokens (out.result_text got) ≤ budget
  unfolding shorten
  shorten-fits zero budget r got h = cc
  shorten-fits (suc fuel) budget r got h =
      elim (Bool-cases (ltb budget (estimate_tokens (out.result_text r)))) [
        | inr fits ↦
            subst (λ g. estimate_tokens (out.result_text g) ≤ budget)
              (ok_injective (rw (fits, shorten) at h)) (ground arith)
        | inl large ↦ elim (Bool-cases (is_nil r.text)) [
          | inl empty ↦ let bad = rw (large, empty, shorten) at h in cc
          | inr more ↦
              shorten-fits fuel budget (record r { truncated = true; text = cut r.text }) got
                (rw (large, more, shorten) at h)
        ]
      ]

commit_retrieval-ne-out_of_fuel :
    (r : ContextRetrieval) (rows : Rows) → commit_retrieval r rows ≢ err out_of_fuel
unfolding commit_retrieval
commit_retrieval-ne-out_of_fuel r rows = elim (Option-cases (capsule r.task_id rows)) [
  | inl missing ↦ rw (missing, commit_retrieval) (λ h. cc)
  | inr (found, e) ↦
      rw (e, commit_retrieval)
        (elim (Bool-cases (
          ltb found.0.budget.max_single_retrieval_tokens r.token_budget
          || ltb r.token_budget r.token_estimate
          || ltb found.0.budget.max_total_tokens
              (found.1 + total (retrievals r.task_id rows) + r.token_estimate))) [
                | inl over ↦ rw over (λ h. cc)
                | inr fine ↦ rw fine (λ h. cc)
              ])
]

module _ (out : Outside) (task : TaskId) (project : ProjectId) (fresh : ℕ) where
  -- The result of a retrieval is estimated at no more than the budget of the request.
  pub finish-fits :
      (request : ContextRequest) (entries : List (String × String)) (rows : Rows)
      (got : RetrievalResult × Rows)
      → finish out task project fresh request entries rows ≡ ok got
      → estimate_tokens (out.result_text got.0) ≤ request.token_budget
  unfolding finish
  finish-fits request entries rows got h =
      let start = initial_result out request entries in
      let (r, e, h1) =
        >>=-eq-ok (shorten out (suc (count start.text) + 1) request.token_budget start) _ h in
      let (rows', _, h2) =
        >>=-eq-ok (commit_retrieval (row_of out task fresh request r) rows) _ h1 in
      subst (λ g. estimate_tokens (out.result_text g.0) ≤ request.token_budget) (ok_injective h2)
        (shorten-fits out (suc (count start.text) + 1) request.token_budget start r e)

  -- The loop that cuts a result ends by itself: `finish` gives an answer of the code.
  pub finish-ne-out_of_fuel :
      (request : ContextRequest) (entries : List (String × String)) (rows : Rows)
      → finish out task project fresh request entries rows ≢ err out_of_fuel
  unfolding finish
  finish-ne-out_of_fuel request entries rows =
      let start = initial_result out request entries in
      let fuel = suc (count start.text) + 1 in
      let ends = shorten-ne-out_of_fuel out fuel request.token_budget start (omega arith) in
      elim (Result-cases (shorten out fuel request.token_budget start)) [
        | inr (e, s) ↦ rw s (λ h. ends (cc))
        | inl (r, s) ↦
            elim (Result-cases (commit_retrieval (row_of out task fresh request r) rows)) [
              | inl (rows', c) ↦ rw s (rw c (λ h. cc))
              | inr (e, c) ↦ rw s (
                  rw c (λ h.
                    let same : e ≡ out_of_fuel = cc in
                    commit_retrieval-ne-out_of_fuel (row_of out task fresh request r) rows
                      (rw (← same) c)))
            ]
      ]
