-- ===== src/Context/Budget.antt =====
-- The rows of a task's retrievals against the budget of its context, after one retrieval of `Broker`
-- (crates/hub-context/src/lib.rs).
use localoud_ai.Base.{
  ℕ, ◌+◌, ◌≤◌, ◌≡◌, refl, ap, subst, String, List, [], ◌∷◌, ◌++◌, some, Bool, true, false, ◌||◌,
  inl, inr, ltb, ◌==◌, nat_eq, ==_sound, Bool-cases, Option-cases, keep, if◌then◌else◌, Result, ok,
  err, >>-eq-ok, >>=-eq-ok, bail_if, bail_if-eq-ok, ok_injective, ok_or, arith,
}
use localoud_ai.Core.{ProjectId, TaskId, ContextCapsule, ContextRetrieval}
use localoud_ai.Context.{
  retrieval_exhausted, bad_request, single_retrieval_exceeded, remaining_exceeded, memory_rejected,
  org_brain_not_configured, Outside, ContextRequest, RetrievalResult, ContextError,
}
use localoud_ai.Context.Store.{
  Rows, capsule, retrievals, total, record_retrieval_denial, commit_retrieval,
}
use localoud_ai.Context.Broker.{
  is_org_brain, shorten, finish, lift, entries_of, inspect, retrieve, retrieve_async,
  retrieve_inner, retrieve_memory, conclude,
}

-- What a task has got, the first capsule and the retrievals, is within the total of its budget.
abbrev pub IsWithin : TaskId → Rows → Type 0
IsWithin task rows =
    (c : ContextCapsule) (initial : ℕ)
    → capsule task rows ≡ some (c, initial)
    → initial + total (retrievals task rows) ≤ c.budget.max_total_tokens

keep-append :
    (p : ContextRetrieval → Bool) (xs ys : List ContextRetrieval)
    → keep p (xs ++ ys) ≡ keep p xs ++ keep p ys
keep-append p [] ys = refl
keep-append p (x ∷ xs) ys = elim (Bool-cases (p x)) [
  | inl e ↦ rw e (ap (λ l. x ∷ l) (keep-append p xs ys))
  | inr e ↦ rw e (keep-append p xs ys)
]

total-append : (xs ys : List ContextRetrieval) → total (xs ++ ys) ≡ total xs + total ys
unfolding total
total-append [] ys = omega arith
total-append (x ∷ xs) ys = omega (arith, total-append xs ys)

-- What one more row adds to the total of a task.
total-snoc :
    (task : TaskId) (r : ContextRetrieval) (rows : Rows)
    → total (retrievals task (record rows { retrieved = rows.retrieved ++ r ∷ [] }))
      ≡ total (retrievals task rows) + (if r.task_id == task then r.token_estimate else 0)
unfolding retrievals total
total-snoc task r rows = rw (keep-append (λ x. x.task_id == task) rows.retrieved (r ∷ [])) (
    rw
      (total-append (keep (λ x. x.task_id == task) rows.retrieved)
        (keep (λ x. x.task_id == task) (r ∷ [])))
      (elim (Bool-cases (r.task_id == task)) [
        | inl e ↦ rw e (omega arith)
        | inr e ↦ rw e (omega arith)
      ]))

-- What the database checks of a retrieval that it takes.
commit_retrieval-eq-ok :
    (r : ContextRetrieval) (rows rows' : Rows)
    → commit_retrieval r rows ≡ ok rows'
    → (found : ContextCapsule × ℕ) × (capsule r.task_id rows ≡ some found)
      × (r.token_estimate ≤ r.token_budget)
      × (found.1 + total (retrievals r.task_id rows) + r.token_estimate
          ≤ found.0.budget.max_total_tokens)
      × (record rows { retrieved = rows.retrieved ++ r ∷ [] } ≡ rows')
unfolding commit_retrieval
commit_retrieval-eq-ok r rows rows' h = elim (Option-cases (capsule r.task_id rows)) [
  | inl missing ↦ let bad = rw (missing, commit_retrieval) at h in cc
  | inr (found, e) ↦
      let (fits, done) =
        >>-eq-ok
          (bail_if
            (ltb found.0.budget.max_single_retrieval_tokens r.token_budget
              || ltb r.token_budget r.token_estimate
              || ltb found.0.budget.max_total_tokens
                  (found.1 + total (retrievals r.task_id rows) + r.token_estimate))
            retrieval_exhausted)
          _ (rw (e, commit_retrieval) at h) in
      let tests = bail_if-eq-ok _ _ fits in
      (found, e, ground arith, ground arith, ok_injective done)
]

-- A retrieval that the database takes leaves every task within its budget that was within it.
pub commit_retrieval-IsWithin :
    (task : TaskId) (r : ContextRetrieval) (rows rows' : Rows)
    → commit_retrieval r rows ≡ ok rows'
    → IsWithin task rows
    → IsWithin task rows'
unfolding capsule
commit_retrieval-IsWithin task r rows rows' h within =
    let (found, e, small, fits, done) = commit_retrieval-eq-ok r rows rows' h in
    subst (IsWithin task) done (λ c initial there. elim (Bool-cases (r.task_id == task)) [
      | inl mine ↦
          let same = ==_sound r.task_id task mine in
          let fits' =
            subst
              (λ i.
                (found.1 + total (retrievals i rows) + r.token_estimate
                  ≤ found.0.budget.max_total_tokens))
              same fits in
          let e' : capsule task rows ≡ some found =
            subst (λ i. capsule i rows ≡ some found) same e in
          let pair : found ≡ (c, initial) = cc in
          let fits'' =
            subst
              (λ p.
                (p.1 + total (retrievals task rows) + r.token_estimate
                  ≤ p.0.budget.max_total_tokens))
              pair fits' in
          let step = total-snoc task r rows in
          let more = rw mine at step in omega (arith, fits'', more)
      | inr other ↦
          let step = total-snoc task r rows in
          let more = rw other at step in omega (arith, within c initial there, more)
    ])

if_same : (b : Bool) → ◌≡◌ {A = ℕ} (if b then 0 else 0) 0
if_same true = refl
if_same false = refl

-- So does the record of a denial, which counts nothing.
record_retrieval_denial-IsWithin :
    (task : TaskId) (r : ContextRetrieval) (rows : Rows)
    → IsWithin task rows
    → IsWithin task (record_retrieval_denial r rows)
unfolding record_retrieval_denial capsule
record_retrieval_denial-IsWithin task r rows within = λ c initial there. omega (
  arith,
  within c initial there,
  total-snoc task (record r { token_estimate = 0 }) rows,
  if_same (r.task_id == task),
)

module _ (out : Outside) (task : TaskId) (project : ProjectId) (fresh : ℕ) where
  finish-IsWithin :
      (j : TaskId) (request : ContextRequest) (entries : List (String × String)) (rows : Rows)
      (got : RetrievalResult × Rows)
      → finish out task project fresh request entries rows ≡ ok got
      → IsWithin j rows
      → IsWithin j got.1
  unfolding finish
  finish-IsWithin j request entries rows got h within =
      let (r, _, h1) = >>=-eq-ok (shorten out _ request.token_budget _) _ h in
      let (rows', c, h2) = >>=-eq-ok (commit_retrieval _ rows) _ h1 in
      subst (λ g. IsWithin j g.1) (ok_injective h2)
        (commit_retrieval-IsWithin j _ rows rows' c within)

  conclude-IsWithin :
      (j : TaskId) (request : ContextRequest) (rows : Rows)
      (result : Result ContextError (RetrievalResult × Rows))
      → ((got : RetrievalResult × Rows) → result ≡ ok got → IsWithin j got.1)
      → IsWithin j rows
      → IsWithin j (conclude out task project fresh request rows result).1
  unfolding conclude
  conclude-IsWithin j request rows (ok got) good within = good got refl
  conclude-IsWithin j request rows (err e) good within =
      record_retrieval_denial-IsWithin j _ rows within

  retrieve_inner-IsWithin :
      (j : TaskId) (request : ContextRequest) (rows : Rows) (got : RetrievalResult × Rows)
      → retrieve_inner out task project fresh request rows ≡ ok got
      → IsWithin j rows
      → IsWithin j got.1
  unfolding retrieve_inner
  retrieve_inner-IsWithin j request rows got h within =
      let (_, h1) = >>-eq-ok (bail_if _ bad_request) _ h in
      let (i, _, h2) = >>=-eq-ok (inspect task rows) _ h1 in
      let (_, h3) = >>-eq-ok (bail_if _ single_retrieval_exceeded) _ h2 in
      let (_, h4) = >>-eq-ok (bail_if _ remaining_exceeded) _ h3 in
      let (entries, _, h5) = >>=-eq-ok (entries_of out project request) _ h4 in
      finish-IsWithin j request entries rows got h5 within

  retrieve_memory-IsWithin :
      (j : TaskId) (request : ContextRequest) (rows : Rows) (got : RetrievalResult × Rows)
      → retrieve_memory out task project fresh request rows ≡ ok got
      → IsWithin j rows
      → IsWithin j got.1
  unfolding retrieve_memory
  retrieve_memory-IsWithin j request rows got h within =
      let (i, _, h1) = >>=-eq-ok (inspect task rows) _ h in
      let (_, h2) = >>-eq-ok (bail_if _ memory_rejected) _ h1 in
      let (search, _, h3) = >>=-eq-ok (ok_or out.memory org_brain_not_configured) _ h2 in
      let (items, _, h4) = >>=-eq-ok (lift (search request.query)) _ h3 in
      finish-IsWithin j request _ rows got h4 within

  -- Whatever is asked of it, `retrieve_async` leaves every task within its budget that was within
  -- it: what the first capsule and all retrievals are estimated at is no more than the total.
  pub retrieve_async-IsWithin :
      (j : TaskId) (request : ContextRequest) (rows : Rows)
      → IsWithin j rows
      → IsWithin j (retrieve_async out task project fresh request rows).1
  unfolding retrieve_async retrieve
  retrieve_async-IsWithin j request rows within =
      let plain =
        conclude-IsWithin j request rows (retrieve_inner out task project fresh request rows)
          (λ got h. retrieve_inner-IsWithin j request rows got h within) within in
      elim (Bool-cases (is_org_brain request.source)) [
        | inl memory ↦ rw memory (
            conclude-IsWithin j request rows (retrieve_memory out task project fresh request rows)
              (λ got h. retrieve_memory-IsWithin j request rows got h within) within)
        | inr other ↦ rw other plain
      ]
