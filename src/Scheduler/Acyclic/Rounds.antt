-- ===== src/Scheduler/Acyclic/Rounds.antt =====
-- The `while` loop of `Dag::new`: the tasks that its rounds complete, and its answers.
use localoud_ai.Base.{
  Distinct, nat_eq, In-map, ℕ, zero, suc, ◌+◌, ◌≤◌, ◌<◌, ◌≡◌, ◌≢◌, refl, true, false, inl, inr, ◌⊎◌,
  List, [], ◌∷◌, ◌++◌, ltb, Bool-cases, length, length-append, keep, count_if, is_empty, all,
  all_fails, In, In_dec, In-contains, In-keep, map-In, All, All_at, contains, contains-In,
  not-In-contains, ok, err, arith,
}
use localoud_ai.Core.{TaskId, Task}
use localoud_ai.Scheduler.{ids, enabled, rounds, dependency_cycle, out_of_fuel}
use localoud_ai.Scheduler.Acyclic.Order.{IsRanked, OrderedBy, OrderedBy-round, missing, count-round}

length-pos : (xs : List ℕ) → is_empty xs ≡ false → 0 < length xs
length-pos [] h = cc
length-pos (x ∷ xs) h = omega arith

not_empty : (xs : List ℕ) (a : ℕ) → is_empty xs ≡ true → ¬ In a xs
not_empty [] a h m = m
not_empty (x ∷ xs) a h m = cc

-- No task is missing if none is counted.
none_missing :
    (done : List TaskId) (tasks : List Task) (t : Task)
    → count_if (missing done) tasks ≡ 0
    → In t tasks
    → In t.id done
none_missing done (x ∷ xs) t h (inl e) = contains-In done t.id (rw (← e) (ground arith))
none_missing done (x ∷ xs) t h (inr m) = none_missing done xs t (ground arith) m
none_missing done [] t h m = absurd m

some_missing :
    (done : List TaskId) (tasks : List Task)
    → 0 < count_if (missing done) tasks
    → (t : Task) × In t tasks × ¬ In t.id done
some_missing done [] h = elim h [ ]
some_missing done (x ∷ xs) h = elim (In_dec x.id done) [
  | no new ↦ (x, inl refl, new)
  | yes old ↦
      let (t, m, new) = some_missing done xs (ground (arith, In-contains done x.id old)) in
      (t, inr m, new)
]

module _ (tasks : List Task) (distinct : Distinct (ids tasks)) where
  abbrev next : List TaskId → List TaskId
  next done = ids (keep (enabled done) tasks)

  -- The tasks done and the tasks missing make up the plan.
  abbrev Counted : List TaskId → Type 0
  Counted done = length done + count_if (missing done) tasks ≡ length tasks

  Counted-round : (done : List TaskId) → Counted done → Counted (done ++ next done)
  Counted-round done h =
      omega (arith, count-round tasks distinct done, length-append done (next done))

  -- What the loop accepts is in order, and complete.
  pub rounds_sound :
      (fuel : ℕ) (done : List TaskId)
      → OrderedBy tasks distinct done
      → Counted done
      → rounds (length tasks) tasks fuel done ≡ ok tt
      → (final : List TaskId) × OrderedBy tasks distinct final
        × ((t : Task) → In t tasks → In t.id final)
  unfolding rounds
  rounds_sound zero done o c h = cc
  rounds_sound (suc fuel) done o c h = elim (Bool-cases (ltb (length done) (length tasks))) [
    | inl more ↦ elim (Bool-cases (is_empty (next done))) [
      | inl stuck ↦ cc (rw (more, stuck) at h)
      | inr some_next ↦
          rounds_sound fuel (done ++ next done) (OrderedBy-round tasks distinct done o)
            (Counted-round done c) (rw (more, some_next) at h)
    ]
    | inr finished ↦
        let all_done : length tasks ≤ length done = ground arith in
        (done, o, λ t m. none_missing done tasks t (omega arith) m)
  ]

  -- A round that does not fail completes a task, so the fuel lasts.
  pub rounds-ne-out_of_fuel :
      (fuel : ℕ) (done : List TaskId)
      → Counted done
      → length tasks < length done + fuel
      → rounds (length tasks) tasks fuel done ≢ err out_of_fuel
  unfolding rounds
  rounds-ne-out_of_fuel zero done c enough h = absurd (omega arith)
  rounds-ne-out_of_fuel (suc fuel) done c enough h =
      elim (Bool-cases (ltb (length done) (length tasks))) [
        | inl more ↦ elim (Bool-cases (is_empty (next done))) [
          | inl stuck ↦ cc (rw (more, stuck) at h)
          | inr some_next ↦
              rounds-ne-out_of_fuel fuel (done ++ next done) (Counted-round done c)
                (omega (arith, length-append done (next done), length-pos (next done) some_next))
                (rw (more, some_next) at h)
        ]
        | inr finished ↦ cc (rw finished at h)
      ]

  -- Where the tasks can be ranked, a task that is missing with the least rank is enabled.
  least_enabled :
      (rank : TaskId → ℕ)
      → IsRanked rank tasks
      → ((t : Task) → In t tasks → (d : TaskId) → In d t.dependencies → In d (ids tasks))
      → (done : List TaskId) (bound : ℕ) (t : Task) → rank t.id < bound
      → In t tasks
      → ¬ In t.id done
      → (u : Task) × In u (keep (enabled done) tasks)
  least_enabled rank ranked closed done zero t below m new = elim below [ ]
  least_enabled rank ranked closed done (suc bound) t below m new =
      elim (Bool-cases (all (contains done) t.dependencies)) [
        | inl e ↦ (t, In-keep (enabled done) t tasks m (rw (not-In-contains done t.id new, e) refl))
        | inr e ↦
            let (d, dep, fails) = all_fails (contains done) t.dependencies e in
            let (u, k, same) = map-In (λ (t : Task). t.id) d tasks (closed t m d dep) in
            let lower =
              All_at (λ d. rank d < rank t.id) d t.dependencies
                (All_at (λ t. All (λ d. rank d < rank t.id) t.dependencies) t tasks ranked m) dep in
            least_enabled rank ranked closed done bound u (rw same (omega arith)) k
              (λ old. cc (fails, In-contains done d (rw same at old)))
      ]

  pub rounds-ne-cycle :
      (rank : TaskId → ℕ)
      → IsRanked rank tasks
      → ((t : Task) → In t tasks → (d : TaskId) → In d t.dependencies → In d (ids tasks))
      → (fuel : ℕ) (done : List TaskId) → Counted done
      → rounds (length tasks) tasks fuel done ≢ err dependency_cycle
  unfolding rounds
  rounds-ne-cycle rank ranked closed zero done c h = cc
  rounds-ne-cycle rank ranked closed (suc fuel) done c h =
      elim (Bool-cases (ltb (length done) (length tasks))) [
        | inl more ↦ elim (Bool-cases (is_empty (next done))) [
          | inl stuck ↦
              let fewer : length done < length tasks = ground arith in
              let (t, m, new) = some_missing done tasks (omega arith) in
              let (u, k) =
                least_enabled rank ranked closed done (suc (rank t.id)) t (omega arith) m new in
              absurd (
                not_empty (next done) u.id stuck
                  (In-map (λ (t : Task). t.id) u (keep (enabled done) tasks) k))
          | inr some_next ↦
              rounds-ne-cycle rank ranked closed fuel (done ++ next done) (Counted-round done c)
                (rw (more, some_next) at h)
        ]
        | inr finished ↦ cc (rw finished at h)
      ]

  pub Counted-nil : Counted []
  Counted-nil = go tasks
    where
      go : (ts : List Task) → 0 + count_if (missing []) ts ≡ length ts
      go [] = refl
      go (t ∷ ts) = omega (arith, go ts)

  pub rounds_cases :
      (fuel : ℕ) (done : List TaskId)
      → (rounds (length tasks) tasks fuel done ≡ ok tt)
        ⊎ (rounds (length tasks) tasks fuel done ≡ err dependency_cycle)
        ⊎ (rounds (length tasks) tasks fuel done ≡ err out_of_fuel)
  unfolding rounds
  rounds_cases zero done = inr (inr refl)
  rounds_cases (suc fuel) done = ground (arith, rounds_cases fuel (done ++ next done))
