-- ===== src/Scheduler/Build.antt =====
-- `Dag::new` before it looks for cycles: its hash map of the tasks, and its checks of each task.
use localoud_ai.Base.{
  ℕ, suc, ◌+◌, ◌≤◌, ◌≡◌, refl, sym, ap, ◌∙◌, inl, inr, true, false, not, List, [], ◌∷◌, ◌++◌,
  append_assoc, append-nil, ◌==◌, nat_eq, ==_sound, ==_refl, Bool-cases, ok, >>-eq-ok, >>-eq-err,
  bail_if-eq-err, err, ◌≢◌, bail_if-eq-ok, bail_if, length, length-append, In, Distinct,
  Distinct-snoc, In-append_right, All_of, not-In-contains, In_dec, All, All_at, All_map, contains,
  contains-In, In-contains, arith,
}
use localoud_ai.Core.{ProjectId, TaskId, Task}
use localoud_ai.Scheduler.{
  Dag, insert_task, collect, ids, bad_dependencies, check_tasks, rounds, new, crosses_projects,
  invalid_dependency, duplicate_task, out_of_fuel,
}

ids-append : (xs ys : List Task) → ids (xs ++ ys) ≡ ids xs ++ ids ys
ids-append [] ys = refl
ids-append (x ∷ xs) ys = ap (λ l. x.id ∷ l) (ids-append xs ys)

insert_fresh :
    (t : Task) (acc : List Task) → ¬ In t.id (ids acc) → insert_task t acc ≡ acc ++ t ∷ []
unfolding insert_task
insert_fresh t [] n = refl
insert_fresh t (x ∷ xs) n = elim (Bool-cases (x.id == t.id)) [
  | inl same ↦ absurd (n (inl (==_sound x.id t.id same)))
  | inr other ↦ rw other (ap (λ l. x ∷ l) (insert_fresh t xs (λ m. n (inr m))))
]

insert_known :
    (t : Task) (acc : List Task) → In t.id (ids acc) → length (insert_task t acc) ≡ length acc
unfolding insert_task
insert_known t [] m = absurd m
insert_known t (x ∷ xs) m = elim (Bool-cases (x.id == t.id)) [
  | inl same ↦ rw same refl
  | inr other ↦ rw other (
      ap suc (insert_known t xs (elim m [ inl e ↦ absurd (cc (other, ==_refl t.id)) | inr h ↦ h ])))
]

length-insert-le : (t : Task) (acc : List Task) → length (insert_task t acc) ≤ suc (length acc)
length-insert-le t acc = elim (In_dec t.id (ids acc)) [
  | yes m ↦ omega (arith, insert_known t acc m)
  | no n ↦ omega (arith, ap length (insert_fresh t acc n), length-append acc (t ∷ []))
]

length-collect-le : (acc ts : List Task) → length (collect acc ts) ≤ length acc + length ts
unfolding collect
length-collect-le acc [] = omega arith
length-collect-le acc (t ∷ ts) =
    omega (arith, length-collect-le (insert_task t acc) ts, length-insert-le t acc)

-- If nothing was overwritten, the map holds the tasks as given and their identifiers differ.
collect_full :
    (acc ts : List Task)
    → Distinct (ids acc)
    → length (collect acc ts) ≡ length acc + length ts
    → (collect acc ts ≡ acc ++ ts) × Distinct (ids (acc ++ ts))
unfolding collect
collect_full acc [] d h = (sym (append-nil acc), rw (append-nil acc) d)
collect_full acc (t ∷ ts) d h = elim (In_dec t.id (ids acc)) [
  | yes m ↦ absurd (omega (arith, length-collect-le (insert_task t acc) ts, insert_known t acc m))
  | no n ↦
      let e = insert_fresh t acc n in
      let (same, distinct) =
        collect_full (acc ++ t ∷ []) ts
          (rw (ids-append acc (t ∷ [])) (Distinct-snoc (ids acc) t.id d n))
          (rw (← e) (omega (arith, ap length e, length-append acc (t ∷ [])))) in
      (rw e (same ∙ append_assoc acc (t ∷ []) ts), rw (append_assoc acc (t ∷ []) ts) at distinct)
]

-- The dependencies of one task, as the validation wants them.
pub record IsSound (known : List TaskId) (self : TaskId) (dependencies : List TaskId) : Type 0 where
  pub other : ¬ In self dependencies
  pub planned : All (λ d. In d known) dependencies
  pub once : Distinct dependencies

bad_dependencies_lem :
    (self : TaskId) (known seen ds : List TaskId)
    → bad_dependencies self known seen ds ≡ false
    → IsSound known self ds × All (λ d. ¬ In d seen) ds
unfolding bad_dependencies
bad_dependencies_lem self known seen [] h = (record { other = λ m. m; planned = tt; once = tt }, tt)
bad_dependencies_lem self known seen (d ∷ ds) h =
    let differs : (d == self) ≡ false = ground arith in
    let known_d : contains known d ≡ true = ground arith in
    let new_d : contains seen d ≡ false = ground arith in
    let (sound, fresh) = bad_dependencies_lem self known (d ∷ seen) ds (ground arith) in
    (
      record {
        other = λ m. elim m [ inl e ↦ cc (differs, ==_refl self) | inr m' ↦ sound.other m' ];
        planned = (contains-In known d known_d, sound.planned);
        once = (λ m. All_at _ d ds fresh m (inl refl), sound.once);
      },
      ((λ m. cc (In-contains seen d m, new_d)), All_map ds (λ a n m. n (inr m)) fresh),
    )

-- A task of an accepted plan for `project`.
abbrev pub IsPlanned : ProjectId → List TaskId → Task → Type 0
IsPlanned project known t = (t.project_id ≡ project) × IsSound known t.id t.dependencies

check_tasks_lem :
    (project : ProjectId) (known : List TaskId) (ts : List Task)
    → check_tasks project known ts ≡ ok tt
    → All (IsPlanned project known) ts
unfolding check_tasks
check_tasks_lem project known [] h = tt
check_tasks_lem project known (t ∷ ts) h =
    let (same, h') = >>-eq-ok (bail_if (not (t.project_id == project)) crosses_projects) _ h in
    let (deps, rest) =
      >>-eq-ok (bail_if (bad_dependencies t.id known [] t.dependencies) invalid_dependency) _ h' in
    let here : (t.project_id == project) ≡ true = ground (arith, bail_if-eq-ok _ _ same) in
    (
      (
        ==_sound t.project_id project here,
        (bad_dependencies_lem t.id known [] t.dependencies (bail_if-eq-ok _ _ deps)).0,
      ),
      check_tasks_lem project known ts rest,
    )

-- What `Dag::new` has checked of the tasks that it accepts, before and by the cycle check.
pub record IsBuilt (given : List Task) (dag : Dag) : Type 0 where
  pub same : dag.tasks ≡ given
  pub distinct : Distinct (ids given)
  pub project : ProjectId
  pub planned : All (IsPlanned project (ids given)) given
  pub passed : rounds (length given) given (suc (length given)) [] ≡ ok tt

pub new-IsBuilt : (given : List Task) (dag : Dag) → new given ≡ ok dag → IsBuilt given dag
unfolding new
new-IsBuilt [] dag h = cc
new-IsBuilt (t ∷ ts) dag h =
    let given = t ∷ ts in
    let tasks = collect [] given in
    let (full, h') = >>-eq-ok (bail_if (not (length tasks == length given)) duplicate_task) _ h in
    let (checked, h'') = >>-eq-ok (check_tasks t.project_id (ids tasks) tasks) _ h' in
    let (passed, last) = >>-eq-ok (rounds (length given) tasks (suc (length given)) []) _ h'' in
    let (same, distinct) = collect_full [] given tt (ground (arith, bail_if-eq-ok _ _ full)) in
    record {
      same = cc;
      distinct = distinct;
      project = t.project_id;
      planned = rw same at (check_tasks_lem t.project_id (ids tasks) tasks checked);
      passed = rw same at passed;
    }

Distinct-append_left : (x : ℕ) (xs ys : List ℕ) → Distinct (xs ++ x ∷ ys) → ¬ In x xs
Distinct-append_left x [] ys d m = m
Distinct-append_left x (y ∷ xs) ys (h, d) (inl e) =
    h (rw e (In-append_right x xs (x ∷ ys) (inl refl)))
Distinct-append_left x (y ∷ xs) ys (h, d) (inr m) = Distinct-append_left x xs ys d m

collect-Distinct : (acc ts : List Task) → Distinct (ids (acc ++ ts)) → collect acc ts ≡ acc ++ ts
unfolding collect
collect-Distinct acc [] d = sym (append-nil acc)
collect-Distinct acc (t ∷ ts) d =
    let new_id = Distinct-append_left t.id (ids acc) (ids ts) (rw (ids-append acc (t ∷ ts)) at d) in
    rw (insert_fresh t acc new_id) (
      collect-Distinct (acc ++ t ∷ []) ts (rw (append_assoc acc (t ∷ []) ts) d)
      ∙ append_assoc acc (t ∷ []) ts)

bad_dependencies_complete :
    (self : TaskId) (known seen ds : List TaskId)
    → IsSound known self ds
    → All (λ d. ¬ In d seen) ds
    → bad_dependencies self known seen ds ≡ false
unfolding bad_dependencies
bad_dependencies_complete self known seen [] sound fresh = refl
bad_dependencies_complete self known seen (d ∷ ds) sound (new_d, fresh) =
    let rest =
      bad_dependencies_complete self known (d ∷ seen) ds
        (record {
          other = λ m. sound.other (inr m);
          planned = sound.planned.1;
          once = sound.once.1;
        })
        (All_of _ ds (λ a m k. elim k [
          | inl e ↦ sound.once.0 (rw e m)
          | inr old ↦ All_at _ a ds fresh m old
        ])) in
    let differs : (d == self) ≡ false = elim (Bool-cases (d == self)) [
      | inl e ↦ absurd (sound.other (inl (==_sound d self e)))
      | inr e ↦ e
    ] in
    ground (arith, rest, differs, In-contains known d sound.planned.0, not-In-contains seen d new_d)

check_tasks_complete :
    (project : ProjectId) (known : List TaskId) (ts : List Task)
    → All (IsPlanned project known) ts
    → check_tasks project known ts ≡ ok tt
unfolding check_tasks
check_tasks_complete project known [] h = refl
check_tasks_complete project known (t ∷ ts) ((same, sound), h) =
    let deps =
      bad_dependencies_complete t.id known [] t.dependencies sound (All_of _ _ (λ a m k. k)) in
    rw (same, ==_refl project, deps) (check_tasks_complete project known ts h)

-- Where the checks before the cycle check succeed, the rounds decide.
pub new_of_planned :
    (t : Task) (ts : List Task)
    → Distinct (ids (t ∷ ts))
    → All (IsPlanned t.project_id (ids (t ∷ ts))) (t ∷ ts)
    → rounds (length (t ∷ ts)) (t ∷ ts) (suc (length (t ∷ ts))) [] ≡ ok tt
    → new (t ∷ ts) ≡ ok (record { tasks = t ∷ ts })
unfolding new
new_of_planned t ts distinct planned passed =
    rw
      (
        collect-Distinct [] (t ∷ ts) distinct,
        ==_refl (length (t ∷ ts)),
        check_tasks_complete t.project_id (ids (t ∷ ts)) (t ∷ ts) planned,
        passed,
      )
      refl

check_tasks-ne-out_of_fuel :
    (project : ProjectId) (known : List TaskId) (ts : List Task)
    → check_tasks project known ts ≢ err out_of_fuel
unfolding check_tasks
check_tasks-ne-out_of_fuel project known [] h = cc
check_tasks-ne-out_of_fuel project known (t ∷ ts) h =
    elim (>>-eq-err (bail_if (not (t.project_id == project)) crosses_projects) _ h) [
      | inl e ↦ cc (bail_if-eq-err _ e)
      | inr (_, h') ↦
          elim (>>-eq-err
            (bail_if (bad_dependencies t.id known [] t.dependencies) invalid_dependency) _ h') [
              | inl e ↦ cc (bail_if-eq-err _ e)
              | inr (_, rest) ↦ check_tasks-ne-out_of_fuel project known ts rest
            ]
    ]

-- Only the loop can run out of fuel, and it runs on distinct tasks.
pub new-out_of_fuel :
    (given : List Task)
    → new given ≡ err out_of_fuel
    → Distinct (ids given) × (rounds (length given) given (suc (length given)) [] ≡ err out_of_fuel)
unfolding new
new-out_of_fuel [] h = cc
new-out_of_fuel (t ∷ ts) h =
    let given = t ∷ ts in
    let tasks = collect [] given in
    elim (>>-eq-err (bail_if (not (length tasks == length given)) duplicate_task) _ h) [
      | inl e ↦ cc (bail_if-eq-err _ e)
      | inr (full, h') ↦
          let (same, distinct) =
            collect_full [] given tt (ground (arith, bail_if-eq-ok _ _ full)) in
          elim (>>-eq-err (check_tasks t.project_id (ids tasks) tasks) _ h') [
            | inl e ↦ absurd (check_tasks-ne-out_of_fuel _ _ _ e)
            | inr (_, loop) ↦
                elim (>>-eq-err (rounds (length given) tasks (suc (length given)) []) _ loop) [
                  | inl out ↦ (distinct, rw same at out)
                  | inr (_, e) ↦ cc
                ]
          ]
    ]
