-- ===== src/Scheduler/Acyclic/Order.antt =====
-- The order in which the rounds complete the tasks, read as a ranking.
use localoud_ai.Base.{
  Distinct, ℕ, suc, ◌+◌, ◌≤◌, ◌<◌, ◌≡◌, refl, ap, sym, ◌∙◌, Bool, true, not, ◌&&◌, ◌||◌, inl, inr,
  List, [], ◌∷◌, ◌++◌, ◌==◌, nat_eq, ==_sound, ==_refl, if◌then◌else◌, Bool-cases, length, keep,
  count_if, all, all_at, length-map, In, In_dec, In-append, In-map, map-In, In-keep, keep-In, All,
  contains, contains-In, In-contains, arith,
}
use localoud_ai.Core.{TaskId, Task}
use localoud_ai.Scheduler.{ids, enabled}

-- Every task is ranked above its dependencies.
abbrev pub IsRanked : (TaskId → ℕ) → List Task → Type 0
IsRanked rank tasks = All (λ t. All (λ d. rank d < rank t.id) t.dependencies) tasks

-- The place of the first occurrence, or the length.
unfoldable pub index : List ℕ → ℕ → ℕ
index [] a = 0
index (x ∷ xs) a = if x == a then 0 else suc (index xs a)

pub index-lt-length : (xs : List ℕ) (a : ℕ) → In a xs → index xs a < length xs
unfolding index
index-lt-length [] a m = absurd m
index-lt-length (x ∷ xs) a (inl e) = rw (e, ==_refl a) (omega arith)
index-lt-length (x ∷ xs) a (inr m) = ground (arith, index-lt-length xs a m)

index-append_left :
    (xs ys : List ℕ) (a : ℕ) → index xs a < length xs → index (xs ++ ys) a ≡ index xs a
unfolding index
index-append_left [] ys a h = elim h [ ]
index-append_left (x ∷ xs) ys a h = ground (arith, index-append_left xs ys a)

index-append_right : (xs ys : List ℕ) (a : ℕ) → ¬ In a xs → length xs ≤ index (xs ++ ys) a
unfolding index
index-append_right [] ys a n = omega arith
index-append_right (x ∷ xs) ys a n = elim (Bool-cases (x == a)) [
  | inl same ↦ absurd (n (inl (==_sound x a same)))
  | inr other ↦ rw other (omega (arith, index-append_right xs ys a (λ m. n (inr m))))
]

pub contains-append :
    (xs ys : List ℕ) (a : ℕ) → contains (xs ++ ys) a ≡ (contains xs a || contains ys a)
contains-append [] ys a = refl
contains-append (x ∷ xs) ys a = ground (arith, contains-append xs ys a)

-- Identifiers determine tasks.
pub same_task :
    (tasks : List Task) (t u : Task)
    → Distinct (ids tasks)
    → In t tasks
    → In u tasks
    → t.id ≡ u.id
    → t ≡ u
same_task [] t u d m k e = absurd m
same_task (x ∷ xs) t u (h, d) (inl p) (inl q) e = sym p ∙ q
same_task (x ∷ xs) t u (h, d) (inl p) (inr k) e =
    let same : x.id ≡ u.id = ap (λ (t : Task). t.id) p ∙ e in
    absurd (h (rw same (In-map (λ (t : Task). t.id) u xs k)))
same_task (x ∷ xs) t u (h, d) (inr m) (inl q) e =
    let same : x.id ≡ t.id = ap (λ (t : Task). t.id) q ∙ sym e in
    absurd (h (rw same (In-map (λ (t : Task). t.id) t xs m)))
same_task (x ∷ xs) t u (h, d) (inr m) (inr k) e = same_task xs t u d m k e

abbrev pub missing : List TaskId → Task → Bool
missing done t = not (contains done t.id)

count_split :
    (p q r : Task → Bool) (tasks : List Task)
    → ((t : Task) → In t tasks → r t ≡ (p t && not (q t)))
    → ((t : Task) → q t ≡ true → p t ≡ true)
    → count_if r tasks + count_if q tasks ≡ count_if p tasks
count_split p q r [] h k = refl
count_split p q r (t ∷ ts) h k =
    ground (arith, h t (inl refl), k t, count_split p q r ts (λ u m. h u (inr m)) k)

module _ (tasks : List Task) (distinct : Distinct (ids tasks)) where
  -- Of the planned tasks exactly the enabled ones are completed by a round.
  contains-next :
      (done : List TaskId) (t : Task)
      → In t tasks
      → contains (ids (keep (enabled done) tasks)) t.id ≡ enabled done t
  contains-next done t m = elim (Bool-cases (enabled done t)) [
    | inl e ↦
        In-contains _ t.id (In-map (λ (t : Task). t.id) t _ (In-keep (enabled done) t tasks m e))
        ∙ sym e
    | inr e ↦ elim (Bool-cases (contains (ids (keep (enabled done) tasks)) t.id)) [
      | inl h ↦
          let (u, k, same) = map-In (λ (t : Task). t.id) t.id _ (contains-In _ t.id h) in
          let (k', q) = keep-In (enabled done) u tasks k in
          let e' : u ≡ t = same_task tasks u t distinct k' m same in cc
      | inr h ↦ h ∙ sym e
    ]
  ]

  abbrev pub OrderedBy : List TaskId → Type 0
  OrderedBy done =
      (t : Task)
      → In t tasks
      → In t.id done
      → (d : TaskId) → In d t.dependencies
      → index done d < index done t.id

  pub OrderedBy-round :
      (done : List TaskId) → OrderedBy done → OrderedBy (done ++ ids (keep (enabled done) tasks))
  OrderedBy-round done old t m k d dep = elim (In_dec t.id done) [
    | yes here ↦
        let below = old t m here d dep in
        let low = index-lt-length done t.id here in
        let next = ids (keep (enabled done) tasks) in
        let d_same = index-append_left done next d (omega arith) in
        omega (arith, d_same, index-append_left done next t.id low)
    | no new ↦ elim (In-append t.id done _ k) [
      | inl here ↦ absurd (new here)
      | inr round ↦
          let next = ids (keep (enabled done) tasks) in
          let e : enabled done t ≡ true = sym (contains-next done t m) ∙ In-contains _ t.id round in
          let e' : all (contains done) t.dependencies ≡ true = ground arith in
          let d_done = contains-In done d (all_at (contains done) d t.dependencies e' dep) in
          let low = index-lt-length done d d_done in
          omega
            (arith, low, index-append_left done next d low, index-append_right done next t.id new)
    ]
  ]

  missing-round :
      (done : List TaskId) (t : Task)
      → In t tasks
      → missing (done ++ ids (keep (enabled done) tasks)) t
        ≡ (missing done t && not (enabled done t))
  missing-round done t m =
      ground
        (arith, contains-append done (ids (keep (enabled done) tasks)) t.id, contains-next done t m)

  pub count-round :
      (done : List TaskId)
      → count_if (missing (done ++ ids (keep (enabled done) tasks))) tasks
          + length (ids (keep (enabled done) tasks))
        ≡ count_if (missing done) tasks
  count-round done =
      rw (length-map (λ (t : Task). t.id) (keep (enabled done) tasks)) (
        count_split (missing done) (enabled done) _ tasks (missing-round done)
          (λ t h. ground arith))
