-- ===== src/Db/Sessions/Idle.antt =====
-- What the operations that wait for a thread to be idle (crates/hub-db/src/lib.rs) leave alone.
use localoud_ai.Base.{
  ◌≡◌, refl, sym, subst, inl, inr, String, List, [], ◌∷◌, map, Bool, true, false, not, ◌&&◌, ◌||◌,
  ◌==◌, nat_eq, string_eq, ==_sound, Bool-cases, any, keep, Result, Result-cases, ok, err, >>-eq-ok,
  ok_injective, bail_if, In, In-map, In-keep, Distinct,
}
use localoud_ai.Core.{HubThreadId, ProjectId}
use localoud_ai.Db.{In-update_other, update_where, row_with-In, keys}
use localoud_ai.Db.Sessions.{
  Store, ThreadRow, TurnRow, SessionError, not_found, busy, empty_mapping, constraint_failed,
  is_thread, runs_on, is_busy, of_project, archive, is_queued, check_thread_idle,
  check_threads_idle, archive_project_threads, set_thread_archived, delete_thread,
  switch_thread_provider,
}

-- The operations that demand idle threads.
pub data Guarded : Type 0 where
  archive_project : ProjectId → Guarded
  set_archived : HubThreadId → Bool → Guarded
  delete : HubThreadId → Guarded
  switch : HubThreadId → String → String → Guarded

abbrev pub thread_key : ThreadRow → HubThreadId
thread_key t = t.mapping.id

abbrev pub IsKeyed : Store → Type 0
IsKeyed s = Distinct (keys thread_key s.threads)

-- A thread runs, or one of its turns does.
abbrev pub IsBusy : ThreadRow → Store → Type 0
IsBusy t s = (any (runs_on t.mapping.id) s.turns || is_busy t.mapping.status) ≡ true

abbrev or_keep : {E : Type 0} → Store → Result E Store → Store
or_keep s (ok s') = s'
or_keep s (err e) = s

module _ (show : HubThreadId → String) (has_reference : HubThreadId → Bool) where
  unfoldable pub run : Guarded → Store → Result SessionError Store
  run (archive_project p) s = archive_project_threads p s
  run (set_archived id to) s = set_thread_archived id to s
  run (delete id) s = delete_thread show has_reference id s
  run (switch id provider thread) s = switch_thread_provider id provider thread s

  -- The store after an operation.
  unfoldable pub after : Guarded → Store → Store
  unfolding run
  after g s = or_keep s (run g s)

check-busy :
    (t : ThreadRow) (s : Store)
    → IsKeyed s
    → In t s.threads
    → IsBusy t s
    → check_thread_idle t.mapping.id s ≡ err busy
unfolding check_thread_idle
check-busy t s d m b = rw (row_with-In thread_key s.threads t d m, b) refl

-- An idle thread is not the busy one.
other_thread :
    (t : ThreadRow) (s : Store) (id : HubThreadId)
    → check_thread_idle t.mapping.id s ≡ err busy
    → check_thread_idle id s ≡ ok tt
    → (t.mapping.id == id) ≡ false
other_thread t s id b idle = elim (Bool-cases (t.mapping.id == id)) [
  | inr other ↦ other
  | inl same ↦
      let bad : check_thread_idle t.mapping.id s ≡ ok tt =
        subst (λ i. check_thread_idle i s ≡ ok tt) (sym (==_sound t.mapping.id id same)) idle in
      cc
]

check_threads-busy :
    (ids : List HubThreadId) (id : HubThreadId) (s : Store)
    → In id ids
    → check_thread_idle id s ≡ err busy
    → check_threads_idle ids s ≡ ok tt
    → ⊥
unfolding check_threads_idle
check_threads-busy [] id s m b h = absurd m
check_threads-busy (i ∷ ids) id s (inl e) b h =
    let (idle, _) = >>-eq-ok (check_thread_idle i s) _ h in
    let idle' : check_thread_idle id s ≡ ok tt =
      subst (λ j. check_thread_idle j s ≡ ok tt) e idle in
    cc
check_threads-busy (i ∷ ids) id s (inr m) b h =
    check_threads-busy ids id s m b (>>-eq-ok (check_thread_idle i s) _ h).1

other_project :
    (t : ThreadRow) (s : Store) (p : ProjectId)
    → In t s.threads
    → check_thread_idle t.mapping.id s ≡ err busy
    → check_threads_idle (map thread_key (keep (of_project p) s.threads)) s ≡ ok tt
    → of_project p t ≡ false
other_project t s p m b h = elim (Bool-cases (of_project p t)) [
  | inr other ↦ other
  | inl mine ↦ absurd (
      check_threads-busy _ t.mapping.id s
        (In-map thread_key t (keep (of_project p) s.threads)
          (In-keep (of_project p) t s.threads m mine))
        b h)
]

abbrev IsKept : ThreadRow → Store → Store → Type 0
IsKept t s s' =
    In t s'.threads
    × ((turn : TurnRow) → turn.thread_id ≡ t.mapping.id → In turn s.turns → In turn s'.turns)

module _ (t : ThreadRow) (s : Store) (m : In t s.threads)
    (b : check_thread_idle t.mapping.id s ≡ err busy) where
  IsKept-update :
      (p : ThreadRow → Bool) (f : ThreadRow → ThreadRow)
      → p t ≡ false
      → IsKept t s (record s { threads = update_where p f s.threads })
  IsKept-update p f out = (In-update_other p f t s.threads m out, λ turn same h. h)

  archive_project-IsKept :
      (p : ProjectId) (s' : Store) → archive_project_threads p s ≡ ok s' → IsKept t s s'
  unfolding archive_project_threads
  archive_project-IsKept p s' h =
      let (idle, h1) =
        >>-eq-ok (check_threads_idle (map thread_key (keep (of_project p) s.threads)) s) _ h in
      let (_, h2) =
        >>-eq-ok
          (bail_if (any (λ (t : ThreadRow). of_project p t && is_queued t.mapping.status) s.threads)
            busy)
          _ h1 in
      rw (← ok_injective h2)
        (IsKept-update (of_project p) (archive true) (other_project t s p m b idle))

  set_archived-IsKept :
      (id : HubThreadId) (to : Bool) (s' : Store)
      → set_thread_archived id to s ≡ ok s'
      → IsKept t s s'
  unfolding set_thread_archived
  set_archived-IsKept id to s' h =
      let (idle, h1) = >>-eq-ok (check_thread_idle id s) _ h in
      rw (← ok_injective h1)
        (IsKept-update (is_thread id) (archive to) (other_thread t s id b idle))

  switch-IsKept :
      (id : HubThreadId) (provider thread : String) (s' : Store)
      → switch_thread_provider id provider thread s ≡ ok s'
      → IsKept t s s'
  unfolding switch_thread_provider
  switch-IsKept id provider thread s' h =
      let (idle, h1) = >>-eq-ok (check_thread_idle id s) _ h in
      let (_, h2) = >>-eq-ok (bail_if _ empty_mapping) _ h1 in
      let (_, h3) = >>-eq-ok (bail_if _ constraint_failed) _ h2 in
      let (_, h4) = >>-eq-ok (bail_if _ not_found) _ h3 in
      subst (IsKept t s) (ok_injective h4)
        (IsKept-update (is_thread id) _ (other_thread t s id b idle))

  delete-IsKept :
      (show : HubThreadId → String) (has_reference : HubThreadId → Bool) (id : HubThreadId)
      (s' : Store)
      → delete_thread show has_reference id s ≡ ok s'
      → IsKept t s s'
  unfolding delete_thread
  delete-IsKept show has_reference id s' h =
      let (idle, h1) = >>-eq-ok (check_thread_idle id s) _ h in
      let (_, h2) = >>-eq-ok (bail_if (has_reference id) constraint_failed) _ h1 in
      let other : (t.mapping.id == id) ≡ false = other_thread t s id b idle in
      rw (← ok_injective h2) (
        In-keep (λ r. not (is_thread id r)) t s.threads m (rw other refl),
        λ turn same k.
            In-keep (λ (r : TurnRow). not (r.thread_id == id)) turn s.turns k
              (rw (same, other) refl),
      )

-- Whichever of these operations runs, and on whatever, the row of a busy thread stays as it is, and so
-- does every turn of it.
pub busy_kept :
    (show : HubThreadId → String) (has_reference : HubThreadId → Bool) (g : Guarded) (t : ThreadRow)
    (s : Store)
    → IsKeyed s
    → In t s.threads
    → IsBusy t s
    → In t (after show has_reference g s).threads
      × ((turn : TurnRow)
          → turn.thread_id ≡ t.mapping.id
          → In turn s.turns
          → In turn (after show has_reference g s).turns)
unfolding after
busy_kept show has_reference g t s d m b = elim (Result-cases (run show has_reference g s)) [
  | inr (e, h) ↦ rw h (m, λ turn same k. k)
  | inl (s', h) ↦ rw h (kept g s' h)
]
  where
    kept : (g : Guarded) (s' : Store) → run show has_reference g s ≡ ok s' → IsKept t s s'
    kept (archive_project p) s' h = archive_project-IsKept t s m (check-busy t s d m b) p s' h
    kept (set_archived id to) s' h = set_archived-IsKept t s m (check-busy t s d m b) id to s' h
    kept (delete id) s' h = delete-IsKept t s m (check-busy t s d m b) show has_reference id s' h
    kept (switch id provider thread) s' h =
        switch-IsKept t s m (check-busy t s d m b) id provider thread s' h
