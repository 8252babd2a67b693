-- ===== src/Db/Sessions/Receipts.antt =====
-- How often a sequence of calls that change the settings accepts one manifest (`accept_manifest` of
-- crates/hub-db/src/lib.rs).
use localoud_ai.Base.{
  ℕ, ◌+◌, ◌≤◌, ◌≡◌, ap, inl, inr, String, List, [], ◌∷◌, ◌++◌, Bool, true, false, not, ◌&&◌, ◌==◌,
  string_eq, ==_refl, ==_sound, Bool-cases, any, keep, if◌then◌else◌, Result, Result-cases, ok, err,
  >>=-eq-ok, >>-eq-ok, ok_injective, bail_if, bail_if-eq-ok, arith, refl, subst, sym,
}
use localoud_ai.Core.{HubThreadId}
use localoud_ai.Db.{update_where}
use localoud_ai.Db.Sessions.{
  Store, ThreadMapping, SessionError, already_accepted, busy, empty_mapping, not_found,
  constraint_failed, has_key, receipt, belongs, prefixes, accept_manifest, save_thread, set_setting,
  delete_thread, set_thread_archived, archive_project_threads, switch_thread_provider,
  check_thread_idle, check_threads_idle,
}
use localoud_ai.Db.Sessions.Idle.{Guarded, archive_project, set_archived, delete, switch, run}
use localoud_ai.Db.Sessions.Prefixes.{receipt_stays}

pub data Call : Type 0 where
  -- the manifest's identifier and text, the thread, and a setting
  accept : String → String → ThreadMapping → String → String → Call
  save : ThreadMapping → Call
  put : String → String → Call
  guarded : Guarded → Call

abbrev or_keep : {E : Type 0} → Store → Result E Store → Store
or_keep s (ok s') = s'
or_keep s (err e) = s

abbrev is_ok : {E A : Type 0} → Result E A → Bool
is_ok (ok a) = true
is_ok (err e) = false

abbrev Settings : Type 0
Settings = List (String × String)

module _ (k : String) where
  any-update :
      (p : String × String → Bool) (v : String) (l : Settings)
      → any (has_key k) (update_where p (λ kv. (kv.0, v)) l) ≡ any (has_key k) l
  any-update p v [] = refl
  any-update p v ((j, w) ∷ l) = elim (Bool-cases (p (j, w))) [
    | inl h ↦ rw (h, any-update p v l) refl
    | inr h ↦ rw (h, any-update p v l) refl
  ]

  any-append : (l m : Settings) → any (has_key k) l ≡ true → any (has_key k) (l ++ m) ≡ true
  any-append [] m h = cc
  any-append (kv ∷ l) m h = ground (arith, any-append l m)

  any-snoc : (v : String) (l : Settings) → any (has_key k) (l ++ (k, v) ∷ []) ≡ true
  any-snoc v [] = rw (==_refl k) refl
  any-snoc v (kv ∷ l) = ground (arith, any-snoc v l)

  any-keep :
      (q : String × String → Bool) (l : Settings)
      → ((v : String) → q (k, v) ≡ true)
      → any (has_key k) l ≡ true
      → any (has_key k) (keep q l) ≡ true
  any-keep q [] f h = cc
  any-keep q ((j, v) ∷ l) f h = elim (Bool-cases (j == k)) [
    | inl here ↦
        let kept : q (j, v) ≡ true = subst (λ i. q (i, v) ≡ true) (sym (==_sound j k here)) (f v) in
        rw (kept, here) refl
    | inr there ↦
        let rest = any-keep q l f (rw there at h) in
        elim (Bool-cases (q (j, v))) [ inl y ↦ rw (y, there) rest | inr n ↦ rw n rest ]
  ]

  any-set :
      (key value : String) (l : Settings)
      → any (has_key k) l ≡ true
      → any (has_key k) (set_setting key value l) ≡ true
  unfolding set_setting
  any-set key value l h = elim (Bool-cases (any (has_key key) l)) [
    | inl old ↦ rw (old, any-update (has_key key) value l) h
    | inr new ↦ rw new (any-append l _ h)
  ]

-- The manifest has a receipt in the store.
abbrev pub IsAccepted : String → Store → Type 0
IsAccepted m s = any (has_key (receipt m)) s.settings ≡ true

save_thread-settings :
    (t : ThreadMapping) (s : Store) {s' : Store}
    → save_thread t s ≡ ok s'
    → s'.settings ≡ s.settings
unfolding save_thread
save_thread-settings t s h = ground arith

module _ (show : HubThreadId → String) (has_reference : HubThreadId → Bool) where
  guarded-IsAccepted :
      (g : Guarded) (m : String) (s s' : Store)
      → run show has_reference g s ≡ ok s'
      → IsAccepted m s
      → IsAccepted m s'
  unfolding run archive_project_threads set_thread_archived delete_thread switch_thread_provider
  guarded-IsAccepted (archive_project p) m s s' h a =
      let (_, h1) = >>-eq-ok (check_threads_idle _ s) _ h in
      let (_, h2) = >>-eq-ok (bail_if _ busy) _ h1 in subst (IsAccepted m) (ok_injective h2) a
  guarded-IsAccepted (set_archived id to) m s s' h a =
      let (_, h1) = >>-eq-ok (check_thread_idle id s) _ h in
      subst (IsAccepted m) (ok_injective h1) a
  guarded-IsAccepted (delete id) m s s' h a =
      let (_, h1) = >>-eq-ok (check_thread_idle id s) _ h in
      let (_, h2) = >>-eq-ok (bail_if (has_reference id) constraint_failed) _ h1 in
      subst (IsAccepted m) (ok_injective h2) (
        any-keep (receipt m) (λ (kv : String × String). not (any (belongs (show id) kv.0) prefixes))
          s.settings (λ v. rw (receipt_stays (show id) m) refl) a)
  guarded-IsAccepted (switch id provider thread) m s s' h a =
      let (_, h1) = >>-eq-ok (check_thread_idle id s) _ h in
      let (_, h2) = >>-eq-ok (bail_if _ empty_mapping) _ h1 in
      let (_, h3) = >>-eq-ok (bail_if _ constraint_failed) _ h2 in
      let (_, h4) = >>-eq-ok (bail_if _ not_found) _ h3 in subst (IsAccepted m) (ok_injective h4) a

  -- A call, and the store that it leaves.
  unfoldable pub call : Call → Store → Result SessionError Store
  unfolding run
  call (accept m manifest t key snapshot) s = accept_manifest m manifest t key snapshot s
  call (save t) s = save_thread t s
  call (put key value) s = ok (record s { settings = set_setting key value s.settings })
  call (guarded g) s = run show has_reference g s

  unfoldable pub serve : Call → Store → Store
  unfolding call
  serve c s = or_keep s (call c s)

  -- Whether a call takes a manifest in.
  unfoldable pub accepts : String → Call → Store → Bool
  accepts m (accept m' manifest t key snapshot) s =
      m' == m && is_ok (accept_manifest m' manifest t key snapshot s)
  accepts m _ s = false

  unfoldable pub times_accepted : String → List Call → Store → ℕ
  unfolding serve accepts
  times_accepted m [] s = 0
  times_accepted m (c ∷ cs) s = (if accepts m c s then 1 else 0) + times_accepted m cs (serve c s)

accept-eq-ok :
    (m manifest : String) (t : ThreadMapping) (key snapshot : String) (s s' : Store)
    → accept_manifest m manifest t key snapshot s ≡ ok s'
    → (any (has_key (receipt m)) s.settings ≡ false)
      × (set_setting key snapshot (s.settings ++ (receipt m, manifest) ∷ []) ≡ s'.settings)
unfolding accept_manifest
accept-eq-ok m manifest t key snapshot s s' h =
    let (new, h1) =
      >>-eq-ok (bail_if (any (has_key (receipt m)) s.settings) already_accepted) _ h in
    let (s1, h2, h3) =
      >>=-eq-ok (save_thread t (record s { settings = s.settings ++ (receipt m, manifest) ∷ [] })) _
        h1 in
    (
      bail_if-eq-ok _ already_accepted new,
      rw (← save_thread-settings t _ h2) (ap (λ (r : Store). r.settings) (ok_injective h3)),
    )

module _ (show : HubThreadId → String) (has_reference : HubThreadId → Bool) where
  serve-IsAccepted :
      (c : Call) (m : String) (s : Store)
      → IsAccepted m s
      → IsAccepted m (serve show has_reference c s)
  unfolding serve call
  serve-IsAccepted (accept m' manifest t key snapshot) m s a =
      elim (Result-cases (accept_manifest m' manifest t key snapshot s)) [
        | inr (e, h) ↦ rw h a
        | inl (s', h) ↦
            rw (h, ← (accept-eq-ok m' manifest t key snapshot s s' h).1)
              (any-set (receipt m) key snapshot _ (any-append (receipt m) s.settings _ a))
      ]
  serve-IsAccepted (save t) m s a = elim (Result-cases (save_thread t s)) [
    | inr (e, h) ↦ rw h a
    | inl (s', h) ↦ rw (h, save_thread-settings t s h) a
  ]
  serve-IsAccepted (put key value) m s a = any-set (receipt m) key value s.settings a
  serve-IsAccepted (guarded g) m s a = elim (Result-cases (run show has_reference g s)) [
    | inr (e, h) ↦ rw h a
    | inl (s', h) ↦ rw h (guarded-IsAccepted show has_reference g m s s' h a)
  ]

  -- A call takes a manifest in only where it has no receipt, and leaves one.
  accepts_lem :
      (m : String) (c : Call) (s : Store)
      → accepts show has_reference m c s ≡ true
      → (any (has_key (receipt m)) s.settings ≡ false) × IsAccepted m (serve show has_reference c s)
  unfolding accepts serve call
  accepts_lem m (accept m' manifest t key snapshot) s h =
      let same : m' ≡ m = ==_sound m' m (ground arith) in
      elim (Result-cases (accept_manifest m' manifest t key snapshot s)) [
        | inr (e, q) ↦ let bad = rw (q, accepts) at h in ground arith
        | inl (s', q) ↦
            let (new, left) = accept-eq-ok m' manifest t key snapshot s s' q in
            (
              rw (← same) new,
              rw (q, ← left, ← same)
                  (any-set (receipt m') key snapshot _ (any-snoc (receipt m') manifest s.settings)),
            )
      ]
  accepts_lem m (save t) s h = cc
  accepts_lem m (put key value) s h = cc
  accepts_lem m (guarded g) s h = cc

  times_accepted-done :
      (m : String) (cs : List Call) (s : Store)
      → IsAccepted m s
      → times_accepted show has_reference m cs s ≡ 0
  unfolding times_accepted
  times_accepted-done m [] s a = omega arith
  times_accepted-done m (c ∷ cs) s a = elim (Bool-cases (accepts show has_reference m c s)) [
    | inl h ↦ let (new, _) = accepts_lem m c s h in cc
    | inr h ↦ rw h (
        omega (
          arith,
          times_accepted-done m cs (serve show has_reference c s) (serve-IsAccepted c m s a),
        ))
  ]

  -- Among any calls that accept manifests, save, archive, delete and switch threads or write
  -- settings, from any store, a manifest is accepted at most once.
  pub times_accepted-le :
      (m : String) (cs : List Call) (s : Store) → times_accepted show has_reference m cs s ≤ 1
  unfolding times_accepted
  times_accepted-le m [] s = omega arith
  times_accepted-le m (c ∷ cs) s = elim (Bool-cases (accepts show has_reference m c s)) [
    | inl h ↦
        let (_, a) = accepts_lem m c s h in
        rw h (omega (arith, times_accepted-done m cs (serve show has_reference c s) a))
    | inr h ↦ rw h (omega (arith, times_accepted-le m cs (serve show has_reference c s)))
  ]
