-- ===== src/Db/Sessions/Tests.antt =====
-- Runs of the operations on threads (crates/hub-db/src/lib.rs), and the theorems at concrete inputs.
use localoud_ai.Base.{
  ℕ, ◌≤◌, ◌≡◌, refl, inl, inr, String, List, [], ◌∷◌, Option, none, some, Bool, true, false, Result,
  ok, err, In, arith,
}
use localoud_ai.Core.{HubThreadId}
use localoud_ai.Db.Sessions.{
  Store, ThreadMapping, ThreadRow, TurnRow, busy, bad_title, constraint_failed, delete_thread,
  rename_thread, archive_project_threads, accept_manifest, unregister_project,
}
use localoud_ai.Db.Sessions.Idle.{archive_project, delete, after, busy_kept}
use localoud_ai.Db.Sessions.Receipts.{Call, accept, guarded, put, times_accepted, times_accepted-le}

abbrev show : HubThreadId → String
show id = "c0ffee"

abbrev no_reference : HubThreadId → Bool
no_reference id = false

abbrev mapping : HubThreadId → String → String → ThreadMapping
mapping id provider_thread status = record {
  id = id;
  project_id = 1;
  provider = "codex";
  provider_thread_id = provider_thread;
  title = "Parser";
  status = status;
}

abbrev idle_thread : ThreadRow
idle_thread = record { mapping = mapping 1 "p1" "completed"; archived = false }

abbrev busy_thread : ThreadRow
busy_thread = record { mapping = mapping 2 "p2" "idle"; archived = false }

abbrev turn : TurnRow
turn = record { id = "t"; thread_id = 2; provider_turn_id = some "pt"; status = "inProgress" }

abbrev store : Store
store = record {
  projects = record { id = 1; name = "hub"; registered = true } ∷ [];
  threads = idle_thread ∷ busy_thread ∷ [];
  turns = turn ∷ [];
  events = [];
  settings =
      ("thread_mode:c0ffee", "plan") ∷ ("THREAD-MODE:C0FFEE:1", "act") ∷ ("theme", "dark") ∷ [];
  snapshots = "p1" ∷ "p2" ∷ [];
}

deleted_store : Store
deleted_store = record store {
  threads = busy_thread ∷ [];
  settings = ("theme", "dark") ∷ [];
  snapshots = "p2" ∷ [];
}

-- In LIKE, `_` stands for any character, and the case of a letter is not looked at.
deleted_settings : delete_thread show no_reference 1 store ≡ ok deleted_store
unfolding delete_thread deleted_store
deleted_settings = refl

referenced : delete_thread show (λ id. true) 1 store ≡ err constraint_failed
unfolding delete_thread
referenced = refl

running_turn : delete_thread show no_reference 2 store ≡ err busy
unfolding delete_thread
running_turn = refl

project_with_running : archive_project_threads 1 store ≡ err busy
unfolding archive_project_threads
project_with_running = refl

-- Only the status of a thread keeps its project registered; a running turn does not.
unregistered :
    unregister_project 1 store
    ≡ ok (record store { projects = record { id = 1; name = "hub"; registered = false } ∷ [] })
unfolding unregister_project
unregistered = refl

renamed : rename_thread 1 "  \n " store ≡ err bad_title
unfolding rename_thread localoud_ai.Base.Text.is_nil localoud_ai.Base.Text.trim
renamed = refl

busy_kept_example :
    In busy_thread (after show no_reference (archive_project 1) store).threads
    × ((t : TurnRow)
        → t.thread_id ≡ 2
        → In t store.turns
        → In t (after show no_reference (archive_project 1) store).turns)
busy_kept_example =
    busy_kept show no_reference (archive_project 1) busy_thread store
      (λ m. elim m [ inl e ↦ absurd (omega arith) | inr n ↦ n ], (λ m. m, tt)) (inr (inl refl)) refl

abbrev calls : List Call
calls =
    accept "m1" "{}" (mapping 3 "p3" "queued") "workflow:3" "{}"
    ∷ guarded (delete 3)
    ∷ put "theme" "light"
    ∷ accept "m1" "{}" (mapping 4 "p4" "queued") "workflow:4" "{}"
    ∷ []

accepted_once : times_accepted show no_reference "m1" calls store ≡ 1
unfolding times_accepted accept_manifest delete_thread
accepted_once = refl

times_accepted-le_example : times_accepted show no_reference "m1" calls store ≤ 1
times_accepted-le_example = times_accepted-le show no_reference "m1" calls store
