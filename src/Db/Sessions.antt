-- ===== src/Db/Sessions.antt =====
-- The threads of sessions in the store: projects, threads, the turns that run on them and the settings
-- that go with them. The text of an identifier is a parameter, and so is whether a row of another
-- table refers to a thread without `ON DELETE CASCADE`.
pub mod Idle
mod Prefixes
pub mod Receipts
mod Tests
use Prim.Native.Char.{code}
use Prim.Native.String
use localoud_ai.Base.{
  ℕ, ◌+◌, String, List, [], ◌∷◌, ◌++◌, map, Option, none, some, Bool, true, false, not, ◌&&◌, ◌||◌,
  ◌==◌, nat_eq, string_eq, leb, ltb, nat_beq, count, any, find, keep, if◌then◌else◌, Result, ok,
  err, ◌>>=◌, ◌>>◌, bail_if, ok_or,
}
use localoud_ai.Base.Text.{is_blank, is_nil, trim, has_control, concat}
use localoud_ai.Core.{HubThreadId, ProjectId}
use localoud_ai.Db.{update_where, affected}

pub record ProjectRow : Type 0 where
  pub id : ProjectId
  pub name : String
  pub registered : Bool

-- `ThreadMapping`, and the column that archives.
pub record ThreadMapping : Type 0 where
  pub id : HubThreadId
  pub project_id : ProjectId
  pub provider : String
  pub provider_thread_id : String
  pub title : String
  pub status : String

pub record ThreadRow : Type 0 where
  pub mapping : ThreadMapping
  pub archived : Bool

pub record TurnRow : Type 0 where
  pub id : String
  pub thread_id : HubThreadId
  pub provider_turn_id : Option String
  pub status : String

-- An event, with the texts at `$.turn_id` and `$.text` of its body.
pub record EventRow : Type 0 where
  pub id : ℕ
  pub thread_id : Option HubThreadId
  pub kind : String
  pub turn_id : Option String
  pub text : Option String

pub record Store : Type 0 where
  pub projects : List ProjectRow
  pub threads : List ThreadRow
  pub turns : List TurnRow
  pub events : List EventRow
  pub settings : List (String × String)
  -- the provider's thread of each usage snapshot
  pub snapshots : List String

pub data SessionError : Type 0 where
  bad_name bad_title not_found busy empty_mapping already_accepted constraint_failed : SessionError

-- ('running','inProgress','dispatching')
abbrev pub is_busy : String → Bool
is_busy status = status == "running" || status == "inProgress" || status == "dispatching"

abbrev pub is_thread : HubThreadId → ThreadRow → Bool
is_thread id t = t.mapping.id == id

abbrev pub is_project : ProjectId → ProjectRow → Bool
is_project id p = p.id == id && p.registered

abbrev pub of_project : ProjectId → ThreadRow → Bool
of_project id t = t.mapping.project_id == id

-- A turn that runs on a thread.
abbrev pub runs_on : HubThreadId → TurnRow → Bool
runs_on id turn = turn.thread_id == id && is_busy turn.status

abbrev pub same_mapping : String → String → ThreadRow → Bool
same_mapping provider thread t =
    t.mapping.provider == provider && t.mapping.provider_thread_id == thread

unfoldable pub rename_project : ProjectId → String → Store → Result SessionError Store
rename_project id name s = do
  let name' = trim name
  bail_if (is_nil name' || ltb 120 (count name')) bad_name
  bail_if (not (affected (is_project id) s.projects == 1)) not_found
  ok (record s {
    projects =
        update_where (is_project id) (λ (p : ProjectRow). record p { name = name' }) s.projects;
  })

unfoldable pub unregister_project : ProjectId → Store → Result SessionError Store
unregister_project id s = do
  bail_if (any (λ (t : ThreadRow). of_project id t && is_busy t.mapping.status) s.threads) busy
  bail_if (not (affected (is_project id) s.projects == 1)) not_found
  ok (record s {
    projects =
        update_where (is_project id) (λ (p : ProjectRow). record p { registered = false })
          s.projects;
  })

unfoldable pub check_thread_idle : HubThreadId → Store → Result SessionError (Unit {0})
check_thread_idle id s = do
  t ← ok_or (find (is_thread id) s.threads) not_found
  bail_if (any (runs_on id) s.turns || is_busy t.mapping.status) busy

unfoldable pub check_threads_idle : List HubThreadId → Store → Result SessionError (Unit {0})
unfolding check_thread_idle
check_threads_idle [] s = ok tt
check_threads_idle (id ∷ ids) s = check_thread_idle id s >> check_threads_idle ids s

-- ("queued" | "integrating" | "stopping")
abbrev is_queued : String → Bool
is_queued status = status == "queued" || status == "integrating" || status == "stopping"

abbrev pub archive : Bool → ThreadRow → ThreadRow
archive to t = record t { archived = to }

unfoldable pub archive_project_threads : ProjectId → Store → Result SessionError Store
unfolding check_threads_idle
archive_project_threads id s = do
  check_threads_idle (map (λ (t : ThreadRow). t.mapping.id) (keep (of_project id) s.threads)) s
  bail_if (any (λ (t : ThreadRow). of_project id t && is_queued t.mapping.status) s.threads) busy
  ok (record s { threads = update_where (of_project id) (archive true) s.threads })

unfoldable pub archived_threads : Store → List HubThreadId
archived_threads s =
    map (λ (t : ThreadRow). t.mapping.id) (keep (λ (t : ThreadRow). t.archived) s.threads)

unfoldable pub set_thread_archived : HubThreadId → Bool → Store → Result SessionError Store
unfolding check_thread_idle
set_thread_archived id archived s = do
  check_thread_idle id s
  ok (record s { threads = update_where (is_thread id) (archive archived) s.threads })

abbrev lower_ascii : ℕ → ℕ
lower_ascii c = if leb b'A' c && leb c b'Z' then c + 32 else c

-- `text LIKE pattern || '%'`, where the pattern has no `%`: `_` stands for any character, and an ASCII
-- letter for itself in either case.
unfoldable pub like_head : String → String → Bool
like_head String.[] text = true
like_head (String.◌∷◌ p pattern) String.[] = false
like_head (String.◌∷◌ p pattern) (String.◌∷◌ c text) =
    (nat_beq (code p) b'_' || nat_beq (lower_ascii (code p)) (lower_ascii (code c)))
    && like_head pattern text

-- The settings that `delete_thread` deletes with a thread.
abbrev pub prefixes : List String
prefixes =
    "thread_model:" ∷ "thread_reasoning:" ∷ "thread_mode:" ∷ "chatgpt_messages:"
    ∷ "chatgpt_conversation:" ∷ "chatgpt_turn:" ∷ "workflow:" ∷ "autonomous:" ∷ "autonomous_parent:"
    ∷ "outcome:" ∷ "review:" ∷ "review_scope:" ∷ "recovery:" ∷ "recovery_consumed:"
    ∷ "memory_candidates:" ∷ "memory_candidate_scope:" ∷ "memory_saved:" ∷ "api_transcript:"
    ∷ "api_active_turn:" ∷ "codex_context_capsule:" ∷ "codex_context_capsule_consumed:"
    ∷ "codex_context_replay:" ∷ "codex_context_replay_consumed:" ∷ "codex_archive_synced:"
    ∷ "context_metrics:" ∷ []

-- `key=?1 OR key LIKE ?2`
abbrev pub belongs : String → String → String → Bool
belongs shown key prefix =
    key == concat prefix shown || like_head (concat prefix (concat shown ":")) key

abbrev pub of_thread : HubThreadId → EventRow → Bool
of_thread id e = elim e.thread_id [ none ↦ false | some t ↦ t == id ]

-- `DELETE FROM provider_usage_snapshots WHERE provider_thread_id=(…)`
abbrev pub other_snapshots : Option ThreadRow → List String → List String
other_snapshots none snapshots = snapshots
other_snapshots (some t) snapshots = keep (λ p. not (p == t.mapping.provider_thread_id)) snapshots

unfoldable pub delete_thread :
    (HubThreadId → String) → (HubThreadId → Bool) → HubThreadId → Store → Result SessionError Store
unfolding check_thread_idle like_head
delete_thread show has_reference id s = do
  check_thread_idle id s
  bail_if (has_reference id) constraint_failed
  ok (record s {
    snapshots = other_snapshots (find (is_thread id) s.threads) s.snapshots;
    events = keep (λ e. not (of_thread id e)) s.events;
    turns = keep (λ (t : TurnRow). not (t.thread_id == id)) s.turns;
    settings =
        keep (λ (kv : String × String). not (any (belongs (show id) kv.0) prefixes)) s.settings;
    threads = keep (λ t. not (is_thread id t)) s.threads;
  })

-- The upsert of `save_thread`: a known thread has its status replaced, and nothing else.
unfoldable pub save_thread : ThreadMapping → Store → Result SessionError Store
save_thread t s =
    if any (is_thread t.id) s.threads
    then ok (record s {
      threads =
          update_where (is_thread t.id)
            (λ (r : ThreadRow). record r { mapping = record r.mapping { status = t.status } })
            s.threads;
    })
    else do
      bail_if
          (any (same_mapping t.provider t.provider_thread_id) s.threads
            || not (any (λ (p : ProjectRow). p.id == t.project_id) s.projects))
          constraint_failed
      ok (record s { threads = s.threads ++ record { mapping = t; archived = false } ∷ [] })

unfoldable pub switch_thread_provider :
    HubThreadId → String → String → Store → Result SessionError Store
unfolding check_thread_idle
switch_thread_provider id provider thread s = do
  check_thread_idle id s
  bail_if (is_blank provider || is_blank thread) empty_mapping
  bail_if (any (λ t. not (is_thread id t) && same_mapping provider thread t) s.threads)
      constraint_failed
  bail_if (not (affected (is_thread id) s.threads == 1)) not_found
  ok (record s {
    threads =
        update_where (is_thread id)
          (λ (r : ThreadRow). record r {
            mapping = record r.mapping {
              provider = provider;
              provider_thread_id = thread;
              status = "idle";
            };
          })
          s.threads;
  })

unfoldable pub rename_thread : HubThreadId → String → Store → Result SessionError Store
rename_thread id title s = do
  let title' = trim title
  bail_if (is_nil title' || ltb 120 (count title') || has_control title') bad_title
  bail_if (not (affected (is_thread id) s.threads == 1)) not_found
  ok (record s {
    threads =
        update_where (is_thread id)
          (λ (r : ThreadRow). record r { mapping = record r.mapping { title = title' } }) s.threads;
  })

abbrev pub has_key : String → String × String → Bool
has_key key kv = kv.0 == key

unfoldable pub setting : String → List (String × String) → Option String
setting key settings = elim (find (has_key key) settings) [ none ↦ none | some kv ↦ some kv.1 ]

unfoldable pub remove_setting : String → List (String × String) → List (String × String)
remove_setting key settings = keep (λ kv. not (has_key key kv)) settings

unfoldable pub set_setting : String → String → List (String × String) → List (String × String)
set_setting key value settings =
    if any (has_key key) settings
    then update_where (has_key key) (λ kv. (kv.0, value)) settings
    else settings ++ (key, value) ∷ []

-- The receipt of a manifest.
abbrev pub receipt : String → String
receipt manifest_id = concat "manifest_receipt:" manifest_id

-- A transaction: an error leaves the store as it was.
unfoldable pub accept_manifest :
    String → String → ThreadMapping → String → String → Store → Result SessionError Store
unfolding save_thread set_setting
accept_manifest manifest_id manifest thread snapshot_key snapshot s = do
  bail_if (any (has_key (receipt manifest_id)) s.settings) already_accepted
  s' ←
      save_thread thread
        (record s { settings = s.settings ++ (receipt manifest_id, manifest) ∷ [] })
  ok (record s' { settings = set_setting snapshot_key snapshot s'.settings })
