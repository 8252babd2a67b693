-- ===== src/Db/Tests.antt =====
-- Runs of the tables (crates/hub-db/src/lib.rs), and the theorems at concrete inputs.
use localoud_ai.Base.{
  ℕ, ◌≤◌, ◌≡◌, refl, String, List, [], ◌∷◌, Option, none, some, Bool, true, false, not, ◌&&◌, ◌||◌,
  ◌==◌, if◌then◌else◌, Result, ok, err, In, All, count_if, nat_eq, string_eq,
}
use localoud_ai.Core.{HubThreadId}
use localoud_ai.Db.Approvals.{
  ToolApproval, ApprovalStatus, pending, approved, consumed, already_decided, consume_tool_approval,
  not_approved,
}
use localoud_ai.Db.Approvals.Life.{
  Moves, Call, create, decide, consume, serve, status_of, serve-Moves,
}
use localoud_ai.Db.Segments.{
  ProviderSegment, is_active, start_provider_segment, active_provider_segment,
}
use localoud_ai.Db.Segments.Active.{start-active}
use localoud_ai.Db.Reviews.{ReviewRun}
use localoud_ai.Db.Reviews.Verdicts.{finish, serve as serve_review, IsIndependent, serve_stands}
use localoud_ai.Db.Approvals.OneShot.{times_spent, times_spent-le}

abbrev any_thread : HubThreadId → Bool
any_thread t = true

abbrev digest : String
digest = "0123456789abcdef0123456789abcdef0123456789abcdef0123456789abcdef"

abbrev asked : ToolApproval ℕ
asked = record {
  id = "a";
  thread_id = 1;
  turn_id = "t";
  digest = digest;
  request = 7;
  status = pending;
}

abbrev calls : List (Call ℕ)
calls =
    create asked
    ∷ decide "a" true
    ∷ consume "a" 1 "t" digest
    ∷ consume "a" 1 "t" digest
    ∷ decide "a" true
    ∷ consume "a" 1 "t" digest
    ∷ []

spent_once : times_spent any_thread "a" calls [] ≡ 1
unfolding times_spent localoud_ai.Db.Approvals.OneShot.spends consume_tool_approval serve
    localoud_ai.Db.Approvals.decide_tool_approval localoud_ai.Db.Approvals.create_tool_approval
    localoud_ai.Base.Text.is_blank localoud_ai.Base.Text.all_chars
spent_once = refl

not_yet : consume_tool_approval "a" 1 "t" digest (asked ∷ []) ≡ err not_approved
unfolding consume_tool_approval
not_yet = refl

serve-Moves_example : Moves (status_of "a" (record asked { status = approved } ∷ [])) (
    status_of "a"
      (serve any_thread (consume "a" 1 "t" digest) (record asked { status = approved } ∷ [])))
serve-Moves_example =
    serve-Moves any_thread (consume "a" 1 "t" digest) "a" (record asked { status = approved } ∷ [])

times_spent-le_example :
    times_spent any_thread "a" calls (record asked { status = consumed } ∷ []) ≤ 1
times_spent-le_example =
    times_spent-le any_thread "a" calls (record asked { status = consumed } ∷ []) (λ m. m, tt)

abbrev segment : String → ℕ → Bool → ProviderSegment
segment id thread ended = record {
  id = id;
  thread_id = thread;
  target = record { profile_id = "vllm"; model_id = "m"; effort = none };
  profile_revision = 1;
  provider_thread_id = none;
  ended = ended;
}

started :
    start_provider_segment any_thread
      (λ p. true)
      (segment "s2" 1 false)
      (segment "s1" 1 false ∷ segment "o" 2 false ∷ [])
    ≡ ok (segment "s1" 1 true ∷ segment "o" 2 false ∷ segment "s2" 1 false ∷ [])
unfolding start_provider_segment localoud_ai.Base.Text.is_blank
started = refl

start-active_example :
    ((thread : HubThreadId)
      → active_provider_segment thread
          (segment "s1" 1 true ∷ segment "o" 2 false ∷ segment "s2" 1 false ∷ [])
        ≡ (if 1 == thread
            then some (segment "s2" 1 false)
            else active_provider_segment thread (segment "s1" 1 false ∷ segment "o" 2 false ∷ [])))
    × (count_if
          (is_active 1)
          (segment "s1" 1 true ∷ segment "o" 2 false ∷ segment "s2" 1 false ∷ [])
        ≡ 1)
start-active_example =
    start-active any_thread (λ p. true) (segment "s2" 1 false)
      (segment "s1" 1 false ∷ segment "o" 2 false ∷ [])
      (segment "s1" 1 true ∷ segment "o" 2 false ∷ segment "s2" 1 false ∷ []) started

abbrev passed : ReviewRun ℕ
passed = record {
  id = "r";
  task_id = 1;
  executor_thread_id = 1;
  reviewer_thread_id = 2;
  artifact_hash = "h";
  verdict = "pass";
  body = 0;
}

serve_stands_example :
    ((r : ReviewRun ℕ)
      → In r (passed ∷ [])
      → (r.verdict == "pending") ≡ false
      → In r (serve_review any_thread any_thread (finish "r" "h" "rework" 1) (passed ∷ [])))
    × All IsIndependent
        (serve_review any_thread any_thread (finish "r" "h" "rework" 1) (passed ∷ []))
serve_stands_example =
    serve_stands any_thread any_thread (finish "r" "h" "rework" 1) (passed ∷ []) (refl, tt)
