-- ===== src/Context/Broker.antt =====
-- `Broker` of crates/hub-context/src/lib.rs. A retrieval gives its result and the rows that it
-- leaves; the identifier of the row that it writes is an argument. The lock of the database is held
-- by one call at a time, as the sequence of the calls.
use localoud_ai.Base.{
  ℕ, zero, suc, ◌+◌, ◌-◌, ◌^◌, ◌%◌, String, List, [], ◌∷◌, Option, none, some, Bool, true, false,
  not, ◌||◌, ltb, ◌==◌, string_eq, len, count, any, take, keep, map, if◌then◌else◌, Result, ok, err,
  ◌>>=◌, ◌>>◌, bail_if, ok_or,
}
use localoud_ai.Base.Text.{is_blank, is_nil, has_word, first_chars, concat, starts_with, ends_with}
use localoud_ai.Core.{
  ProjectId, TaskId, Task, ContextBudget, ContextCapsule, ContextInspection, ContextItem,
  ContextRetrieval,
}
use localoud_ai.Context.{
  Outside, MemoryItem, ContextSource, repo, session_store, org_brain, decision_store, task_history,
  ContextRequest, RetrievalResult, ContextError, capsule_not_found, bad_request,
  single_retrieval_exceeded, remaining_exceeded, metadata_exceeds, path_missing, bad_path,
  sensitive_path, unbounded_file, org_brain_not_configured, memory_rejected, outside, out_of_fuel,
  estimate_tokens, prepare_capsule,
}
use localoud_ai.Context.Store.{
  Rows, capsule, save_capsule, retrievals, total, record_retrieval_denial, commit_retrieval,
}

abbrev pub is_org_brain : ContextSource → Bool
is_org_brain org_brain = true
is_org_brain _ = false

abbrev pub lift : {A : Type 0} → Result String A → Result ContextError A
lift (ok a) = ok a
lift (err e) = err (outside e)

-- `v.join(sep)`
unfoldable pub join : String → List String → String
join sep [] = ""
join sep (s ∷ []) = s
join sep (s ∷ t ∷ rest) = concat s (concat sep (join sep (t ∷ rest)))

-- `truncate` at the start of the 33rd character from the end, or at 0 if there are fewer.
unfoldable pub cut : String → String
cut s = first_chars (count s - 33) s

-- `inspect`, where the sum of the `u32` estimates wraps in a release build.
unfoldable pub inspect : TaskId → Rows → Result ContextError ContextInspection
inspect task rows = elim (capsule task rows) [
  | none ↦ err capsule_not_found
  | some found ↦
      let used = total (retrievals task rows) % 2 ^ 32 in
      ok (record {
        capsule = found.0;
        initial_tokens = found.1;
        retrieved_tokens = used;
        current_estimate = if ltb (found.1 + used) (2 ^ 32) then found.1 + used else 2 ^ 32 - 1;
        retrievals = retrievals task rows;
        parent_conversation_inherited = false;
      })
]

abbrev remaining : ContextInspection → ℕ
remaining i = i.capsule.budget.max_total_tokens - i.current_estimate

abbrev sensitive_name : String → Bool
sensitive_name n =
    n == ".git"
    || n == ".ssh"
    || n == ".codex"
    || starts_with n ".env"
    || ends_with n ".key"
    || ends_with n ".pem"

abbrev is_normal : Option String → Bool
is_normal none = false
is_normal (some s) = true

abbrev sensitive_component : Outside → Option String → Bool
sensitive_component out none = false
sensitive_component out (some s) = sensitive_name (out.lower s)

module _ (out : Outside) where
  -- The guards on the path of a repository file. The components are all normal in the second test.
  unfoldable pub check_path : String → Result ContextError (Unit {0})
  check_path path = do
    bail_if (is_nil path || any (λ c. not (is_normal c)) (out.components path)) bad_path
    bail_if (any (sensitive_component out) (out.components path)) sensitive_path

  unfoldable pub read_repo : String → Result ContextError (List (String × String))
  unfolding check_path
  read_repo path = do
    check_path path
    link ← lift (out.is_symlink path)
    size ← if link then ok 0 else lift (out.file_size path)
    bail_if (link || ltb 512000 size) unbounded_file
    text ← lift (out.read_to_string path)
    ok ((path, text) ∷ [])

  abbrev history_entry : Task → String × String
  history_entry t = (
    out.id_text t.id,
    concat t.title (concat ": " (concat (out.status_text t.status) (concat "\n" t.description))),
  )

  unfoldable pub history : ProjectId → String → Result ContextError (List (String × String))
  history project query = do
    tasks ← lift (out.tasks project)
    ok (
        map history_entry
          (take 8 (keep (λ t. has_word (out.lower t.description) (out.lower query)) tasks)))

  -- The `match request.source` of `retrieve_inner`.
  unfoldable pub entries_of :
      ProjectId → ContextRequest → Result ContextError (List (String × String))
  unfolding read_repo history
  entries_of project request = elim request.source [
    | repo ↦ ok_or request.path path_missing >>= λ path. read_repo path
    | decision_store ↦ lift (out.search_decisions project request.query)
    | session_store ↦ lift (out.search_session project request.query)
    | task_history ↦ history project request.query
    | org_brain ↦ err org_brain_not_configured
  ]

  -- The `while` loop of `finish`.
  unfoldable pub shorten : ℕ → ℕ → RetrievalResult → Result ContextError RetrievalResult
  shorten zero budget r = err out_of_fuel
  shorten (suc fuel) budget r =
      let rest = shorten fuel budget (record r { truncated = true; text = cut r.text }) in
      if ltb budget (estimate_tokens (out.result_text r))
      then (if is_nil r.text then err metadata_exceeds else rest)
      else ok r

  abbrev pub initial_result : ContextRequest → List (String × String) → RetrievalResult
  initial_result request entries = record {
    source = request.source;
    references = map (λ e. e.0) entries;
    text = out.redact (join "\n\n" (map (λ e. concat "[" (concat e.0 (concat "]\n" e.1))) entries));
    truncated = false;
  }

  abbrev pub row_of : TaskId → ℕ → ContextRequest → RetrievalResult → ContextRetrieval
  row_of task fresh request r = record {
    id = fresh;
    task_id = task;
    source = out.source_text request.source;
    query = out.redact request.query;
    token_budget = request.token_budget;
    token_estimate = estimate_tokens (out.result_text r);
    result_ref = join "," r.references;
  }

  abbrev denial_of : TaskId → ℕ → ContextRequest → ContextError → ContextRetrieval
  denial_of task fresh request e = record {
    id = fresh;
    task_id = task;
    source = out.source_text request.source;
    query = out.redact request.query;
    token_budget = request.token_budget;
    token_estimate = 0;
    result_ref = concat "denied: " (out.error_text e);
  }

  module _ (task : TaskId) (project : ProjectId) (fresh : ℕ) where
    -- `build_initial`
    unfoldable pub build_initial :
        String
        → List String
        → List String
        → List ContextItem
        → ContextBudget
        → Rows
        → Result ContextError (ContextCapsule × Rows)
    build_initial goal acceptance constraints items budget rows = do
      c ← prepare_capsule out fresh task project goal acceptance constraints items budget
      rows' ← save_capsule c (estimate_tokens (out.capsule_text c)) rows
      ok (c, rows')

    -- `finish`. Every round but the last cuts a character at least.
    unfoldable pub finish :
        ContextRequest
        → List (String × String)
        → Rows
        → Result ContextError (RetrievalResult × Rows)
    unfolding shorten
    finish request entries rows = do
      let start = initial_result request entries
      r ← shorten (suc (count start.text) + 1) request.token_budget start
      rows' ← commit_retrieval (row_of task fresh request r) rows
      ok (r, rows')

    unfoldable pub retrieve_inner :
        ContextRequest → Rows → Result ContextError (RetrievalResult × Rows)
    unfolding finish entries_of inspect
    retrieve_inner request rows = do
      bail_if
          (is_blank request.query || ltb 1000 (len request.query) || ltb request.token_budget 64)
          bad_request
      i ← inspect task rows
      bail_if (ltb i.capsule.budget.max_single_retrieval_tokens request.token_budget)
          single_retrieval_exceeded
      bail_if (ltb (remaining i) request.token_budget) remaining_exceeded
      entries ← entries_of project request
      finish request entries rows

    -- What is done with the result of a retrieval: a denial is recorded.
    unfoldable pub conclude :
        ContextRequest
        → Rows
        → Result ContextError (RetrievalResult × Rows)
        → Result ContextError RetrievalResult × Rows
    conclude request rows (ok found) = (ok found.0, found.1)
    conclude request rows (err e) =
        (err e, record_retrieval_denial (denial_of task fresh request e) rows)

    -- `retrieve`
    unfoldable pub retrieve : ContextRequest → Rows → Result ContextError RetrievalResult × Rows
    unfolding conclude retrieve_inner
    retrieve request rows = conclude request rows (retrieve_inner request rows)

    abbrev memory_entry : MemoryItem → String × String
    memory_entry m = (m.id, concat m.text (concat "\nProvenance: " (join ", " m.source_refs)))

    unfoldable pub retrieve_memory :
        ContextRequest → Rows → Result ContextError (RetrievalResult × Rows)
    unfolding finish inspect
    retrieve_memory request rows = do
      i ← inspect task rows
      bail_if
          (is_blank request.query
            || ltb 500 (len request.query)
            || ltb request.token_budget 64
            || ltb i.capsule.budget.max_single_retrieval_tokens request.token_budget
            || ltb (remaining i) request.token_budget)
          memory_rejected
      search ← ok_or out.memory org_brain_not_configured
      items ← lift (search request.query)
      finish request (map memory_entry items) rows

    -- `retrieve_async`
    unfoldable pub retrieve_async :
        ContextRequest → Rows → Result ContextError RetrievalResult × Rows
    unfolding retrieve retrieve_memory conclude
    retrieve_async request rows =
        let remembered = conclude request rows (retrieve_memory request rows) in
        if is_org_brain request.source then remembered else retrieve request rows
