-- ===== src/Usage/Ledger/Tests.antt =====
-- Requests that begin, end and are reported by packages/runtime/src/usage-ledger.ts.
use foundry_agent_workspace.Base.{
  zero, ◌+◌, ◌/◌, ℕ, suc, ◌≡◌, refl, arith, true, false, Option, none, some, List, [], ◌∷◌, length,
  All, find, filter, ok, err, take, drop, get, set,
}
use foundry_agent_workspace.Accounts.{nat, other}
use foundry_agent_workspace.Usage.{MeasuredUsage}
use foundry_agent_workspace.Usage.Ledger.{
  pending, completed, conversation, responses, UsageRequest, Task, ModelProfile, constraint,
  invalid_reservation, invalid_cursor, has_request_id, UsageEnding, root_title, begin_usage,
  attempt_usage, finished, finish_usage, has_usage, has_no_end, recover,
}
use foundry_agent_workspace.Usage.Ledger.Counting.{add_attempt, add_outcome, add_details, add}
use foundry_agent_workspace.Usage.Ledger.Listing.{UsageFilters, meets, ordered, records}
use foundry_agent_workspace.Usage.Ledger.Reports.{
  add_day, add_days, summary, revision, decode, collect, requests,
}
use foundry_agent_workspace.Usage.Ledger.Finality.{
  finishes, recovers, attempts, begins, call_step, call_steps, finish_usage_once,
}
use foundry_agent_workspace.Usage.Ledger.Totals.{Sound, summary-Sound}
use foundry_agent_workspace.Usage.Ledger.Pages.{walk, requests_complete}

abbrev titles : ℕ → Option ℕ
titles id = some (id + 100)

abbrev child : Task
child = record { id = 7; root_task_id = some 1; parent_task_id = some 1; title = 107; role = none }

abbrev profile : ModelProfile
profile = record { id = 5; name = 50; api_kind = responses; deployment = 51; effort = none }

abbrev row : (id now reserved : ℕ) → UsageRequest
row id now reserved = record {
  request_id = id;
  task_id = some 7;
  root_task_id = some 1;
  parent_task_id = some 1;
  task_title = some 107;
  root_task_title = some 101;
  role = none;
  purpose = conversation;
  profile_id = some 5;
  profile_name = some 50;
  api_kind = some responses;
  deployment = some 51;
  effort = none;
  attribution_known = true;
  reported_model = none;
  response_id = none;
  created_at = now;
  attempted_at = none;
  finished_at = none;
  outcome = pending;
  reserved_tokens = reserved;
  input_tokens = none;
  output_tokens = none;
  cache_read_tokens = none;
  cache_creation_tokens = none;
  reasoning_tokens = none;
  usage_known = false;
  reason = none;
}

abbrev usage_detail : MeasuredUsage
usage_detail = record {
  input_tokens = 30;
  output_tokens = 12;
  cache_read_tokens = some 10;
  cache_creation_tokens = none;
  reasoning_tokens = some 2;
}

abbrev success : UsageEnding
success = record {
  detail = some usage_detail;
  outcome = completed;
  reason = none;
  reported_model = some 8;
  response_id = some 9;
}

-- The first request, completed.
abbrev done : UsageRequest
done = record (row 1 1000 400) {
  attempted_at = some 1001;
  finished_at = some 1002;
  outcome = completed;
  usage_known = true;
  reported_model = some 8;
  response_id = some 9;
  input_tokens = some 30;
  output_tokens = some 12;
  cache_read_tokens = some 10;
  reasoning_tokens = some 2;
}

abbrev rows : List UsageRequest
rows = done ∷ row 2 2000 500 ∷ row 3 2000 600 ∷ []

life : Unit {0}
unfolding root_title begin_usage attempt_usage finished finish_usage has_usage recover
life = tt

lives :
    (begin_usage titles [] 1 (some child) profile (nat 400) conversation 1000
      ≡ ok (row 1 1000 400 ∷ []))
    × (begin_usage titles rows 2 (some child) profile (nat 400) conversation 3000 ≡ err constraint)
    × (begin_usage titles rows 4 none profile other conversation 3000 ≡ err invalid_reservation)
    × (finish_usage (attempt_usage (row 1 1000 400 ∷ []) 1 1001) 1 success 1002
        ≡ ok (done ∷ [], true))
    × (finish_usage rows 2 (record success { outcome = pending }) 3000 ≡ err constraint)
    × (finish_usage rows 1 success 3000 ≡ ok (rows, false))
    × (has_usage rows 3 ≡ true)
    × (has_usage (recover 77 rows 3000) 4 ≡ false)
unfolding life
lives = (refl, refl, refl, refl, refl, refl, refl, refl)

abbrev everything : UsageFilters
everything = record {
  from = none;
  to = none;
  include_demo = false;
  task_id = some 1;
  include_children = true;
  profile_id = none;
  api_kind = none;
  model = none;
  effort = none;
  purpose = none;
}

abbrev day : ℕ → ℕ
day instant = instant / 1500

-- The digest of the revision alone.
abbrev digest : UsageFilters → ℕ → ℕ
digest f n = n

-- What begins between the first page and the others.
abbrev newcomers : ℕ → List UsageRequest
newcomers zero = []
newcomers (suc k) = row 4 3000 100 ∷ []

newcomers-unfinished : (k : ℕ) → All (λ r. has_no_end r ≡ true) (newcomers k)
newcomers-unfinished zero = tt
newcomers-unfinished (suc k) = (refl, tt)

reports : Unit {0}
unfolding root_title begin_usage attempt_usage finished finish_usage recover call_step call_steps
    meets ordered records take add add_details add_outcome add_attempt get set add_day add_days
    summary revision decode collect requests walk drop
reports = tt

scenario :
    (records everything none rows ≡ row 3 2000 600 ∷ row 2 2000 500 ∷ done ∷ [])
    × ((summary day everything rows).all.total ≡ 42)
    × ((summary day everything rows).all.reserved_pending ≡ 1100)
    × (length (summary day everything rows).days ≡ 2)
    × (requests digest everything (some (record { s = 0; n = 2; cap = 3 })) (some 2) rows
        ≡ err invalid_cursor)
    × (walk digest everything (some 2) rows newcomers 2 0 none
        ≡ some (records everything none rows))
unfolding reports
scenario = (refl, refl, refl, refl, refl, refl)

finish_usage_once_example :
    let rows' = call_steps titles 77 rows (
      finishes 2 success 3000
      ∷ recovers 4000
      ∷ attempts 1 4001
      ∷ begins 4 (some child) profile (nat 10) conversation 4002
      ∷ []) in
    (find (has_request_id 1) rows' ≡ some done)
    × (finish_usage rows' 1 success 5000 ≡ ok (rows', false))
finish_usage_once_example =
    finish_usage_once titles 77 rows
      (finishes 2 success 3000
        ∷ recovers 4000
        ∷ attempts 1 4001
        ∷ begins 4 (some child) profile (nat 10) conversation 4002
        ∷ [])
      1 done success 5000 (ground arith) refl refl

summary-Sound_example :
    Sound (summary day everything rows)
    × ((summary day everything rows).all.requests ≡ length (filter (meets everything) rows))
summary-Sound_example = summary-Sound day everything rows

requests_complete_example :
    walk digest everything (some 2) rows newcomers 4 0 none ≡ some (records everything none rows)
unfolding reports
requests_complete_example =
    requests_complete digest everything (some 2) rows newcomers (omega arith) refl
      newcomers-unfinished
