-- ===== src/Usage/Ledger.antt =====
-- The usage ledger: the class UsageLedger of packages/runtime/src/usage-ledger.ts over the table
-- provider_requests of packages/runtime/src/schema.ts, with the detailed tracking enabled: here the life
-- of a request's row, in Counting the totals, in Listing the filters, in Reports the summary by days and
-- the pages of requests. A row's position is its rowid, as rows are never deleted. Ids, titles and other
-- texts are numbers, compared for equality (an id also for its order); a time is its instant, as the
-- texts stored are canonical UTC. Sums of tokens are exact.
pub mod Counting
pub mod Listing
pub mod Reports
pub mod Finality
pub mod Totals
pub mod Pages
mod Tests
use foundry_agent_workspace.Base.{
  is_some, ℕ, suc, ◌+◌, min, Bool, true, false, not, ◌&&◌, ◌||◌, Option, none, some, List, [], ◌∷◌,
  ◌++◌, ◌==◌, leb, ltb, if◌then◌else◌, any, filter, find, update, length, get, set, Result, ok, err,
  ◌>>=◌, ◌>>◌, require, or_throw,
}
use foundry_agent_workspace.Accounts.{Number, safe_nat}
use foundry_agent_workspace.Usage.{MeasuredUsage, or_zero}

pub data Outcome : Type 0 where
  pending completed failed cancelled interrupted unknown : Outcome

pub data Purpose : Type 0 where
  conversation probe legacy : Purpose

pub data ApiKind : Type 0 where
  fake responses chat_completions anthropic : ApiKind

pub record UsageRequest : Type 0 where
  pub request_id : ℕ
  pub task_id : Option ℕ
  pub root_task_id : Option ℕ
  pub parent_task_id : Option ℕ
  pub task_title : Option ℕ
  pub root_task_title : Option ℕ
  pub role : Option ℕ
  pub purpose : Purpose
  pub profile_id : Option ℕ
  pub profile_name : Option ℕ
  pub api_kind : Option ApiKind
  pub deployment : Option ℕ
  pub effort : Option ℕ
  pub attribution_known : Bool
  pub reported_model : Option ℕ
  pub response_id : Option ℕ
  pub created_at : ℕ
  pub attempted_at : Option ℕ
  pub finished_at : Option ℕ
  pub outcome : Outcome
  pub reserved_tokens : ℕ
  pub input_tokens : Option ℕ
  pub output_tokens : Option ℕ
  pub cache_read_tokens : Option ℕ
  pub cache_creation_tokens : Option ℕ
  pub reasoning_tokens : Option ℕ
  pub usage_known : Bool
  pub reason : Option ℕ

-- What the ledger reads of a task and of a profile.
pub record Task : Type 0 where
  pub id : ℕ
  pub root_task_id : Option ℕ
  pub parent_task_id : Option ℕ
  pub title : ℕ
  pub role : Option ℕ

pub record ModelProfile : Type 0 where
  pub id : ℕ
  pub name : ℕ
  pub api_kind : ApiKind
  pub deployment : ℕ
  pub effort : Option ℕ

pub data LedgerError : Type 0 where
  invalid_reservation : LedgerError
  invalid_cursor : LedgerError
  constraint : LedgerError

abbrev pub is_pending : Outcome → Bool
is_pending pending = true
is_pending _ = false

abbrev pub has_request_id : ℕ → UsageRequest → Bool
has_request_id id r = r.request_id == id

-- A property of the task, when there is one.
abbrev pub task_field : (Task → ℕ) → Option Task → Option ℕ
task_field f none = none
task_field f (some task) = some (f task)

abbrev pub task_option : (Task → Option ℕ) → Option Task → Option ℕ
task_option f none = none
task_option f (some task) = f task

abbrev pub or_else : Option ℕ → Option ℕ → Option ℕ
or_else none other = other
or_else (some x) other = some x

-- The title of the root task, read from the table of tasks when it is another task.
unfoldable pub root_title : (ℕ → Option ℕ) → Option Task → Option ℕ
root_title title_of none = none
root_title title_of (some task) = elim task.root_task_id [
  | none ↦ some task.title
  | some root ↦
      if root == task.id then some task.title else or_else (title_of root) (some task.title)
]

abbrev pub new_request :
    (ℕ → Option ℕ) → (id : ℕ) → Option Task → ModelProfile → ℕ → Purpose → ℕ → UsageRequest
new_request title_of id task profile reserved purpose now = record {
  request_id = id;
  task_id = task_field (λ t. t.id) task;
  root_task_id = or_else (task_option (λ t. t.root_task_id) task) (task_field (λ t. t.id) task);
  parent_task_id = task_option (λ t. t.parent_task_id) task;
  task_title = task_field (λ t. t.title) task;
  root_task_title = root_title title_of task;
  role = task_option (λ t. t.role) task;
  purpose = purpose;
  profile_id = some profile.id;
  profile_name = some profile.name;
  api_kind = some profile.api_kind;
  deployment = some profile.deployment;
  effort = profile.effort;
  attribution_known = true;
  reported_model = none;
  response_id = none;
  created_at = now;
  attempted_at = none;
  finished_at = none;
  outcome = pending;
  reserved_tokens = reserved;
  input_tokens = none;
  output_tokens = none;
  cache_read_tokens = none;
  cache_creation_tokens = none;
  reasoning_tokens = none;
  usage_known = false;
  reason = none;
}

-- The foreign key `task_id`.
abbrev pub task_exists : (ℕ → Option ℕ) → Option Task → Bool
task_exists title_of none = true
task_exists title_of (some task) = is_some (title_of task.id)

-- `title_of` is the table of tasks, `now` the clock.
unfoldable pub begin_usage :
    (title_of : ℕ → Option ℕ)
    → List UsageRequest
    → (id : ℕ) → Option Task
    → ModelProfile
    → Number
    → Purpose
    → (now : ℕ) → Result LedgerError (List UsageRequest)
begin_usage title_of rows id task profile reserved purpose now = do
  tokens ← or_throw (safe_nat reserved) invalid_reservation
  require (not (any (has_request_id id) rows) && task_exists title_of task) constraint
  ok (rows ++ new_request title_of id task profile tokens purpose now ∷ [])

-- WHERE request_id = ? AND attempted_at IS NULL AND finished_at IS NULL
abbrev pub is_attemptable : ℕ → UsageRequest → Bool
is_attemptable id r =
    has_request_id id r && not (is_some r.attempted_at) && not (is_some r.finished_at)

unfoldable pub attempt_usage : List UsageRequest → (id now : ℕ) → List UsageRequest
attempt_usage rows id now =
    update (is_attemptable id) (λ r. record r { attempted_at = some now }) rows

-- WHERE request_id = ? AND finished_at IS NULL
abbrev pub is_open : ℕ → UsageRequest → Bool
is_open id r = has_request_id id r && not (is_some r.finished_at)

-- What a request ends with.
pub record UsageEnding : Type 0 where
  pub detail : Option MeasuredUsage
  pub outcome : Outcome
  pub reason : Option ℕ
  pub reported_model : Option ℕ
  pub response_id : Option ℕ

abbrev pub of_detail : (MeasuredUsage → Option ℕ) → Option MeasuredUsage → Option ℕ
of_detail f none = none
of_detail f (some m) = f m

unfoldable pub finished : UsageEnding → ℕ → UsageRequest → UsageRequest
finished e now r = record r {
  finished_at = some now;
  outcome = e.outcome;
  reason = e.reason;
  reported_model = e.reported_model;
  response_id = e.response_id;
  usage_known = is_some e.detail;
  input_tokens = of_detail (λ m. some m.input_tokens) e.detail;
  output_tokens = of_detail (λ m. some m.output_tokens) e.detail;
  cache_read_tokens = of_detail (λ m. m.cache_read_tokens) e.detail;
  cache_creation_tokens = of_detail (λ m. m.cache_creation_tokens) e.detail;
  reasoning_tokens = of_detail (λ m. m.reasoning_tokens) e.detail;
}

-- The rows, and whether exactly one of them changed; a row with a time of end is not pending.
unfoldable pub finish_usage :
    List UsageRequest
    → (id : ℕ) → UsageEnding
    → (now : ℕ) → Result LedgerError (List UsageRequest × Bool)
finish_usage rows id e now = do
  require (not (any (is_open id) rows) || not (is_pending e.outcome)) constraint
  ok (update (is_open id) (finished e now) rows, length (filter (is_open id) rows) == 1)

unfoldable pub has_usage : List UsageRequest → ℕ → Bool
has_usage rows id = any (has_request_id id) rows

abbrev pub has_no_end : UsageRequest → Bool
has_no_end r = not (is_some r.finished_at)

-- `restarted` is the text of the reason.
unfoldable pub recover : ℕ → List UsageRequest → (now : ℕ) → List UsageRequest
recover restarted rows now =
    update has_no_end
      (λ r. record r { outcome = interrupted; finished_at = some now; reason = some restarted })
      rows
