-- ===== src/Runs.antt =====
-- Agent runs of a coordinated task: packages/runtime/src/orchestration-records.ts (class
-- OrchestrationRecords, the agent_runs methods) over the table agent_runs of schema.ts.
-- A table is the list of its rows in insertion order; ids are numbers, compared for equality only;
-- timestamps and the task's own columns (title, worktree, branch) are left out.
pub mod Lifecycle
pub mod Fencing
pub mod Admission
mod Tests
use foundry_agent_workspace.Base.{
  ℕ, ◌+◌, Bool, true, false, not, ◌&&◌, ◌||◌, Option, none, some, List, [], ◌∷◌, ◌++◌, ◌==◌, ltb,
  if◌then◌else◌, Result, ok, err, ◌>>=◌, ◌>>◌, require, or_throw, find, filter, any, update, length,
}

pub data AgentRole : Type 0 where
  coordinator child : AgentRole

pub data RunLifecycle : Type 0 where
  queued preparing running waiting terminal : RunLifecycle

pub data RunOutcome : Type 0 where
  succeeded incomplete failed cancelled : RunOutcome

pub data WaitReason : Type 0 where
  admission dependencies children approval profile_quota task_budget conflict : WaitReason
  reconciliation user_continuation : WaitReason

pub record AgentRun : Type 0 where
  pub task_id : ℕ
  pub root_task_id : ℕ
  pub parent_task_id : Option ℕ
  pub role : AgentRole
  pub assignment_id : Option ℕ
  pub lifecycle : RunLifecycle
  pub wait_reason : Option WaitReason
  pub outcome : Option RunOutcome
  pub generation : ℕ
  pub cancel_requested : Bool

-- `constraint` is SQLite's refusal of a row; the others are the errors that the code throws itself.
pub data RunError : Type 0 where
  constraint : RunError
  not_a_member : RunError
  missing_run : RunError

abbrev pub is_terminal : RunLifecycle → Bool
is_terminal terminal = true
is_terminal _ = false

abbrev pub is_child : AgentRole → Bool
is_child child = true
is_child coordinator = false

abbrev pub of_task : ℕ → AgentRun → Bool
of_task task_id r = r.task_id == task_id

abbrev pub has_assignment : ℕ → AgentRun → Bool
has_assignment a r = elim r.assignment_id [ none ↦ false | some b ↦ b == a ]

abbrev pub is_coordinator_of : ℕ → AgentRun → Bool
is_coordinator_of root r = r.root_task_id == root && not (is_child r.role)

abbrev pub new_coordinator : ℕ → AgentRun
new_coordinator root = record {
  task_id = root;
  root_task_id = root;
  parent_task_id = none;
  role = coordinator;
  assignment_id = none;
  lifecycle = waiting;
  wait_reason = some user_continuation;
  outcome = none;
  generation = 1;
  cancel_requested = false;
}

abbrev pub new_child : ℕ → ℕ → ℕ → AgentRun
new_child root task assignment = record {
  task_id = task;
  root_task_id = root;
  parent_task_id = some root;
  role = child;
  assignment_id = some assignment;
  lifecycle = preparing;
  wait_reason = none;
  outcome = none;
  generation = 1;
  cancel_requested = false;
}

abbrev pub is_top : ℕ → AgentRun → Bool
is_top task r = of_task task r && not (is_child r.role)

abbrev pub is_active_child : ℕ → AgentRun → Bool
is_active_child root r = r.root_task_id == root && is_child r.role && not (is_terminal r.lifecycle)

unfoldable pub active_children : List AgentRun → ℕ → ℕ
active_children runs root = length (filter (is_active_child root) runs)

-- The bound of the trigger agent_runs_admission_bound, `maxAdmittedChildren` of limits.ts.
abbrev pub max_admitted_children : ℕ
max_admitted_children = 2

abbrev pub is_closed_top : ℕ → AgentRun → Bool
is_closed_top task r = of_task task r && (r.cancel_requested || is_terminal r.lifecycle)

-- INSERT into agent_runs: the primary key, the unique assignment, the one coordinator of a root,
-- the check that a child is not its own root, and for a child the triggers agent_runs_child_depth,
-- agent_runs_admission_bound and agent_runs_parent_fence.
unfoldable pub insert_coordinator_run : List AgentRun → ℕ → Result RunError (List AgentRun)
insert_coordinator_run runs root = do
  require (not (any (of_task root) runs)) constraint
  require (not (any (is_coordinator_of root) runs)) constraint
  ok (runs ++ new_coordinator root ∷ [])

unfoldable pub insert_child_run : List AgentRun → ℕ → ℕ → ℕ → Result RunError (List AgentRun)
insert_child_run runs root task assignment = do
  require (any (is_top root) runs) constraint
  require (ltb (active_children runs root) max_admitted_children) constraint
  require (not (any (is_closed_top root) runs)) constraint
  require (not (any (of_task task) runs)) constraint
  require (not (any (has_assignment assignment) runs)) constraint
  require (not (task == root)) constraint
  ok (runs ++ new_child root task assignment ∷ [])

unfoldable pub run : List AgentRun → ℕ → Option AgentRun
run runs task = find (of_task task) runs

unfoldable pub require_run : List AgentRun → ℕ → ℕ → Result RunError AgentRun
unfolding run
require_run runs task root = do
  r ← or_throw (run runs task) not_a_member
  require (r.root_task_id == root) not_a_member
  ok r

-- WHERE task_id = ? AND lifecycle <> 'terminal'
abbrev pub open_run : ℕ → AgentRun → Bool
open_run task r = of_task task r && not (is_terminal r.lifecycle)

-- `lifecycle` is any state but `terminal`: the type of the argument says so in the source.
unfoldable pub set_lifecycle : List AgentRun → ℕ → RunLifecycle → Option WaitReason → List AgentRun
set_lifecycle runs task lifecycle reason =
    update (open_run task) (λ r. record r { lifecycle = lifecycle; wait_reason = reason }) runs

abbrev pub finished_row : RunOutcome → AgentRun → AgentRun
finished_row outcome r = record r {
  lifecycle = terminal;
  outcome = some outcome;
  wait_reason = none;
}

-- The rows and whether exactly one of them changed.
unfoldable pub finish_run : List AgentRun → ℕ → RunOutcome → List AgentRun × Bool
finish_run runs task outcome =
    (update (open_run task) (finished_row outcome) runs, length (filter (open_run task) runs) == 1)

abbrev pub fenced_row : AgentRun → AgentRun
fenced_row r = record r { generation = r.generation + 1; cancel_requested = true }

unfoldable pub fence : List AgentRun → ℕ → Result RunError (List AgentRun × ℕ)
fence runs task = do
  let fenced = update (of_task task) fenced_row runs
  r ← or_throw (run fenced task) missing_run
  ok (fenced, r.generation)

-- WHERE task_id = ? AND cancel_requested = 0
abbrev pub not_cancelled : ℕ → AgentRun → Bool
not_cancelled task r = of_task task r && not r.cancel_requested

abbrev pub advanced_row : AgentRun → AgentRun
advanced_row r = record r { generation = r.generation + 1 }

unfoldable pub advance_generation : List AgentRun → ℕ → Result RunError (List AgentRun × ℕ)
advance_generation runs task = do
  let advanced = update (not_cancelled task) advanced_row runs
  r ← or_throw (run advanced task) missing_run
  ok (advanced, r.generation)
