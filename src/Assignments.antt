-- ===== src/Assignments.antt =====
-- Assignments of a coordinated task: the assignments methods of
-- packages/runtime/src/orchestration-records.ts, over the table of packages/runtime/src/schema.ts
-- with its constraints and triggers. The specification of an assignment is left out but for its
-- allocation; keys, commits and trees are numbers, compared for equality only.
pub mod Revisions
pub mod Finality
mod Tests
use foundry_agent_workspace.Base.{
  ℕ, zero, suc, ◌+◌, Bool, true, false, not, ◌&&◌, ◌||◌, Option, none, some, List, [], ◌∷◌, ◌++◌,
  ◌==◌, ltb, leb, if◌then◌else◌, find, filter, any, all, update, length, Result, ok, err, ◌>>=◌,
  ◌>>◌, require,
}
use foundry_agent_workspace.Runs.{WaitReason, admission}

pub data AssignmentState : Type 0 where
  proposed admitted result_submitted integrated incomplete failed : AssignmentState
  cancelled revoked superseded : AssignmentState

pub record Assignment : Type 0 where
  pub id : ℕ
  pub root_task_id : ℕ
  pub revision : ℕ
  pub supersedes_id : Option ℕ
  pub key : ℕ
  pub allocation : ℕ
  pub state : AssignmentState
  pub wait_reason : Option WaitReason
  pub child_task_id : Option ℕ
  pub base_commit : Option ℕ
  pub base_tree : Option ℕ

pub data AssignmentError : Type 0 where
  too_many_revisions constraint not_waiting_for_admission : AssignmentError

abbrev pub max_assignment_revisions : ℕ
max_assignment_revisions = 8

abbrev pub has_assignment_id : ℕ → Assignment → Bool
has_assignment_id id a = a.id == id

abbrev pub of_root : ℕ → Assignment → Bool
of_root root a = a.root_task_id == root

unfoldable pub revision_count : List Assignment → ℕ → ℕ
revision_count rows root = length (filter (of_root root) rows)

unfoldable pub assignment : List Assignment → ℕ → Option Assignment
assignment rows id = find (has_assignment_id id) rows

-- The trigger assignments_supersedes_root, and the check that a row does not supersede itself.
unfoldable pub supersedes_ok : List Assignment → (id root : ℕ) → Option ℕ → Bool
supersedes_ok rows id root none = true
supersedes_ok rows id root (some old) =
    any (λ a. a.id == old && a.root_task_id == root) rows && not (old == id)

abbrev pub new_assignment : (id root revision : ℕ) → Option ℕ → (key allocation : ℕ) → Assignment
new_assignment id root revision supersedes key allocation = record {
  id = id;
  root_task_id = root;
  revision = revision;
  supersedes_id = supersedes;
  key = key;
  allocation = allocation;
  state = proposed;
  wait_reason = some admission;
  child_task_id = none;
  base_commit = none;
  base_tree = none;
}

abbrev pub is_revision : (root revision : ℕ) → Assignment → Bool
is_revision root revision a = a.root_task_id == root && a.revision == revision

-- `id` is the one that randomUUID draws; the length of the key is not looked at.
unfoldable pub insert_assignment :
    List Assignment
    → (id root : ℕ) → Option ℕ
    → (key allocation : ℕ) → Result AssignmentError (List Assignment)
insert_assignment rows id root supersedes key allocation = do
  let count = revision_count rows root
  require (ltb count max_assignment_revisions) too_many_revisions
  require (supersedes_ok rows id root supersedes) constraint
  require (not (any (has_assignment_id id) rows)) constraint
  require (not (any (is_revision root (count + 1)) rows)) constraint
  require (ltb 0 allocation) constraint
  ok (rows ++ new_assignment id root (count + 1) supersedes key allocation ∷ [])

-- The states that the trigger assignments_terminal keeps.
abbrev pub is_final : AssignmentState → Bool
is_final proposed = false
is_final admitted = false
is_final result_submitted = false
is_final _ = true

abbrev pub state_number : AssignmentState → ℕ
state_number proposed = 0
state_number admitted = 1
state_number result_submitted = 2
state_number integrated = 3
state_number incomplete = 4
state_number failed = 5
state_number cancelled = 6
state_number revoked = 7
state_number superseded = 8

abbrev pub same_state : AssignmentState → AssignmentState → Bool
same_state s t = state_number s == state_number t

-- A row that the trigger refuses to move to the state.
abbrev pub is_stuck : ℕ → AssignmentState → Assignment → Bool
is_stuck id state a = has_assignment_id id a && is_final a.state && not (same_state state a.state)

unfoldable pub set_assignment_state :
    List Assignment
    → ℕ
    → AssignmentState
    → Option WaitReason
    → Result AssignmentError (List Assignment)
set_assignment_state rows id state reason = do
  require (not (any (is_stuck id state) rows)) constraint
  ok (update (has_assignment_id id) (λ a. record a { state = state; wait_reason = reason }) rows)

abbrev pub is_proposed : AssignmentState → Bool
is_proposed proposed = true
is_proposed _ = false

abbrev pub is_none : Option ℕ → Bool
is_none none = true
is_none (some n) = false

abbrev pub holds_value : Option ℕ → ℕ → Bool
holds_value none n = false
holds_value (some m) n = m == n

-- WHERE id = ? AND state = 'proposed'
abbrev pub is_proposed_row : ℕ → Assignment → Bool
is_proposed_row id a = has_assignment_id id a && is_proposed a.state

unfoldable pub set_assignment_wait : List Assignment → ℕ → Option WaitReason → List Assignment
set_assignment_wait rows id reason =
    update (is_proposed_row id) (λ a. record a { wait_reason = reason }) rows

-- WHERE id = ? AND state = 'proposed' AND child_task_id IS NULL
abbrev pub is_admissible : ℕ → Assignment → Bool
is_admissible id a = is_proposed_row id a && is_none a.child_task_id

abbrev pub admitted_row : ℕ → Assignment → Assignment
admitted_row child_task a = record a {
  state = admitted;
  wait_reason = none;
  child_task_id = some child_task;
}

-- `changes` is counted after the UNIQUE column child_task_id has refused a child of another row.
unfoldable pub admit_assignment :
    List Assignment → (id child_task : ℕ) → Result AssignmentError (List Assignment)
admit_assignment rows id child_task = do
  let count = length (filter (is_admissible id) rows)
  require (count == 0 || not (any (λ a. holds_value a.child_task_id child_task) rows)) constraint
  require (count == 1) not_waiting_for_admission
  ok (update (is_admissible id) (admitted_row child_task) rows)

-- The trigger assignments_base_once, on the two columns that `recordBase` sets.
abbrev pub is_rebased : (id base_commit base_tree : ℕ) → Assignment → Bool
is_rebased id base_commit base_tree a =
    has_assignment_id id a
    && (not (is_none a.base_commit || holds_value a.base_commit base_commit)
        || not (is_none a.base_tree || holds_value a.base_tree base_tree))

unfoldable pub record_base :
    List Assignment → (id base_commit base_tree : ℕ) → Result AssignmentError (List Assignment)
record_base rows id base_commit base_tree = do
  require (not (any (is_rebased id base_commit base_tree) rows)) constraint
  ok (
      update (has_assignment_id id)
        (λ a. record a { base_commit = some base_commit; base_tree = some base_tree }) rows)
