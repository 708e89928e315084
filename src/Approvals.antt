-- ===== src/Approvals.antt =====
-- One-shot approvals of tool actions: packages/runtime/src/tool-runtime.ts (class ToolRuntime) over
-- the tool.approval rows of the table intents (packages/runtime/src/store.ts). Ids, nonces,
-- fingerprints, paths and hashes are numbers, compared for equality only; the texts of proposals
-- and results are left out.
pub mod Execution
pub mod Steps
pub mod Backing
pub mod Consent
pub mod Waiting
pub mod Promises
pub mod Coherence
pub mod Deciding
pub mod Binding
mod Tests
use foundry_agent_workspace.Base.{
  is_some, ℕ, Bool, true, false, not, ◌&&◌, ◌||◌, Option, none, some, List, [], ◌∷◌, ◌++◌, ◌==◌,
  if◌then◌else◌, Result, ok, err, ◌>>=◌, ◌>>◌, require, or_throw, find, filter, any, update, get,
  set, delete,
}

pub data ApprovalState : Type 0 where
  awaiting_approval approved executing complete rejected revoked unknown failed : ApprovalState

-- `result` is the `isError` of the recorded result; `tab` is the tab of a prepared browser action;
-- `git_action` stands for `handoff || integration`.
pub record Approval : Type 0 where
  pub id : ℕ
  pub task_id : ℕ
  pub nonce : ℕ
  pub fingerprint : ℕ
  pub state : ApprovalState
  pub root_task_id : Option ℕ
  pub assignment_id : Option ℕ
  pub generation : Option ℕ
  pub tab : Option ℕ
  pub path : Option ℕ
  pub resulting_hash : Option ℕ
  pub expected_hash : Option ℕ
  pub git_action : Bool
  pub result : Option Bool

-- An entry of `waiting`: its task, and the approval object that the closure `cancel` holds.
pub record Waiter : Type 0 where
  pub task_id : ℕ
  pub approval : Approval

-- The rows, the map `waiting`, and the approval objects of the calls of `execute` whose decision
-- was to approve, from the decision to the end of the call.
pub record Desk : Type 0 where
  pub rows : List Approval
  pub waiting : List (ℕ × Waiter)
  pub granted : List Approval

pub data ApprovalError : Type 0 where
  not_found needs_bound_decision stale not_unknown : ApprovalError

pub data Decision : Type 0 where
  approve reject : Decision

abbrev pub is_awaiting : ApprovalState → Bool
is_awaiting awaiting_approval = true
is_awaiting _ = false

abbrev pub with_id : ℕ → Approval → Bool
with_id id a = a.id == id

abbrev pub in_state : ApprovalState → Approval → Approval
in_state s a = record a { state = s }

-- `store.approval` and `store.saveApproval`
unfoldable pub approval : List Approval → ℕ → Option Approval
approval rows id = find (with_id id) rows

unfoldable pub save : Approval → List Approval → List Approval
save a rows =
    if any (with_id a.id) rows then update (with_id a.id) (λ x. a) rows else rows ++ a ∷ []

-- What the `catch` block of `execute` makes of a proposal whose signal is aborted already.
abbrev pub refused : Approval → Approval
refused a = record a { state = revoked; result = some true }

-- `requestApproval` of a new proposal, with what `execute` does when it throws. The signal is
-- tested before the promise is made, and again after the proposal is saved.
unfoldable pub request_approval : Desk → Approval → (before after : Bool) → Desk
request_approval d a before after =
    if before
    then record d { rows = save (refused a) d.rows }
    else if after
    then record d {
      rows = save (in_state revoked a) (save a d.rows);
      waiting = delete a.id (set a.id (record { task_id = a.task_id; approval = a }) d.waiting);
    }
    else record d {
      rows = save a d.rows;
      waiting = set a.id (record { task_id = a.task_id; approval = a }) d.waiting;
    }

-- `cancel`, which the signal calls while the promise is open.
unfoldable pub abort : Desk → ℕ → Desk
abort d id = elim (get id d.waiting) [
  | none ↦ d
  | some w ↦ record d {
    rows = save (in_state revoked w.approval) d.rows;
    waiting = delete id d.waiting;
  }
]

abbrev pub decided_state : Decision → ApprovalState
decided_state approve = approved
decided_state reject = rejected

-- `waiter.resolve(decision === 'approve')`
abbrev pub resolve : Decision → Waiter → List Approval → List Approval
resolve approve w granted = granted ++ w.approval ∷ []
resolve reject w granted = granted

unfoldable pub resolve_decision : Desk → Approval → ℕ → ℕ → Decision → Result ApprovalError Desk
resolve_decision d a task nonce decision = do
  require (a.task_id == task && a.nonce == nonce && is_awaiting a.state) stale
  w ← or_throw (get a.id d.waiting) stale
  require (w.task_id == task) stale
  ok (record {
    rows = save (in_state (decided_state decision) a) d.rows;
    waiting = delete a.id d.waiting;
    granted = resolve decision w d.granted;
  })

unfoldable pub decide : Desk → ℕ → ℕ → ℕ → Decision → Result ApprovalError Desk
decide d task id nonce decision = do
  a ← or_throw (approval d.rows id) not_found
  require (not (is_some a.root_task_id)) needs_bound_decision
  resolve_decision d a task nonce decision

pub record BoundDecision : Type 0 where
  pub root_task_id : ℕ
  pub task_id : ℕ
  pub approval_id : ℕ
  pub nonce : ℕ
  pub assignment_id : Option ℕ
  pub generation : ℕ
  pub fingerprint : ℕ
  pub decision : Decision

abbrev pub holds_value : Option ℕ → ℕ → Bool
holds_value none n = false
holds_value (some m) n = m == n

abbrev pub same_value : Option ℕ → Option ℕ → Bool
same_value none none = true
same_value none (some n) = false
same_value (some m) none = false
same_value (some m) (some n) = m == n

-- The negation of the condition under which `decideBound` throws.
unfoldable pub is_bound : Approval → BoundDecision → ℕ → Bool
is_bound a input current =
    holds_value a.root_task_id input.root_task_id
    && same_value a.assignment_id input.assignment_id
    && holds_value a.generation input.generation
    && holds_value a.generation current
    && a.fingerprint == input.fingerprint

unfoldable pub decide_bound : Desk → BoundDecision → ℕ → Result ApprovalError Desk
decide_bound d input current = do
  a ← or_throw (approval d.rows input.approval_id) not_found
  require (is_bound a input current) stale
  resolve_decision d a input.task_id input.nonce input.decision

-- One round of the loop of `revokeWaiting`, for an entry of the task.
unfoldable pub revoke_one : Desk → ℕ → Approval → Desk
revoke_one d id a = record d {
  rows = if is_awaiting a.state then save (in_state revoked a) d.rows else d.rows;
  waiting = delete id d.waiting;
}

-- The loop over a copy of `waiting`; `store.approval` would throw out of it on a missing row.
unfoldable pub revoke_each : ℕ → List (ℕ × Waiter) → Desk → Desk
revoke_each task [] d = d
revoke_each task ((id, w) ∷ ws) d =
    if w.task_id == task
    then elim (approval d.rows id) [ none ↦ d | some a ↦ revoke_each task ws (revoke_one d id a) ]
    else revoke_each task ws d

unfoldable pub revoke_waiting : Desk → ℕ → Desk
revoke_waiting d task = revoke_each task d.waiting d

-- One round of the loop of `invalidateBrowser`.
unfoldable pub invalidate_one : ℕ → Desk → Approval → Desk
invalidate_one tab d a =
    if holds_value a.tab tab && is_awaiting a.state
    then record d { rows = save (in_state revoked a) d.rows; waiting = delete a.id d.waiting }
    else d

unfoldable pub invalidate_each : ℕ → List Approval → Desk → Desk
invalidate_each tab [] d = d
invalidate_each tab (a ∷ rows) d = invalidate_each tab rows (invalidate_one tab d a)

unfoldable pub invalidate_browser : Desk → ℕ → ℕ → Desk
invalidate_browser d task tab = invalidate_each tab (filter (λ a. a.task_id == task) d.rows) d
