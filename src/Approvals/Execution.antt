-- ===== src/Approvals/Execution.antt =====
-- What `execute` of packages/runtime/src/tool-runtime.ts does with an approval once it is approved,
-- `reconcile`, and the recovery of packages/runtime/src/store.ts after a restart.
use foundry_agent_workspace.Base.{
  ℕ, Bool, true, false, not, ◌&&◌, Option, none, some, List, [], ◌∷◌, ◌==◌, if◌then◌else◌, Result,
  ok, ◌>>=◌, ◌>>◌, require, or_throw, find, filter, update,
}
use foundry_agent_workspace.Approvals.{
  ApprovalState, awaiting_approval, approved, executing, complete, rejected, revoked, unknown,
  failed, Approval, Desk, ApprovalError, not_found, not_unknown, with_id, in_state, approval, save,
  holds_value,
}

-- The object of the call is changed in place, and saved.
unfoldable pub update_granted : Desk → ℕ → (Approval → Approval) → Desk
update_granted d id g = elim (find (with_id id) d.granted) [
  | none ↦ d
  | some a ↦ record d { rows = save (g a) d.rows; granted = update (with_id id) g d.granted }
]

-- `approved.state = 'executing'; this.save(approved);` inside the slot.
unfoldable pub start : Desk → ℕ → Desk
start d id = update_granted d id (in_state executing)

-- How an action ends that does not throw: an edit is complete, a command or an MCP call is
-- complete, failed or unknown.
pub data Ending : Type 0 where
  ends_complete ends_failed ends_unknown : Ending

abbrev pub ended_state : Ending → ApprovalState
ended_state ends_complete = complete
ended_state ends_failed = failed
ended_state ends_unknown = unknown

-- `isError` is `state !== 'complete'`.
abbrev pub ended : Ending → Approval → Approval
ended ends_complete a = record a { state = complete; result = some false }
ended ends_failed a = record a { state = failed; result = some true }
ended ends_unknown a = record a { state = unknown; result = some true }

abbrev pub is_executing : ApprovalState → Bool
is_executing executing = true
is_executing _ = false

abbrev pub is_settled : ApprovalState → Bool
is_settled complete = true
is_settled failed = true
is_settled unknown = true
is_settled _ = false

abbrev pub is_rejected : ApprovalState → Bool
is_rejected rejected = true
is_rejected _ = false

-- The state that the `catch` block of `execute` leaves.
unfoldable pub caught_state : ApprovalState → (known_unstarted aborted : Bool) → ApprovalState
caught_state s known_unstarted aborted =
    if is_executing s && not known_unstarted
    then unknown
    else if is_settled s
    then s
    else if aborted
    then revoked
    else if is_rejected s
    then rejected
    else failed

abbrev pub caught : (known_unstarted aborted : Bool) → Approval → Approval
caught known_unstarted aborted a = record a {
  state = caught_state a.state known_unstarted aborted;
  result = some true;
}

abbrev pub without : ℕ → List Approval → List Approval
without id = filter (λ a. not (a.id == id))

-- The call returns: its object is given up.
abbrev pub close : Desk → ℕ → Desk
close d id = record d { granted = without id d.granted }

-- An action ends only once it has started.
unfoldable pub finish : Desk → ℕ → Ending → Desk
finish d id ending = elim (find (with_id id) d.granted) [
  | none ↦ d
  | some a ↦ if is_executing a.state then close (update_granted d id (ended ending)) id else d
]

unfoldable pub throw : Desk → ℕ → (known_unstarted aborted : Bool) → Desk
throw d id known_unstarted aborted = close (update_granted d id (caught known_unstarted aborted)) id

-- The outcome of an unknown edit from the hash of the file now; `none` when the read throws.
unfoldable pub reconciled : Approval → Option ℕ → Approval
reconciled a file = elim file [
  | none ↦ record a { result = some true }
  | some hash ↦
      if holds_value a.resulting_hash hash
      then record a { state = complete; result = some false }
      else if holds_value a.expected_hash hash
      then record a { state = failed; result = some true }
      else record a { result = some true }
]

abbrev pub is_unknown : ApprovalState → Bool
is_unknown unknown = true
is_unknown _ = false

abbrev pub is_edit : Approval → Bool
is_edit a = elim a.path [
  | none ↦ false
  | some p ↦ elim a.resulting_hash [ none ↦ false | some h ↦ true ]
]

-- Every other kind of action stays unknown, with a result that says so.
unfoldable pub checked : Approval → Option ℕ → Approval
checked a file = if is_edit a then reconciled a file else record a { result = some true }

unfoldable pub reconcile : Desk → ℕ → ℕ → Option ℕ → Result ApprovalError Desk
reconcile d task id file = do
  a ← or_throw (approval d.rows id) not_found
  require (a.task_id == task && is_unknown a.state) not_unknown
  ok (record d { rows = save (checked a file) d.rows })

-- The two updates of `recover`; the maps and the calls of the old process are gone.
abbrev pub recovered_state : ApprovalState → ApprovalState
recovered_state awaiting_approval = revoked
recovered_state approved = revoked
recovered_state executing = unknown
recovered_state complete = complete
recovered_state rejected = rejected
recovered_state revoked = revoked
recovered_state unknown = unknown
recovered_state failed = failed

unfoldable pub recover_rows : List Approval → List Approval
recover_rows [] = []
recover_rows (a ∷ rows) = in_state (recovered_state a.state) a ∷ recover_rows rows

unfoldable pub restart : Desk → Desk
restart d = record { rows = recover_rows d.rows; waiting = []; granted = [] }
