-- ===== src/Waits.antt =====
-- Waits of a coordinator on its children: the wait_operations methods of
-- packages/runtime/src/orchestration-records.ts, over the table of packages/runtime/src/schema.ts.
-- Results and ids are numbers, compared for equality only.
pub mod Delivery
mod Tests
use foundry_agent_workspace.Base.{
  ℕ, Bool, true, false, not, ◌&&◌, Option, none, some, List, [], ◌∷◌, ◌++◌, ◌==◌, find, filter, any,
  update, length, Result, ok, err, ◌>>=◌, ◌>>◌, require,
}

pub data WaitState : Type 0 where
  waiting delivered cancelled : WaitState

pub record WaitRecord : Type 0 where
  pub id : ℕ
  pub root_task_id : ℕ
  pub coordinator_task_id : ℕ
  pub generation : ℕ
  pub pending_call_id : ℕ
  pub assignment_ids : List ℕ
  pub state : WaitState
  pub result : Option ℕ

-- SQLite's refusal of a row.
pub data WaitError : Type 0 where
  constraint : WaitError

abbrev pub is_waiting : WaitState → Bool
is_waiting waiting = true
is_waiting _ = false

abbrev pub has_wait_id : ℕ → WaitRecord → Bool
has_wait_id id w = w.id == id

abbrev pub is_call : (coordinator call : ℕ) → WaitRecord → Bool
is_call coordinator call w = w.coordinator_task_id == coordinator && w.pending_call_id == call

unfoldable pub wait : List WaitRecord → ℕ → Option WaitRecord
wait rows id = find (has_wait_id id) rows

unfoldable pub wait_for_call : List WaitRecord → (coordinator call : ℕ) → Option WaitRecord
wait_for_call rows coordinator call = find (is_call coordinator call) rows

-- The input of `insertWait`, with the id that randomUUID would draw.
abbrev pub new_wait : (id root coordinator generation call : ℕ) → List ℕ → WaitRecord
new_wait id root coordinator generation call assignments = record {
  id = id;
  root_task_id = root;
  coordinator_task_id = coordinator;
  generation = generation;
  pending_call_id = call;
  assignment_ids = assignments;
  state = waiting;
  result = none;
}

-- The rows, and the wait of the call: the one that is there, or a new one.
unfoldable pub insert_wait :
    List WaitRecord → WaitRecord → Result WaitError (List WaitRecord × WaitRecord)
insert_wait rows w = elim (wait_for_call rows w.coordinator_task_id w.pending_call_id) [
  | some existing ↦ ok (rows, existing)
  | none ↦ do require (not (any (has_wait_id w.id) rows)) constraint; ok (rows ++ w ∷ [], w)
]

-- WHERE id = ? AND state = 'waiting'
abbrev pub is_deliverable : ℕ → WaitRecord → Bool
is_deliverable id w = has_wait_id id w && is_waiting w.state

-- The rows, and whether exactly one of them changed.
unfoldable pub deliver_wait : List WaitRecord → ℕ → ℕ → List WaitRecord × Bool
deliver_wait rows id result = (
  update (is_deliverable id) (λ w. record w { state = delivered; result = some result }) rows,
  length (filter (is_deliverable id) rows) == 1,
)

abbrev pub is_cancellable : ℕ → WaitRecord → Bool
is_cancellable root w = w.root_task_id == root && is_waiting w.state

unfoldable pub cancel_waits : List WaitRecord → ℕ → List WaitRecord
cancel_waits rows root = update (is_cancellable root) (λ w. record w { state = cancelled }) rows
