-- ===== src/Approvals/Steps.antt =====
-- Sequences of calls on the approvals of packages/runtime/src/tool-runtime.ts, by the user, by the
-- agents' calls of `execute`, by cancellation and by restarts.
use foundry_agent_workspace.Base.{
  ℕ, Bool, true, false, ◌&&◌, ◌||◌, Option, List, [], ◌∷◌, ◌==◌, Result, ok, err,
}
use foundry_agent_workspace.Approvals.{
  Approval, Desk, ApprovalError, awaiting_approval, in_state, Decision, approve, reject,
  BoundDecision, request_approval, abort, decide, decide_bound, revoke_waiting, invalidate_browser,
}
use foundry_agent_workspace.Approvals.Execution.{Ending, start, finish, throw, reconcile, restart}

-- A proposal is made with the state awaiting-approval.
pub data Op : Type 0 where
  requests : Approval → (before after : Bool) → Op
  aborts : (id : ℕ) → Op
  decides : (task id nonce : ℕ) → Decision → Op
  decides_bound : BoundDecision → (current : ℕ) → Op
  revokes_waiting : (task : ℕ) → Op
  invalidates : (task tab : ℕ) → Op
  starts : (id : ℕ) → Op
  finishes : (id : ℕ) → Ending → Op
  throws : (id : ℕ) → (known_unstarted aborted : Bool) → Op
  reconciles : (task id : ℕ) → Option ℕ → Op
  restarts : Op

-- A call that throws changes nothing.
abbrev pub after : Desk → Result ApprovalError Desk → Desk
after d (ok d') = d'
after d (err e) = d

unfoldable pub step : Desk → Op → Desk
step d (requests a b c) = request_approval d (in_state awaiting_approval a) b c
step d (aborts id) = abort d id
step d (decides task id nonce decision) = after d (decide d task id nonce decision)
step d (decides_bound input current) = after d (decide_bound d input current)
step d (revokes_waiting task) = revoke_waiting d task
step d (invalidates task tab) = invalidate_browser d task tab
step d (starts id) = start d id
step d (finishes id ending) = finish d id ending
step d (throws id known aborted) = throw d id known aborted
step d (reconciles task id file) = after d (reconcile d task id file)
step d restarts = restart d

unfoldable pub steps : Desk → List Op → Desk
steps d [] = d
steps d (o ∷ os) = steps (step d o) os

abbrev pub empty_desk : Desk
empty_desk = record { rows = []; waiting = []; granted = [] }

abbrev pub is_ok : Result ApprovalError Desk → Bool
is_ok (ok d) = true
is_ok (err e) = false

abbrev pub is_approve : Decision → Bool
is_approve approve = true
is_approve reject = false

-- The call is an accepted decision to approve the proposal.
unfoldable pub approves : ℕ → Desk → Op → Bool
approves id d (decides task i nonce decision) =
    i == id && is_approve decision && is_ok (decide d task i nonce decision)
approves id d (decides_bound input current) =
    input.approval_id == id && is_approve input.decision && is_ok (decide_bound d input current)
approves id d _ = false

-- One of the calls of the sequence was.
unfoldable pub was_approved : ℕ → Desk → List Op → Bool
was_approved id d [] = false
was_approved id d (o ∷ os) = approves id d o || was_approved id (step d o) os
