-- ===== src/Approvals/Binding.antt =====
-- What an accepted decision of packages/runtime/src/tool-runtime.ts (`decide`, `decideBound`) was
-- bound to, and that a proposal is decided once.
use foundry_agent_workspace.Base.{
  is_some, ℕ, ◌≡◌, inl, inr, true, false, some, List, ==_iff, arith, Option-cases, ok, get, delete,
  find-test,
}
use foundry_agent_workspace.Approvals.{
  Approval, Waiter, Desk, Decision, BoundDecision, with_id, in_state, is_awaiting, approval, save,
  decided_state, resolve, resolve_decision, decide, decide_bound, is_bound,
}

pub record Resolved (d d' : Desk) (a : Approval) (task nonce : ℕ) (decision : Decision)
    : Type 0 where
  pub waiter : Waiter
  pub waits : get a.id d.waiting ≡ some waiter
  pub of_task : a.task_id ≡ task
  pub of_nonce : a.nonce ≡ nonce
  pub open_row : is_awaiting a.state ≡ true
  pub written : d' ≡ record {
    rows = save (in_state (decided_state decision) a) d.rows;
    waiting = delete a.id d.waiting;
    granted = resolve decision waiter d.granted;
  }

pub resolve_decision-Resolved :
    (d d' : Desk) (a : Approval) (task nonce : ℕ) (decision : Decision)
    → resolve_decision d a task nonce decision ≡ ok d'
    → Resolved d d' a task nonce decision
unfolding resolve_decision
resolve_decision-Resolved d d' a task nonce decision e = elim (Option-cases (get a.id d.waiting)) [
  | inl missing ↦ absurd (ground (arith, missing))
  | inr (w, found) ↦ record {
    waiter = w;
    waits = found;
    of_task = ground (arith, found);
    of_nonce = ground (arith, found);
    open_row = ground (arith, found);
    written = ground (arith, found);
  }
]

pub decide-Resolved :
    (d d' : Desk) (task id nonce : ℕ) (decision : Decision)
    → decide d task id nonce decision ≡ ok d'
    → (a : Approval) × (approval d.rows id ≡ some a)
      × (is_some a.root_task_id ≡ false)
      × Resolved d d' a task nonce decision
unfolding decide
decide-Resolved d d' task id nonce decision e = elim (Option-cases (approval d.rows id)) [
  | inl missing ↦ absurd (ground (arith, missing))
  | inr (a, found) ↦ (
    a,
    found,
    ground (arith, found),
    resolve_decision-Resolved d d' a task nonce decision (ground (arith, found)),
  )
]

pub decide_bound-Resolved :
    (d d' : Desk) (input : BoundDecision) (current : ℕ)
    → decide_bound d input current ≡ ok d'
    → (a : Approval) × (approval d.rows input.approval_id ≡ some a)
      × (is_bound a input current ≡ true)
      × Resolved d d' a input.task_id input.nonce input.decision
unfolding decide_bound
decide_bound-Resolved d d' input current e =
    elim (Option-cases (approval d.rows input.approval_id)) [
      | inl missing ↦ absurd (ground (arith, missing))
      | inr (a, found) ↦ (
        a,
        found,
        ground (arith, found),
        resolve_decision-Resolved d d' a input.task_id input.nonce input.decision
            (ground (arith, found)),
      )
    ]

pub approval-id :
    (rows : List Approval) (id : ℕ) (a : Approval) → approval rows id ≡ some a → a.id ≡ id
unfolding approval
approval-id rows id a e = (==_iff a.id id).0 (find-test (with_id id) rows a e)
