-- ===== src/Approvals/Deciding.antt =====
-- Which decisions packages/runtime/src/tool-runtime.ts accepts, that it accepts one for each
-- proposal, and what `reconcile` concludes from.
use foundry_agent_workspace.Base.{
  is_some, ℕ, ◌≡◌, refl, sym, ap, ◌∙◌, inl, inr, ◌⊎◌, ◌↔◌, true, false, some, List, arith,
  Result-cases, ok, get,
}
use foundry_agent_workspace.Approvals.{
  Approval, Waiter, Desk, Decision, approve, reject, BoundDecision, in_state, is_awaiting, approval,
  save, decided_state, resolve_decision, decide, decide_bound,
}
use foundry_agent_workspace.Approvals.Steps.{Op, steps, empty_desk, is_ok}
use foundry_agent_workspace.Approvals.Binding.{
  Resolved, decide-Resolved, decide_bound-Resolved, approval-id,
}
use foundry_agent_workspace.Approvals.Waiting.{Coherent, approval-save_same}
use foundry_agent_workspace.Approvals.Coherence.{FreshIds, desk-Coherent}

-- The proposal a decision names, with everything it must match.
pub record Decidable (d : Desk) (task id nonce : ℕ) : Type 0 where
  pub row : Approval
  pub found : approval d.rows id ≡ some row
  pub uncoordinated : is_some row.root_task_id ≡ false
  pub of_task : row.task_id ≡ task
  pub of_nonce : row.nonce ≡ nonce
  pub awaiting : is_awaiting row.state ≡ true

resolve_ok :
    (d : Desk) (a : Approval) (decision : Decision) (w : Waiter)
    → is_awaiting a.state ≡ true
    → get a.id d.waiting ≡ some w
    → w.task_id ≡ a.task_id
    → is_ok (resolve_decision d a a.task_id a.nonce decision) ≡ true
unfolding resolve_decision
resolve_ok d a decision w awaits found owner = ground (arith, awaits, found, owner)

decidable_ok :
    (d : Desk) (id : ℕ) (a : Approval) (decision : Decision)
    → Coherent d
    → approval d.rows id ≡ some a
    → is_some a.root_task_id ≡ false
    → is_awaiting a.state ≡ true
    → is_ok (decide d a.task_id id a.nonce decision) ≡ true
unfolding decide
decidable_ok d id a decision c found free awaits =
    let (w, waits) = c.awaited id a found awaits in
    let o = c.open_rows id w waits in
    let same : w.approval ≡ a = cc (found, o.row) in
    let resolved =
      resolve_ok d a decision w awaits
        (ap (λ k. get k d.waiting) (approval-id d.rows id a found) ∙ waits)
        (o.owner ∙ ap (λ x. x.task_id) same) in
    ground (arith, found, free, resolved)

-- After any sequence of calls with new ids, a decision is accepted exactly when it names a proposal
-- that is not coordinated and awaits its decision, with the proposal's own task and nonce.
pub decide_iff :
    (os : List Op) (task id nonce : ℕ) (decision : Decision)
    → FreshIds empty_desk os
    → let d = steps empty_desk os in
      (is_ok (decide d task id nonce decision) ≡ true) ↔ Decidable d task id nonce
decide_iff os task id nonce decision fresh =
    let d = steps empty_desk os in
    let c = desk-Coherent os fresh in
    (
      (λ accepted. elim (Result-cases (decide d task id nonce decision)) [
        | inr (e, refused) ↦ absurd (ground (arith, accepted, refused))
        | inl (d', done) ↦
            let (a, found, free, r) = decide-Resolved d d' task id nonce decision done in
            record {
              row = a;
              found = found;
              uncoordinated = free;
              of_task = r.of_task;
              of_nonce = r.of_nonce;
              awaiting = r.open_row;
            }
      ]),
      (λ x.
          ap (λ t. is_ok (decide d t id nonce decision)) (sym x.of_task)
          ∙ ap (λ n. is_ok (decide d x.row.task_id id n decision)) (sym x.of_nonce)
          ∙ decidable_ok d id x.row decision c x.found x.uncoordinated x.awaiting),
    )

decided_row :
    (d d' : Desk) (a : Approval) (task nonce id : ℕ) (decision : Decision)
    → Resolved d d' a task nonce decision
    → approval d.rows id ≡ some a
    → approval d'.rows id ≡ some (in_state (decided_state decision) a)
decided_row d d' a task nonce id decision r found =
    let same = approval-id d.rows id a found in
    ap (λ x. approval x.rows id) r.written
    ∙ ap (approval (save (in_state (decided_state decision) a) d.rows)) (sym same)
    ∙ approval-save_same (in_state (decided_state decision) a) d.rows

not_awaiting : (decision : Decision) → is_awaiting (decided_state decision) ≡ false
not_awaiting approve = refl
not_awaiting reject = refl

no_second :
    (d : Desk) (id : ℕ) (a : Approval)
    → approval d.rows id ≡ some a
    → is_awaiting a.state ≡ false
    → (task nonce : ℕ) (decision : Decision) (input : BoundDecision) (current : ℕ)
    → (is_ok (decide d task id nonce decision) ≡ false)
      × (is_ok (decide_bound d (record input { approval_id = id }) current) ≡ false)
unfolding decide decide_bound resolve_decision
no_second d id a found closed task nonce decision input current =
    (ground (arith, found, closed), ground (arith, found, closed))

-- A decision is one-shot: once one is accepted for a proposal, by either call, the next one for it
-- is refused, whichever call makes it and whatever it carries.
pub decided_once :
    (d d' : Desk) (task id nonce : ℕ) (decision : Decision) (input : BoundDecision) (current : ℕ)
    (task' nonce' : ℕ) (decision' : Decision) (input' : BoundDecision) (current' : ℕ)
    → (decide d task id nonce decision ≡ ok d')
      ⊎ (decide_bound d (record input { approval_id = id }) current ≡ ok d')
    → (is_ok (decide d' task' id nonce' decision') ≡ false)
      × (is_ok (decide_bound d' (record input' { approval_id = id }) current') ≡ false)
decided_once d d' task id nonce decision input current task' nonce' decision' input' current' h =
    elim h [
      | inl accepted ↦
          let (a, found, free, r) = decide-Resolved d d' task id nonce decision accepted in
          no_second d' id (in_state (decided_state decision) a)
            (decided_row d d' a task nonce id decision r found) (not_awaiting decision) task' nonce'
            decision' input' current'
      | inr accepted ↦
          let (a, found, bound, r) =
            decide_bound-Resolved d d' (record input { approval_id = id }) current accepted in
          no_second d' id (in_state (decided_state input.decision) a)
            (decided_row d d' a input.task_id input.nonce id input.decision r found)
            (not_awaiting input.decision) task' nonce' decision' input' current'
    ]
