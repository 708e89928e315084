-- ===== src/Approvals/Tests.antt =====
-- A command proposed, decided and run through packages/runtime/src/tool-runtime.ts.
use foundry_agent_workspace.Base.{
  ◌≡◌, refl, inl, true, false, none, some, List, [], ◌∷◌, ok, err, get, set, delete, ◌↔◌,
}
use foundry_agent_workspace.Approvals.{
  Approval, Desk, awaiting_approval, approved, complete, revoked, unknown, failed, approve, reject,
  BoundDecision, in_state, approval, save, request_approval, abort, resolve_decision, decide,
  decide_bound, is_bound, revoke_one, revoke_each, revoke_waiting, invalidate_one, invalidate_each,
  invalidate_browser, stale, needs_bound_decision,
}
use foundry_agent_workspace.Approvals.Execution.{
  update_granted, start, ends_complete, caught_state, finish, throw, reconciled, checked, reconcile,
  recover_rows, restart,
}
use foundry_agent_workspace.Approvals.Steps.{
  Op, requests, aborts, decides, revokes_waiting, starts, finishes, throws, restarts, step, steps,
  empty_desk, is_ok, approves, was_approved,
}
use foundry_agent_workspace.Approvals.Consent.{live_was_approved}
use foundry_agent_workspace.Approvals.Waiting.{Coherent}
use foundry_agent_workspace.Approvals.Coherence.{desk-Coherent}
use foundry_agent_workspace.Approvals.Deciding.{Decidable, decide_iff, decided_once}

desk : Unit {0}
unfolding approval save request_approval abort resolve_decision decide decide_bound is_bound
    revoke_one revoke_each revoke_waiting invalidate_one invalidate_each invalidate_browser
    update_granted start caught_state finish throw reconciled checked reconcile recover_rows restart
    step steps approves was_approved get set delete
desk = tt

abbrev command : Approval
command = record {
  id = 5;
  task_id = 1;
  nonce = 77;
  fingerprint = 8;
  state = awaiting_approval;
  root_task_id = none;
  assignment_id = none;
  generation = none;
  tab = none;
  path = none;
  resulting_hash = none;
  expected_hash = none;
  git_action = false;
  result = none;
}

abbrev coordinated : Approval
coordinated = record command { id = 6; root_task_id = some 3; generation = some 2 }

abbrev proposed : Desk
proposed = record {
  rows = command ∷ [];
  waiting = (5, record { task_id = 1; approval = command }) ∷ [];
  granted = [];
}

abbrev agreed : Desk
agreed = record { rows = in_state approved command ∷ []; waiting = []; granted = command ∷ [] }

abbrev bound : BoundDecision
bound = record {
  root_task_id = 3;
  task_id = 1;
  approval_id = 6;
  nonce = 77;
  assignment_id = none;
  generation = 2;
  fingerprint = 8;
  decision = approve;
}

abbrev run_it : List Op
run_it =
    requests command false false ∷ decides 1 5 77 approve ∷ starts 5 ∷ finishes 5 ends_complete ∷ []

abbrev done_command : Approval
done_command = record command { state = complete; result = some false }

scenario :
    (steps empty_desk (requests command false false ∷ []) ≡ proposed)
    × (decide proposed 1 5 76 approve ≡ err stale)
    × (decide proposed 1 5 77 approve ≡ ok agreed)
    × (decide agreed 1 5 77 approve ≡ err stale)
    × (steps empty_desk run_it ≡ record { rows = done_command ∷ []; waiting = []; granted = [] })
    × (steps proposed (aborts 5 ∷ [])
        ≡ record { rows = in_state revoked command ∷ []; waiting = []; granted = [] })
    × (steps proposed (revokes_waiting 1 ∷ []) ≡ steps proposed (aborts 5 ∷ []))
    × (steps agreed (starts 5 ∷ restarts ∷ [])
        ≡ record { rows = in_state unknown command ∷ []; waiting = []; granted = [] })
    × ((steps agreed (starts 5 ∷ throws 5 true false ∷ [])).rows
        ≡ record command { state = failed; result = some true } ∷ [])
    × (decide (steps empty_desk (requests coordinated false false ∷ [])) 1 6 77 approve
        ≡ err needs_bound_decision)
    × (is_ok (decide_bound (steps empty_desk (requests coordinated false false ∷ [])) bound 2)
        ≡ true)
    × (decide_bound (steps empty_desk (requests coordinated false false ∷ [])) bound 3 ≡ err stale)
unfolding desk
scenario = (refl, refl, refl, refl, refl, refl, refl, refl, refl, refl, refl, refl)

live_was_approved_example : was_approved 5 empty_desk run_it ≡ true
unfolding desk
live_was_approved_example = live_was_approved run_it 5 done_command refl refl

desk-Coherent_example : Coherent proposed
unfolding desk
desk-Coherent_example = desk-Coherent (requests command false false ∷ []) (refl, tt)

decide_iff_example : (is_ok (decide proposed 1 5 77 approve) ≡ true) ↔ Decidable proposed 1 5 77
unfolding desk
decide_iff_example = decide_iff (requests command false false ∷ []) 1 5 77 approve (refl, tt)

decided_once_example :
    (is_ok (decide agreed 1 5 77 reject) ≡ false)
    × (is_ok (decide_bound agreed (record bound { approval_id = 5 }) 2) ≡ false)
unfolding desk
decided_once_example =
    decided_once proposed agreed 1 5 77 approve bound 2 1 77 reject bound 2 (inl refl)
