-- ===== src/Runs/Tests.antt =====
-- A coordinator with one child, through the agent_runs methods of
-- packages/runtime/src/orchestration-records.ts.
use foundry_agent_workspace.Base.{◌≡◌, ◌≤◌, refl, false, some, List, [], ◌∷◌, arith, ok, err, All}
use foundry_agent_workspace.Runs.{
  AgentRun, new_coordinator, new_child, insert_coordinator_run, insert_child_run, run, require_run,
  active_children, set_lifecycle, finish_run, fence, advance_generation, queued, approval,
  succeeded, failed, finished_row, fenced_row, advanced_row, constraint, not_a_member, missing_run,
}
use foundry_agent_workspace.Runs.Lifecycle.{
  finishes, step, RowCheck, step-RowCheck, RunOp, steps, inserts_coordinator, inserts_child,
}
use foundry_agent_workspace.Runs.Admission.{admitted_children_bound}
use foundry_agent_workspace.Runs.Fencing.{finish_run_final}

runs : Unit {0}
unfolding insert_coordinator_run insert_child_run run require_run active_children set_lifecycle
    finish_run fence advance_generation step steps
runs = tt

abbrev two_runs : List AgentRun
two_runs = new_coordinator 1 ∷ new_child 1 2 50 ∷ []

abbrev three_runs : List AgentRun
three_runs = new_coordinator 1 ∷ new_child 1 2 50 ∷ new_child 1 3 51 ∷ []

abbrev one_done : List AgentRun
one_done = new_coordinator 1 ∷ finished_row succeeded (new_child 1 2 50) ∷ []

scenario :
    (insert_coordinator_run [] 1 ≡ ok (new_coordinator 1 ∷ []))
    × (insert_child_run (new_coordinator 1 ∷ []) 1 2 50 ≡ ok two_runs)
    × (insert_child_run two_runs 1 3 50 ≡ err constraint)
    × (insert_child_run two_runs 1 1 51 ≡ err constraint)
    × (require_run two_runs 2 7 ≡ err not_a_member)
    × (insert_child_run two_runs 1 3 51 ≡ ok three_runs)
    × (insert_child_run three_runs 1 4 52 ≡ err constraint)
    × (active_children two_runs 1 ≡ 1)
    × (active_children one_done 1 ≡ 0)
    × (fence two_runs 1 ≡ ok (fenced_row (new_coordinator 1) ∷ new_child 1 2 50 ∷ [], 2))
    × (fence two_runs 9 ≡ err missing_run)
    × (advance_generation two_runs 2
        ≡ ok (new_coordinator 1 ∷ advanced_row (new_child 1 2 50) ∷ [], 2))
unfolding runs
scenario = (refl, refl, refl, refl, refl, refl, refl, refl, refl, refl, refl, refl)

two_runs-RowCheck : All RowCheck two_runs
two_runs-RowCheck = (
  record {
    outcome_iff = refl;
    has_generation = omega arith;
    root_of_child = λ e. absurd (cc);
    root_of_coordinator = λ e. (refl, refl);
    assigned = refl;
  },
  (
    record {
      outcome_iff = refl;
      has_generation = omega arith;
      root_of_child = λ e. (refl, λ p. absurd (ground arith));
      root_of_coordinator = λ e. absurd (cc);
      assigned = refl;
    },
    tt,
  ),
)

step-RowCheck_example : All RowCheck one_done
unfolding runs
step-RowCheck_example = step-RowCheck two_runs (finishes 2 succeeded) tt two_runs-RowCheck

finish_run_final_example :
    (finish_run one_done 2 failed ≡ (one_done, false))
    × (set_lifecycle one_done 2 queued (some approval) ≡ one_done)
unfolding runs
finish_run_final_example = finish_run_final two_runs 2 succeeded failed queued (some approval)

abbrev history : List RunOp
history =
    inserts_coordinator 1
    ∷ inserts_child 1 2 50
    ∷ inserts_child 1 3 51
    ∷ inserts_child 1 4 52
    ∷ finishes 2 succeeded
    ∷ inserts_child 1 5 53
    ∷ []

admitted_children_bound_example : active_children (steps [] history) 1 ≤ 2
admitted_children_bound_example =
    admitted_children_bound history 1 (tt, (tt, (tt, (tt, (tt, (tt, tt))))))
