-- ===== src/Budget/Tests.antt =====
-- A coordinated task with one child, run through the ledger of packages/runtime/src/budget-ledger.ts.
use foundry_agent_workspace.Base.{
  ◌+◌, ◌≤◌, ◌≡◌, ◌≢◌, refl, inr, true, false, none, some, List, [], ◌∷◌, arith, ok, err, negsuc,
}
use foundry_agent_workspace.Runs.{
  AgentRun, new_coordinator, new_child, run, fence, fenced_row, advance_generation, coordinator,
  child,
}
use foundry_agent_workspace.Runs.Lifecycle.{advances, steps}
use foundry_agent_workspace.Accounts.{
  nat, Ledger, Account, totals_of, totals, committed, spend_of, set_spend, tally_row, tally,
  sum_unused, task_budget, child_allocation, fenced, overrun, still_in_flight,
}
use foundry_agent_workspace.Budget.{
  new_hold, new_reservation, hold, reserve, settle, release, live_run, fits, child_fits,
  open_account, run_in_flight, run_charged, run_usage, summary, BudgetSummary, settle_row,
}
use foundry_agent_workspace.Budget.Reserving.{reserve_child-committed}
use foundry_agent_workspace.Budget.Settlement.{settle_once, settle-committed-le, release-committed}
use foundry_agent_workspace.Budget.Invariant.{
  Op, opens, holds, reserves, settles, releases, empty_ledger, step, run_ops,
}
use foundry_agent_workspace.Budget.Cap.{run_ops-le-cap}
use foundry_agent_workspace.Budget.Fencing.{fence_blocks_reserve}
use foundry_agent_workspace.Budget.Summary.{overrun_blocks}

budget : Unit {0}
unfolding totals committed hold reserve settle release live_run fits child_fits spend_of set_spend
    tally_row tally sum_unused open_account run_in_flight run_charged summary run run_usage step
    run_ops fence steps advance_generation foundry_agent_workspace.Runs.Lifecycle.step
budget = tt

abbrev two_runs : List AgentRun
two_runs = new_coordinator 1 ∷ new_child 1 2 50 ∷ []

abbrev account : Account
account = record { root_task_id = 1; cap = 1000; protected_coordinator = 200 }

abbrev opened : Ledger
opened = record { accounts = account ∷ []; holds = []; reservations = []; runs = two_runs }

abbrev admitted : Ledger
admitted = record opened { holds = new_hold 1 50 2 300 ∷ [] }

abbrev requested : Ledger
requested = record admitted { reservations = new_reservation 9 1 2 1 100 ∷ [] }

abbrev answered : Ledger
answered = record requested {
  reservations = settle_row (some (nat 80)) (new_reservation 9 1 2 1 100) ∷ [];
}

abbrev spent : Ledger
spent = record admitted {
  reservations = settle_row (some (nat 1200)) (new_reservation 9 1 1 1 600) ∷ [];
}

scenario :
    (open_account (empty_ledger two_runs) 1 1000 ≡ ok opened)
    × (hold opened 1 50 2 300 ≡ ok admitted)
    × (hold opened 1 50 2 801 ≡ err task_budget)
    × (reserve admitted 1 2 1 (nat 100) 9 ≡ ok requested)
    × (reserve requested 1 2 1 (nat 201) 10 ≡ err child_allocation)
    × (reserve requested 1 1 1 (nat 701) 10 ≡ err task_budget)
    × (reserve requested 1 2 2 (nat 10) 10 ≡ err fenced)
    × (settle requested 9 (some (nat 80)) ≡ ok (answered, true))
    × (settle answered 9 none ≡ ok (answered, false))
    × (release answered 2
        ≡ ok (
          record answered {
            holds = record (new_hold 1 50 2 300) { held = false; released_unused = some 220 } ∷ [];
          },
          220,
        ))
    × (release requested 2 ≡ err still_in_flight)
unfolding budget
scenario = (refl, refl, refl, refl, refl, refl, refl, refl, refl, refl, refl)

reserve_child-committed_example :
    committed (totals_of requested 1 account) ≡ committed (totals_of admitted 1 account)
unfolding budget
reserve_child-committed_example =
    reserve_child-committed admitted requested 1 2 1 (nat 100) 9 (new_child 1 2 50)
      (totals_of admitted 1 account) (totals_of requested 1 account) (tt, tt) refl refl refl refl
      refl

settle_once_example : settle answered 9 (some (nat 7)) ≡ ok (answered, false)
unfolding budget
settle_once_example = settle_once requested answered 9 (some (nat 80)) (some (nat 7)) true refl

settle-committed-le_example :
    committed (totals_of answered 1 account) ≤ committed (totals_of requested 1 account) + 0
unfolding budget
settle-committed-le_example =
    settle-committed-le requested answered 1 9 (some (nat 80)) (new_reservation 9 1 2 1 100)
      (totals_of requested 1 account) (totals_of answered 1 account) (tt, tt) (tt, tt) refl refl
      refl refl

abbrev returned : Ledger
returned = record answered {
  holds = record (new_hold 1 50 2 300) { held = false; released_unused = some 220 } ∷ [];
}

release-committed_example :
    committed (totals_of returned 1 account) + 220 ≡ committed (totals_of answered 1 account)
unfolding budget
release-committed_example =
    release-committed answered returned 2 220 (new_hold 1 50 2 300) (totals_of answered 1 account)
      (totals_of returned 1 account) (tt, tt) (((λ e. refl), refl), tt) refl refl refl refl refl

abbrev history : List Op
history =
    opens 1 1000
    ∷ holds 1 50 2 300
    ∷ reserves 1 2 1 (nat 100) 9
    ∷ settles 9 (some (nat 80))
    ∷ releases 2
    ∷ []

run_ops-le-cap_example :
    committed (totals_of returned 1 account) ≤ (totals_of returned 1 account).cap
unfolding budget
run_ops-le-cap_example =
    run_ops-le-cap two_runs history 1 (totals_of returned 1 account)
      (tt, (tt, (tt, ((λ row e. ground arith), (tt, tt))))) refl

fence_blocks_reserve_example :
    reserve
      (record admitted { runs = fenced_row (new_coordinator 1) ∷ new_child 1 2 50 ∷ [] })
      1
      2
      1
      (nat 100)
      9
    ≢ ok requested
unfolding budget
fence_blocks_reserve_example =
    fence_blocks_reserve two_runs (fenced_row (new_coordinator 1) ∷ new_child 1 2 50 ∷ []) 1 2
      (advances 1 ∷ [])
      (record admitted { runs = fenced_row (new_coordinator 1) ∷ new_child 1 2 50 ∷ [] }) requested
      1 2 1 (nat 100) 9 refl refl (inr refl)

-- 1,200 tokens charged against a cap of 1,000, with a hold of 300 still open.
abbrev spent_summary : BudgetSummary
spent_summary = record {
  cap = 1000;
  protected_coordinator = 200;
  charged = 1200;
  in_flight = 0;
  unused_holds = 300;
  unallocated = negsuc 499;
  retained_unknown = 0;
  overrun = true;
  warning = true;
  runs =
      record {
        task_id = 1;
        role = coordinator;
        allocation = none;
        charged = 1200;
        in_flight = 0;
        unused_hold = 0;
        released = false;
      }
      ∷ record {
        task_id = 2;
        role = child;
        allocation = some 300;
        charged = 0;
        in_flight = 0;
        unused_hold = 300;
        released = false;
      }
      ∷ [];
}

overrun_blocks_example :
    (hold spent 1 51 3 1 ≡ err overrun) × (reserve spent 1 2 1 (nat 1) 10 ≢ ok spent)
unfolding budget
overrun_blocks_example = overrun_blocks spent spent 1 51 3 1 2 1 10 (nat 1) spent_summary refl refl
