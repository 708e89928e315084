-- ===== src/Budget.antt =====
-- The shared budget of a coordinated task: packages/runtime/src/budget-ledger.ts over the tables
-- budget_accounts, budget_holds and budget_reservations of packages/runtime/src/schema.ts.
-- Every mutation runs in one IMMEDIATE transaction, so an operation is one step from ledger to
-- ledger, and one that throws leaves the ledger as it was. A table is the list of its rows in
-- insertion order. Ids are numbers, compared for equality only; timestamps, the free text `reason`
-- and foreign keys to other tables than budget_accounts are left out.
pub mod Tallies
pub mod Unused
pub mod Holding
pub mod Reserving
pub mod Settlement
pub mod Invariant
pub mod Cap
pub mod Fencing
pub mod Summary
mod Tests
use foundry_agent_workspace.Base.{
  ℕ, ◌+◌, ◌-◌, ◌*◌, ◌/◌, Bool, true, false, not, ◌&&◌, ◌||◌, Option, none, some, List, [], ◌∷◌,
  ◌++◌, ltb, leb, ◌==◌, if◌then◌else◌, Result, ok, err, ◌>>=◌, ◌>>◌, require, or_throw, find,
  filter, any, update, map, ℤ, sub_ℕ,
}
use foundry_agent_workspace.Runs.{AgentRun, AgentRole, is_child, is_terminal, run}
use foundry_agent_workspace.Accounts.{
  Account, BudgetFault, Hold, Ledger, Number, Reservation, ReservationState, Spend, Tally, Totals,
  account_not_found, account_of, budget_warning_percent, charge_of, child_allocation, committed,
  constraint, fenced, holds_of, is_reserved, max_safe_integer, nat, no_spend, no_tally, other,
  overrun, protected_coordinator_percent, reservations_of, reserved, retained, safe_nat, set_spend,
  settled, spend_of, still_in_flight, sum_unused, tally, tally_row, task_budget, totals, totals_of,
  unknown_reservation, unused_hold,
}

unfoldable pub open_account : Ledger → ℕ → ℕ → Result BudgetFault Ledger
open_account l root cap = do
  let reserve = cap * protected_coordinator_percent / 100
  require (not (any (λ a. a.root_task_id == root) l.accounts)) constraint
  require (ltb 0 cap && leb reserve cap) constraint
  ok (record l {
    accounts =
        l.accounts
        ++ record { root_task_id = root; cap = cap; protected_coordinator = reserve } ∷ [];
  })

abbrev pub new_hold : ℕ → ℕ → ℕ → ℕ → Hold
new_hold root assignment child_task amount = record {
  root_task_id = root;
  assignment_id = assignment;
  child_task_id = child_task;
  amount = amount;
  held = true;
  released_unused = none;
}

unfoldable pub hold : Ledger → ℕ → ℕ → ℕ → ℕ → Result BudgetFault Ledger
hold l root assignment child_task amount = do
  t ← totals l root
  let reserve = t.protected_coordinator - t.coordinator_consumed
  require (not (ltb t.cap (committed t))) overrun
  require (not (ltb t.cap (committed t + reserve + amount))) task_budget
  require (ltb 0 amount) constraint
  require (not (any (λ h. h.assignment_id == assignment) l.holds)) constraint
  require (not (any (λ h. h.child_task_id == child_task) l.holds)) constraint
  ok (record l { holds = l.holds ++ new_hold root assignment child_task amount ∷ [] })

-- `amount` of a number that `Number.isSafeInteger(amount) && amount > 0` accepts
abbrev pub positive_amount : Number → Option ℕ
positive_amount n = elim (safe_nat n) [ none ↦ none | some a ↦ if ltb 0 a then some a else none ]

-- `run` and `root` as the two queries of `reserve` read them, and their fence.
unfoldable pub live_run : List AgentRun → ℕ → ℕ → ℕ → Result BudgetFault AgentRun
unfolding run
live_run runs root task generation = do
  r ← or_throw (find (λ x. x.task_id == task && x.root_task_id == root) runs) fenced
  require (r.generation == generation && not r.cancel_requested && not (is_terminal r.lifecycle))
      fenced
  top ← or_throw (run runs root) fenced
  require (not top.cancel_requested) fenced
  ok r

-- A child spends inside its own active hold; the root's commitment is not looked at.
unfoldable pub child_fits : Totals → ℕ → ℕ → Result BudgetFault (Unit {0})
child_fits t task amount = do
  h ← or_throw (find (λ x. x.child_task_id == task) t.holds) child_allocation
  require h.held child_allocation
  let used = spend_of task t.tally.per_run
  require (not (ltb h.amount (used.charged + used.in_flight + amount))) child_allocation

unfoldable pub fits : Totals → AgentRun → ℕ → ℕ → Result BudgetFault (Unit {0})
fits t r task amount =
    if is_child r.role
    then child_fits t task amount
    else require (not (ltb t.cap (committed t + amount))) task_budget

abbrev pub new_reservation : ℕ → ℕ → ℕ → ℕ → ℕ → Reservation
new_reservation request root task generation amount = record {
  request_id = request;
  root_task_id = root;
  run_task_id = task;
  generation = generation;
  amount = amount;
  state = reserved;
  charged = none;
  usage_known = false;
}

unfoldable pub reserve : Ledger → ℕ → ℕ → ℕ → Number → ℕ → Result BudgetFault Ledger
reserve l root task generation amount request = do
  a ← or_throw (positive_amount amount) task_budget
  r ← live_run l.runs root task generation
  t ← totals l root
  require (not (ltb t.cap (committed t))) overrun
  fits t r task a
  require (not (any (λ x. x.request_id == request) l.reservations)) constraint
  ok (record l {
    reservations = l.reservations ++ new_reservation request root task generation a ∷ [];
  })

-- The measured usage when it is a safe natural number.
abbrev pub known_usage : Option Number → Option ℕ
known_usage none = none
known_usage (some n) = safe_nat n

abbrev pub settle_row : Option Number → Reservation → Reservation
settle_row usage row = elim (known_usage usage) [
  | none ↦ record row { state = retained; charged = some row.amount; usage_known = false }
  | some u ↦ record row { state = settled; charged = some u; usage_known = true }
]

-- The new ledger, and whether this call settled the request.
unfoldable pub settle : Ledger → ℕ → Option Number → Result BudgetFault (Ledger × Bool)
settle l request usage = do
  row ← or_throw (find (λ x. x.request_id == request) l.reservations) unknown_reservation
  ok (
      if is_reserved row.state
      then (
        record l {
          reservations = update (λ x. x.request_id == request) (settle_row usage) l.reservations;
        },
        true,
      )
      else (l, false))

-- The two sums of the query in `release`: amounts in flight, and charges.
unfoldable pub run_in_flight : ℕ → List Reservation → ℕ
run_in_flight task [] = 0
run_in_flight task (r ∷ rs) =
    (if r.run_task_id == task && is_reserved r.state then r.amount else 0) + run_in_flight task rs

unfoldable pub run_charged : ℕ → List Reservation → ℕ
run_charged task [] = 0
run_charged task (r ∷ rs) =
    (if r.run_task_id == task then elim r.charged [ none ↦ 0 | some c ↦ c ] else 0)
    + run_charged task rs

unfoldable pub release_hold : Ledger → ℕ → Hold → Result BudgetFault (Ledger × ℕ)
release_hold l child_task h = do
  require (not (ltb 0 (run_in_flight child_task l.reservations))) still_in_flight
  let unused = h.amount - run_charged child_task l.reservations
  ok (
    record l {
      holds =
          update (λ x. x.child_task_id == child_task)
            (λ x. record x { held = false; released_unused = some unused }) l.holds;
    },
    unused,
  )

unfoldable pub release : Ledger → ℕ → Result BudgetFault (Ledger × ℕ)
unfolding release_hold
release l child_task = elim (find (λ h. h.child_task_id == child_task) l.holds) [
  | none ↦ ok (l, 0)
  | some h ↦ if not h.held then ok (l, 0) else release_hold l child_task h
]

-- `runUsage`: the amount while reserved, the charge afterwards.
unfoldable pub run_usage : ℕ → List Reservation → ℕ
run_usage task [] = 0
run_usage task (r ∷ rs) =
    (if r.run_task_id == task
      then (if is_reserved r.state then r.amount else elim r.charged [ none ↦ 0 | some c ↦ c ])
      else 0)
    + run_usage task rs

pub record RunBudget : Type 0 where
  pub task_id : ℕ
  pub role : AgentRole
  pub allocation : Option ℕ
  pub charged : ℕ
  pub in_flight : ℕ
  pub unused_hold : ℕ
  pub released : Bool

pub record BudgetSummary : Type 0 where
  pub cap : ℕ
  pub protected_coordinator : ℕ
  pub charged : ℕ
  pub in_flight : ℕ
  pub unused_holds : ℕ
  pub unallocated : ℤ
  pub retained_unknown : ℕ
  pub overrun : Bool
  pub warning : Bool
  pub runs : List RunBudget

-- One element of `perRun` in `summary`; `hold` is undefined for the coordinator.
abbrev pub run_budget : Totals → AgentRun → RunBudget
run_budget t r =
    let used = spend_of r.task_id t.tally.per_run in
    let found = find (λ x. x.child_task_id == r.task_id) t.holds in
    record {
      task_id = r.task_id;
      role = r.role;
      allocation = elim found [ none ↦ none | some h ↦ some h.amount ];
      charged = used.charged;
      in_flight = used.in_flight;
      unused_hold = elim found [ none ↦ 0 | some h ↦ if h.held then unused_hold h used else 0 ];
      released = elim found [ none ↦ false | some h ↦ not h.held ];
    }

-- `committed >= cap * 80 / 100`, with both sides times 100.
unfoldable pub summary : Ledger → ℕ → Result BudgetFault BudgetSummary
summary l root = do
  t ← totals l root
  ok (record {
    cap = t.cap;
    protected_coordinator = t.protected_coordinator;
    charged = t.tally.charged;
    in_flight = t.tally.in_flight;
    unused_holds = t.unused_holds;
    unallocated = sub_ℕ t.cap (committed t);
    retained_unknown = t.tally.retained_unknown;
    overrun = ltb t.cap (committed t);
    warning = leb (t.cap * budget_warning_percent) (committed t * 100);
    runs = map (run_budget t) (filter (λ r. r.root_task_id == root) l.runs);
  })
