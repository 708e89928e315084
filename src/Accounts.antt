-- ===== src/Accounts.antt =====
-- The rows and the sums of the shared budget of a coordinated task:
-- packages/runtime/src/budget-ledger.ts (`totals`) over the tables budget_accounts, budget_holds and
-- budget_reservations of packages/runtime/src/schema.ts. A table is the list of its rows in insertion
-- order. Ids are numbers, compared for equality only; timestamps, the free text `reason` and foreign
-- keys to other tables than budget_accounts are left out.
use foundry_agent_workspace.Base.{
  ℕ, ◌+◌, ◌-◌, Bool, true, false, Option, none, some, List, [], ◌∷◌, leb, ◌==◌, if◌then◌else◌,
  Result, ok, ◌>>=◌, or_throw, find, filter,
}
use foundry_agent_workspace.Runs.{AgentRun}

-- A number of JavaScript: a natural number, or any other (negative, fractional, NaN, infinite).
pub data Number : Type 0 where
  nat : ℕ → Number
  other : Number

abbrev pub max_safe_integer : ℕ
max_safe_integer = 9007199254740991

-- `Number.isSafeInteger(n) && n >= 0`, with the number when it holds.
abbrev pub safe_nat : Number → Option ℕ
safe_nat (nat n) = if leb n max_safe_integer then some n else none
safe_nat other = none

pub record Account : Type 0 where
  pub root_task_id : ℕ
  pub cap : ℕ
  pub protected_coordinator : ℕ

pub record Hold : Type 0 where
  pub root_task_id : ℕ
  pub assignment_id : ℕ
  pub child_task_id : ℕ
  pub amount : ℕ
  pub held : Bool
  pub released_unused : Option ℕ

pub data ReservationState : Type 0 where
  reserved settled retained : ReservationState

pub record Reservation : Type 0 where
  pub request_id : ℕ
  pub root_task_id : ℕ
  pub run_task_id : ℕ
  pub generation : ℕ
  pub amount : ℕ
  pub state : ReservationState
  pub charged : Option ℕ
  pub usage_known : Bool

pub record Ledger : Type 0 where
  pub accounts : List Account
  pub holds : List Hold
  pub reservations : List Reservation
  pub runs : List AgentRun

-- The four reasons of a BudgetError, the plain errors, and SQLite's refusal of a row.
pub data BudgetFault : Type 0 where
  task_budget child_allocation fenced overrun : BudgetFault
  account_not_found unknown_reservation still_in_flight constraint : BudgetFault

abbrev pub protected_coordinator_percent : ℕ
protected_coordinator_percent = 20

abbrev pub budget_warning_percent : ℕ
budget_warning_percent = 80

abbrev pub is_reserved : ReservationState → Bool
is_reserved reserved = true
is_reserved _ = false

-- `row.charged ?? row.amount`
abbrev pub charge_of : Reservation → ℕ
charge_of row = elim row.charged [ none ↦ row.amount | some c ↦ c ]

-- What one run has used, as an entry of the map `perRun`.
pub record Spend : Type 0 where
  pub charged : ℕ
  pub in_flight : ℕ

abbrev pub no_spend : Spend
no_spend = record { charged = 0; in_flight = 0 }

-- `perRun.get(run) ?? { charged: 0, inFlight: 0 }` and `perRun.set(run, entry)`
unfoldable pub spend_of : ℕ → List (ℕ × Spend) → Spend
spend_of k [] = no_spend
spend_of k ((j, v) ∷ m) = if j == k then v else spend_of k m

unfoldable pub set_spend : ℕ → Spend → List (ℕ × Spend) → List (ℕ × Spend)
set_spend k v [] = (k, v) ∷ []
set_spend k v ((j, w) ∷ m) = if j == k then (j, v) ∷ m else (j, w) ∷ set_spend k v m

pub record Tally : Type 0 where
  pub charged : ℕ
  pub in_flight : ℕ
  pub retained_unknown : ℕ
  pub per_run : List (ℕ × Spend)

-- One round of the loop over the reservations in `totals`.
unfoldable pub tally_row : Tally → Reservation → Tally
tally_row t row =
    let entry = spend_of row.run_task_id t.per_run in
    if is_reserved row.state
    then record t {
      in_flight = t.in_flight + row.amount;
      per_run =
          set_spend row.run_task_id (record entry { in_flight = entry.in_flight + row.amount })
            t.per_run;
    }
    else record t {
      charged = t.charged + charge_of row;
      retained_unknown =
          if row.usage_known then t.retained_unknown else t.retained_unknown + charge_of row;
      per_run =
          set_spend row.run_task_id (record entry { charged = entry.charged + charge_of row })
            t.per_run;
    }

unfoldable pub tally : Tally → List Reservation → Tally
tally t [] = t
tally t (row ∷ rows) = tally (tally_row t row) rows

-- `Math.max(0, hold.amount - used.charged - used.inFlight)`
abbrev pub unused_hold : Hold → Spend → ℕ
unused_hold h used = h.amount - used.charged - used.in_flight

unfoldable pub sum_unused : List (ℕ × Spend) → List Hold → ℕ
sum_unused per_run [] = 0
sum_unused per_run (h ∷ hs) =
    (if h.held then unused_hold h (spend_of h.child_task_id per_run) else 0) + sum_unused per_run hs

pub record Totals : Type 0 where
  pub cap : ℕ
  pub protected_coordinator : ℕ
  pub tally : Tally
  pub unused_holds : ℕ
  pub coordinator_consumed : ℕ
  pub holds : List Hold

abbrev pub holds_of : ℕ → List Hold → List Hold
holds_of root = filter (λ h. h.root_task_id == root)

abbrev pub reservations_of : ℕ → List Reservation → List Reservation
reservations_of root = filter (λ r. r.root_task_id == root)

abbrev pub no_tally : Tally
no_tally = record { charged = 0; in_flight = 0; retained_unknown = 0; per_run = [] }

abbrev pub account_of : Ledger → ℕ → Option Account
account_of l root = find (λ a. a.root_task_id == root) l.accounts

abbrev pub totals_of : Ledger → ℕ → Account → Totals
totals_of l root account =
    let t = tally no_tally (reservations_of root l.reservations) in
    let hs = holds_of root l.holds in
    let coordinator = spend_of root t.per_run in
    record {
      cap = account.cap;
      protected_coordinator = account.protected_coordinator;
      tally = t;
      unused_holds = sum_unused t.per_run hs;
      coordinator_consumed = coordinator.charged + coordinator.in_flight;
      holds = hs;
    }

unfoldable pub totals : Ledger → ℕ → Result BudgetFault Totals
totals l root = do
  account ← or_throw (account_of l root) account_not_found
  ok (totals_of l root account)

-- `totals.charged + totals.inFlight + totals.unusedHolds`
unfoldable pub committed : Totals → ℕ
committed t = t.tally.charged + t.tally.in_flight + t.unused_holds
