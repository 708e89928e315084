-- ===== src/Budget/Invariant.antt =====
-- Sequences of operations of packages/runtime/src/budget-ledger.ts, and the cap as an invariant of
-- the operations that open, hold and reserve.
use foundry_agent_workspace.Base.{
  Result-cases, ℕ, ◌*◌, ◌/◌, ◌≤◌, ◌≡◌, ◌≢◌, sym, subst, inl, inr, none, some, Option, List, [], ◌∷◌,
  ◌++◌, ◌==◌, arith, Bool-cases, Result, ok, err, find, Distinct, Distinct-append, All-of_not_any,
  filter-append, append-nil, ==_iff,
}
use foundry_agent_workspace.Runs.{AgentRun}
use foundry_agent_workspace.Accounts.{
  Number, Ledger, Account, Hold, Reservation, BudgetFault, account_of, reservations_of, holds_of,
  protected_coordinator_percent,
}
use foundry_agent_workspace.Budget.{
  open_account, hold, reserve, settle, release, new_hold, new_reservation,
}
use foundry_agent_workspace.Budget.Tallies.{commitment, committed-totals_of}
use foundry_agent_workspace.Budget.Holding.{hold-Held, commitment-hold-le}
use foundry_agent_workspace.Budget.Reserving.{reserve-Reserved, reserve-commitment-le}

-- One transaction, or a write of agent_runs by another part of the runtime.
pub data Op : Type 0 where
  opens : (root most : ℕ) → Op
  holds : (root assignment child_task amount : ℕ) → Op
  reserves : (root task generation : ℕ) → Number → (request : ℕ) → Op
  settles : (request : ℕ) → Option Number → Op
  releases : (child_task : ℕ) → Op
  writes_runs : List AgentRun → Op

-- A transaction that throws is rolled back.
abbrev pub after : Ledger → Result BudgetFault Ledger → Ledger
after l (ok l') = l'
after l (err e) = l

abbrev pub after_pair {ℓ} : {A : Type ℓ} → Ledger → Result BudgetFault (Ledger × A) → Ledger
after_pair l (ok p) = p.0
after_pair l (err e) = l

unfoldable pub step : Ledger → Op → Ledger
step l (opens root most) = after l (open_account l root most)
step l (holds root a c amount) = after l (hold l root a c amount)
step l (reserves root task g n request) = after l (reserve l root task g n request)
step l (settles request usage) = after_pair l (settle l request usage)
step l (releases c) = after_pair l (release l c)
step l (writes_runs runs) = record l { runs = runs }

unfoldable pub run_ops : Ledger → List Op → Ledger
run_ops l [] = l
run_ops l (o ∷ os) = run_ops (step l o) os

abbrev pub empty_ledger : List AgentRun → Ledger
empty_ledger runs = record { accounts = []; holds = []; reservations = []; runs = runs }

-- The cap of the root's account; a root with no account has nothing to spend.
abbrev pub limit_of : Option Account → ℕ
limit_of none = 0
limit_of (some a) = a.cap

-- The PRIMARY KEY of the reservations, the UNIQUE child of the holds, and the cap of every root.
pub record Inv (l : Ledger) : Type 0 where
  pub requests : Distinct (λ (x : Reservation). x.request_id) l.reservations
  pub children : Distinct (λ (x : Hold). x.child_task_id) l.holds
  pub capped : (root : ℕ) → commitment root l.reservations l.holds ≤ limit_of (account_of l root)

pub account_of-open :
    (accounts : List Account) (root : ℕ) (b : Account)
    → limit_of (find (λ a. a.root_task_id == root) accounts)
      ≤ limit_of (find (λ a. a.root_task_id == root) (accounts ++ b ∷ []))
account_of-open [] root b = ground arith
account_of-open (a ∷ accounts) root b = ground (arith, account_of-open accounts root b)

pub open-Inv : (l : Ledger) (root most : ℕ) → Inv l → Inv (after l (open_account l root most))
unfolding open_account
open-Inv l root most i = elim (Result-cases (open_account l root most)) [
  | inl (l', e) ↦ rw e (record {
    requests = ground (arith, i.requests);
    children = ground (arith, i.children);
    capped = λ k. ground (
      arith,
      i.capped k,
      account_of-open l.accounts k (record {
        root_task_id = root;
        cap = most;
        protected_coordinator = most * protected_coordinator_percent / 100;
      }),
    );
  })
  | inr (f, e) ↦ rw e i
]

pub commitment-hold_other :
    (root : ℕ) (rows : List Reservation) (hs : List Hold) (h : Hold)
    → h.root_task_id ≢ root
    → commitment root rows (hs ++ h ∷ []) ≡ commitment root rows hs
unfolding commitment
commitment-hold_other root rows hs h other =
    ground (
      arith,
      filter-append (λ x. x.root_task_id == root) hs (h ∷ []),
      append-nil (holds_of root hs),
    )

pub hold-Inv : (l : Ledger) (root a c amount : ℕ) → Inv l → Inv (after l (hold l root a c amount))
hold-Inv l root a c amount i = elim (Result-cases (hold l root a c amount)) [
  | inl (l', e) ↦
      let h = hold-Held l root a c amount e in
      rw e (
        subst Inv (sym h.written) (record {
          requests = i.requests;
          children =
              Distinct-append (λ x. x.child_task_id) l.holds (new_hold root a c amount) i.children
                (All-of_not_any (λ x. x.child_task_id) c l.holds h.new_child);
          capped = λ k. elim (Bool-cases (root == k)) [
            | inl mine ↦
                subst
                  (λ j.
                    commitment j l.reservations (l.holds ++ new_hold root a c amount ∷ [])
                    ≤ limit_of (account_of l j))
                  ((==_iff root k).0 mine)
                  (ground (
                    arith,
                    h.found,
                    h.room,
                    committed-totals_of l root h.account,
                    commitment-hold-le root l.reservations l.holds (new_hold root a c amount),
                  ))
            | inr other ↦ ground (
              arith,
              i.capped k,
              commitment-hold_other k l.reservations l.holds (new_hold root a c amount),
            )
          ];
        }))
  | inr (f, e) ↦ rw e i
]

pub commitment-reserve_other :
    (root : ℕ) (rows : List Reservation) (hs : List Hold) (r : Reservation)
    → r.root_task_id ≢ root
    → commitment root (rows ++ r ∷ []) hs ≡ commitment root rows hs
commitment-reserve_other root rows hs r other =
    let e : reservations_of root (rows ++ r ∷ []) ≡ reservations_of root rows = ground (
      arith,
      filter-append (λ x. x.root_task_id == root) rows (r ∷ []),
      append-nil (reservations_of root rows),
    ) in
    unfold commitment in rw e

pub reserve-Inv :
    (l : Ledger) (root task g : ℕ) (n : Number) (request : ℕ)
    → Inv l
    → Inv (after l (reserve l root task g n request))
reserve-Inv l root task g n request i = elim (Result-cases (reserve l root task g n request)) [
  | inl (l', e) ↦
      let r = reserve-Reserved l root task g n request e in
      let row = new_reservation request root task g r.amount in
      rw e (
        subst Inv (sym r.written) (record {
          requests =
              Distinct-append (λ x. x.request_id) l.reservations row i.requests
                (All-of_not_any (λ x. x.request_id) request l.reservations r.new_request);
          children = i.children;
          capped = λ k. elim (Bool-cases (root == k)) [
            | inl mine ↦
                subst
                  (λ j.
                    commitment j (l.reservations ++ row ∷ []) l.holds ≤ limit_of (account_of l j))
                  ((==_iff root k).0 mine)
                  (ground (
                    arith,
                    r.found,
                    r.written,
                    reserve-commitment-le l l' root task g n request r.account r.found e,
                  ))
            | inr other ↦
                ground (arith, i.capped k, commitment-reserve_other k l.reservations l.holds row)
          ];
        }))
  | inr (f, e) ↦ rw e i
]
