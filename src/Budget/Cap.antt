-- ===== src/Budget/Cap.antt =====
-- Any sequence of ledger operations, interleaved with any writes to agent_runs: the cap of
-- packages/runtime/src/budget-ledger.ts as an invariant.
use foundry_agent_workspace.Base.{
  ℕ, ◌-◌, ◌≤◌, ◌≡◌, refl, inl, inr, false, some, Option, List, [], ◌∷◌, ◌==◌, ltb, arith,
  Bool-cases, Option-cases, ok, find, update, Distinct-update,
}
use foundry_agent_workspace.Runs.{AgentRun}
use foundry_agent_workspace.Accounts.{
  Number, Ledger, Hold, Reservation, Totals, totals, committed, account_of, reservations_of,
  holds_of, is_reserved,
}
use foundry_agent_workspace.Budget.{settle, release, run_in_flight, run_charged, settle_row}
use foundry_agent_workspace.Budget.Tallies.{used_by, unused, commitment, committed-totals_of}
use foundry_agent_workspace.Budget.Settlement.{overrun_of, commitment-settle-le}
use foundry_agent_workspace.Budget.Invariant.{
  Inv, Op, after_pair, empty_ledger, hold-Inv, holds, limit_of, open-Inv, opens, releases,
  reserve-Inv, reserves, run_ops, settles, step, writes_runs,
}

-- The provider reported no more for the request than was reserved for it, or nothing.
abbrev pub WithinReservation : Ledger → Op → Type 0
WithinReservation l (settles request usage) =
    (row : Reservation)
    → find (λ x. x.request_id == request) l.reservations ≡ some row
    → overrun_of usage row ≡ 0
WithinReservation l _ = Unit

settle_row-request_id :
    (usage : Option Number) (x : Reservation) → (settle_row usage x).request_id ≡ x.request_id
settle_row-request_id usage x = ground arith

settle-Inv :
    (l : Ledger) (request : ℕ) (usage : Option Number)
    → WithinReservation l (settles request usage)
    → Inv l
    → Inv (after_pair l (settle l request usage))
unfolding settle
settle-Inv l request usage fair i =
    elim (Option-cases (find (λ x. x.request_id == request) l.reservations)) [
      | inl missing ↦ rw missing i
      | inr (row, found) ↦ elim (Bool-cases (is_reserved row.state)) [
        | inl reserved_row ↦ rw found (
            rw reserved_row (record {
              requests =
                  Distinct-update (λ x. x.request_id) (λ x. x.request_id == request)
                    (settle_row usage) l.reservations (λ x. settle_row-request_id usage x)
                    i.requests;
              children = i.children;
              capped = λ k. omega (
                arith,
                i.capped k,
                fair row found,
                commitment-settle-le k request usage l.reservations row i.requests found
                    reserved_row l.holds i.children,
              );
            }))
        | inr done ↦ rw found (rw done i)
      ]
    ]

unused-release-le :
    (u : ℕ → ℕ) (root task : ℕ) (x : Option ℕ) (hs : List Hold)
    → unused u (
        holds_of root (
          update
            (λ h. h.child_task_id == task)
            (λ h. record h { held = false; released_unused = x })
            hs))
      ≤ unused u (holds_of root hs)
unfolding unused
unused-release-le u root task x [] = omega arith
unused-release-le u root task x (h ∷ hs) = ground (arith, unused-release-le u root task x hs)

released_capped :
    (l : Ledger) (c k : ℕ) (x : Option ℕ)
    → Inv l
    → commitment k l.reservations (
        update
          (λ h. h.child_task_id == c)
          (λ h. record h { held = false; released_unused = x })
          l.holds)
      ≤ limit_of (account_of l k)
unfolding commitment
released_capped l c k x i = omega (
  arith,
  i.capped k,
  unused-release-le (used_by (reservations_of k l.reservations)) k c x l.holds,
)

release-Inv : (l : Ledger) (c : ℕ) → Inv l → Inv (after_pair l (release l c))
unfolding release
release-Inv l c i = elim (Option-cases (find (λ x. x.child_task_id == c) l.holds)) [
  | inl missing ↦ rw (missing, after_pair) i
  | inr (h, found) ↦ elim (Bool-cases h.held) [
    | inr gone ↦ rw (found, after_pair) (rw gone i)
    | inl held ↦ elim (Bool-cases (ltb 0 (run_in_flight c l.reservations))) [
      | inl flying ↦ rw (found, after_pair) (rw held (rw (flying, after_pair) i))
      | inr landed ↦
          rw (found, after_pair)
            (rw held (
              rw (landed, after_pair)
                (record {
                  requests = i.requests;
                  children =
                      Distinct-update (λ x. x.child_task_id) (λ x. x.child_task_id == c)
                        (λ x. record x {
                          held = false;
                          released_unused = some (h.amount - run_charged c l.reservations);
                        })
                        l.holds (λ x. refl) i.children;
                  capped =
                      λ k. released_capped l c k (some (h.amount - run_charged c l.reservations)) i;
                })))
    ]
  ]
]

step-Inv : (l : Ledger) (o : Op) → WithinReservation l o → Inv l → Inv (step l o)
unfolding step
step-Inv l (opens root most) fair i = open-Inv l root most i
step-Inv l (holds root a c amount) fair i = hold-Inv l root a c amount i
step-Inv l (reserves root task g n request) fair i = reserve-Inv l root task g n request i
step-Inv l (settles request usage) fair i = settle-Inv l request usage fair i
step-Inv l (releases c) fair i = release-Inv l c i
step-Inv l (writes_runs runs) fair i = record {
  requests = i.requests;
  children = i.children;
  capped = i.capped;
}

-- Each settlement of the sequence is within its reservation when it is made.
abbrev pub AllWithinReservation : Ledger → List Op → Type 0
AllWithinReservation l [] = Unit
AllWithinReservation l (o ∷ os) = WithinReservation l o × AllWithinReservation (step l o) os

run_ops-Inv : (l : Ledger) (os : List Op) → AllWithinReservation l os → Inv l → Inv (run_ops l os)
unfolding run_ops
run_ops-Inv l [] fair i = i
run_ops-Inv l (o ∷ os) fair i = run_ops-Inv (step l o) os fair.1 (step-Inv l o fair.0 i)

empty-Inv : (runs : List AgentRun) → Inv (empty_ledger runs)
unfolding commitment unused
empty-Inv runs = record { requests = tt; children = tt; capped = λ k. omega arith }

-- No sequence of accounts opened, holds, reservations, settlements and releases, by any number of
-- runs and for any number of roots, commits more than the cap of a root, as long as no request is
-- settled above its reservation.
pub run_ops-le-cap :
    (runs : List AgentRun) (os : List Op) (root : ℕ) (t : Totals)
    → AllWithinReservation (empty_ledger runs) os
    → totals (run_ops (empty_ledger runs) os) root ≡ ok t
    → committed t ≤ t.cap
unfolding totals
run_ops-le-cap runs os root t fair now =
    let l = run_ops (empty_ledger runs) os in
    let i = run_ops-Inv (empty_ledger runs) os fair (empty-Inv runs) in
    elim (Option-cases (account_of l root)) [
      | inl missing ↦ absurd (ground arith)
      | inr (a, found) ↦ ground (arith, found, i.capped root, committed-totals_of l root a)
    ]
