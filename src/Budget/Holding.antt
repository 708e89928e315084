-- ===== src/Budget/Holding.antt =====
-- Admitting a child: `hold` of packages/runtime/src/budget-ledger.ts against the root's commitment.
use foundry_agent_workspace.Base.{
  ℕ, ◌+◌, ◌-◌, ◌≤◌, ◌≡◌, inl, inr, false, some, List, [], ◌∷◌, ◌++◌, ◌==◌, arith, Option-cases, ok,
  filter-append, append-nil, any, ◌<◌,
}
use foundry_agent_workspace.Accounts.{
  Ledger, Account, Hold, Reservation, Totals, totals_of, totals, committed, account_of,
  reservations_of, holds_of,
}
use foundry_agent_workspace.Budget.{hold, new_hold}
use foundry_agent_workspace.Budget.Tallies.{used_by, commitment, committed-totals_of}
use foundry_agent_workspace.Budget.Unused.{unused-append}

pub commitment-hold-le :
    (root : ℕ) (rows : List Reservation) (hs : List Hold) (h : Hold)
    → commitment root rows (hs ++ h ∷ []) ≤ commitment root rows hs + h.amount
unfolding commitment
commitment-hold-le root rows hs h = ground (
  arith,
  filter-append (λ x. x.root_task_id == root) hs (h ∷ []),
  unused-append (used_by (reservations_of root rows)) (holds_of root hs) h,
  append-nil (holds_of root hs),
)

-- What a successful `hold` has checked and written.
pub record Held (l l' : Ledger) (root assignment child amount : ℕ) : Type 0 where
  pub account : Account
  pub found : account_of l root ≡ some account
  pub room :
      committed (totals_of l root account)
        + (account.protected_coordinator - (totals_of l root account).coordinator_consumed)
        + amount
      ≤ account.cap
  pub positive : 0 < amount
  pub new_assignment : any (λ h. h.assignment_id == assignment) l.holds ≡ false
  pub new_child : any (λ h. h.child_task_id == child) l.holds ≡ false
  pub written : l' ≡ record l { holds = l.holds ++ new_hold root assignment child amount ∷ [] }

pub hold-Held :
    (l : Ledger) (root assignment child amount : ℕ) {l' : Ledger}
    → hold l root assignment child amount ≡ ok l'
    → Held l l' root assignment child amount
unfolding hold totals
hold-Held l root assignment child amount e = elim (Option-cases (account_of l root)) [
  | inl missing ↦ absurd (ground arith)
  | inr (a, found) ↦ record {
    account = a;
    found = found;
    room = ground arith;
    positive = ground arith;
    new_assignment = ground arith;
    new_child = ground arith;
    written = ground arith;
  }
]

-- A child admitted by `hold` leaves the root within its cap, with room left for what the
-- coordinator's protected part has not spent yet.
hold-le-cap :
    (l l' : Ledger) (root assignment child amount : ℕ) (t : Totals)
    → hold l root assignment child amount ≡ ok l'
    → totals l' root ≡ ok t
    → committed t + (t.protected_coordinator - t.coordinator_consumed) ≤ t.cap
unfolding totals
hold-le-cap l l' root assignment child amount t e e' =
    let h = hold-Held l root assignment child amount e in
    let written = h.written in
    ground (
      arith,
      written,
      h.found,
      h.room,
      committed-totals_of l root h.account,
      committed-totals_of l' root h.account,
      commitment-hold-le root l.reservations l.holds (new_hold root assignment child amount),
    )
