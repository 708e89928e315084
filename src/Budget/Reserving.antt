-- ===== src/Budget/Reserving.antt =====
-- Reserving a request: `reserve` of packages/runtime/src/budget-ledger.ts against the root's
-- commitment.
use foundry_agent_workspace.Base.{
  Result-cases, ℕ, ◌+◌, ◌≤◌, ◌≡◌, inl, inr, true, false, some, List, [], ◌∷◌, ◌++◌, ◌==◌, arith,
  Bool-cases, Option-cases, ok, find, filter-append, sum-append, Distinct, Distinct-filter, any,
}
use foundry_agent_workspace.Runs.{AgentRun, is_child}
use foundry_agent_workspace.Accounts.{
  Number, Ledger, Account, Hold, Reservation, Totals, totals_of, totals, committed, account_of,
  reservations_of, holds_of,
}
use foundry_agent_workspace.Budget.{
  reserve, fits, child_fits, live_run, positive_amount, new_reservation,
}
use foundry_agent_workspace.Budget.Tallies.{
  exposure, used_by, commitment, committed-totals_of, spend_of-tally,
}
use foundry_agent_workspace.Budget.Unused.{
  used_by-append, unused_mono, unused_spend-le, unused_spend,
}

-- What a successful `reserve` has checked and written.
pub record Reserved (l l' : Ledger) (root task generation : ℕ) (n : Number) (request : ℕ)
    : Type 0 where
  pub account : Account
  pub amount : ℕ
  pub run : AgentRun
  pub measured : positive_amount n ≡ some amount
  pub found : account_of l root ≡ some account
  pub live : live_run l.runs root task generation ≡ ok run
  pub below : committed (totals_of l root account) ≤ account.cap
  pub fitting : fits (totals_of l root account) run task amount ≡ ok tt
  pub new_request : any (λ x. x.request_id == request) l.reservations ≡ false
  pub written : l' ≡ record l {
    reservations = l.reservations ++ new_reservation request root task generation amount ∷ [];
  }

pub reserve-Reserved :
    (l : Ledger) (root task generation : ℕ) (n : Number) (request : ℕ) {l' : Ledger}
    → reserve l root task generation n request ≡ ok l'
    → Reserved l l' root task generation n request
unfolding reserve totals
reserve-Reserved l root task generation n request {l'} e = elim (Option-cases (positive_amount n)) [
  | inl bad ↦ absurd (ground arith)
  | inr (amount, measured) ↦ elim (Result-cases (live_run l.runs root task generation)) [
    | inr (fault, dead) ↦ absurd (ground arith)
    | inl (r, live) ↦ elim (Option-cases (account_of l root)) [
      | inl missing ↦ absurd (ground arith)
      | inr (a, found) ↦ record {
        account = a;
        amount = amount;
        run = r;
        measured = measured;
        found = found;
        live = live;
        below = ground arith;
        fitting = ground arith;
        new_request = ground arith;
        written = ground arith;
      }
    ]
  ]
]

commitment-reserve-le :
    (root : ℕ) (rows : List Reservation) (hs : List Hold) (request task generation amount : ℕ)
    → commitment root (rows ++ new_reservation request root task generation amount ∷ []) hs
      ≤ commitment root rows hs + amount
unfolding commitment
commitment-reserve-le root rows hs request task generation amount =
    let r = new_reservation request root task generation amount in
    let mine = reservations_of root rows in
    ground (
      arith,
      filter-append (λ x. x.root_task_id == root) rows (r ∷ []),
      sum-append exposure mine (r ∷ []),
      unused_mono (used_by mine) (used_by (mine ++ r ∷ [])) (holds_of root hs)
          (λ k. omega (arith, used_by-append mine r k)),
    )

commitment-reserve_child-le :
    (root : ℕ) (rows : List Reservation) (hs : List Hold) (request task generation amount : ℕ)
    (h : Hold)
    → find (λ x. x.child_task_id == task) (holds_of root hs) ≡ some h
    → h.held ≡ true
    → used_by (reservations_of root rows) task + amount ≤ h.amount
    → commitment root (rows ++ new_reservation request root task generation amount ∷ []) hs
      ≤ commitment root rows hs
unfolding commitment
commitment-reserve_child-le root rows hs request task generation amount h e held room =
    let r = new_reservation request root task generation amount in
    let mine = reservations_of root rows in
    ground (
      arith,
      filter-append (λ x. x.root_task_id == root) rows (r ∷ []),
      sum-append exposure mine (r ∷ []),
      unused_spend-le (used_by mine) (used_by (mine ++ r ∷ [])) task amount (holds_of root hs) h
          (used_by-append mine r) e held room,
    )

commitment-reserve :
    (root : ℕ) (rows : List Reservation) (hs : List Hold) (request task generation amount : ℕ)
    (h : Hold)
    → Distinct (λ x. x.child_task_id) hs
    → find (λ x. x.child_task_id == task) (holds_of root hs) ≡ some h
    → h.held ≡ true
    → used_by (reservations_of root rows) task + amount ≤ h.amount
    → commitment root (rows ++ new_reservation request root task generation amount ∷ []) hs
      ≡ commitment root rows hs
unfolding commitment
commitment-reserve root rows hs request task generation amount h d e held room =
    let r = new_reservation request root task generation amount in
    let mine = reservations_of root rows in
    ground (
      arith,
      filter-append (λ x. x.root_task_id == root) rows (r ∷ []),
      sum-append exposure mine (r ∷ []),
      unused_spend (used_by mine) (used_by (mine ++ r ∷ [])) task amount (holds_of root hs) h
          (used_by-append mine r)
          (Distinct-filter (λ x. x.child_task_id) (λ x. x.root_task_id == root) hs d) e held room,
    )

-- What `child_fits` has read: the child's active hold, with room for the amount.
record InHold (root : ℕ) (rows : List Reservation) (hs : List Hold) (task amount : ℕ) : Type 0 where
  hold : Hold
  found : find (λ x. x.child_task_id == task) (holds_of root hs) ≡ some hold
  held : hold.held ≡ true
  room : used_by (reservations_of root rows) task + amount ≤ hold.amount

child_fits-InHold :
    (l : Ledger) (root : ℕ) (a : Account) (task amount : ℕ)
    → child_fits (totals_of l root a) task amount ≡ ok tt
    → InHold root l.reservations l.holds task amount
unfolding child_fits
child_fits-InHold l root a task amount e =
    elim (Option-cases (find (λ x. x.child_task_id == task) (holds_of root l.holds))) [
      | inl missing ↦ absurd (ground arith)
      | inr (h, found) ↦ record {
        hold = h;
        found = found;
        held = ground arith;
        room = ground (arith, spend_of-tally (reservations_of root l.reservations) task);
      }
    ]

pub reserve-commitment-le :
    (l l' : Ledger) (root task generation : ℕ) (n : Number) (request : ℕ) (a : Account)
    → account_of l root ≡ some a
    → reserve l root task generation n request ≡ ok l'
    → commitment root l'.reservations l'.holds ≤ a.cap
unfolding fits
reserve-commitment-le l l' root task generation n request a found e =
    let r = reserve-Reserved l root task generation n request e in
    let was = committed-totals_of l root r.account in
    elim (Bool-cases (is_child r.run.role)) [
      | inl yes_child ↦
          let c = child_fits-InHold l root r.account task r.amount (ground (arith, r.fitting)) in
          ground (
            arith,
            was,
            r.found,
            r.below,
            r.written,
            commitment-reserve_child-le root l.reservations l.holds request task generation r.amount
                c.hold c.found c.held c.room,
          )
      | inr no_child ↦ ground (
        arith,
        was,
        r.found,
        r.fitting,
        r.written,
        commitment-reserve-le root l.reservations l.holds request task generation r.amount,
      )
    ]

-- No successful `reserve` takes the root above its cap, whichever run makes it.
reserve-le-cap :
    (l l' : Ledger) (root task generation : ℕ) (n : Number) (request : ℕ) (t : Totals)
    → reserve l root task generation n request ≡ ok l'
    → totals l' root ≡ ok t
    → committed t ≤ t.cap
unfolding totals
reserve-le-cap l l' root task generation n request t e now =
    let r = reserve-Reserved l root task generation n request e in
    ground (
      arith,
      r.found,
      r.written,
      committed-totals_of l' root r.account,
      reserve-commitment-le l l' root task generation n request r.account r.found e,
    )

-- A child's reservation moves its amount out of the child's own hold: with one hold for each child,
-- the root's commitment does not change at all.
pub reserve_child-committed :
    (l l' : Ledger) (root task generation : ℕ) (n : Number) (request : ℕ) (r : AgentRun)
    (t t' : Totals)
    → Distinct (λ h. h.child_task_id) l.holds
    → live_run l.runs root task generation ≡ ok r
    → is_child r.role ≡ true
    → reserve l root task generation n request ≡ ok l'
    → totals l root ≡ ok t
    → totals l' root ≡ ok t'
    → committed t' ≡ committed t
unfolding totals fits
reserve_child-committed l l' root task generation n request r t t' d live role e was' now' =
    let w = reserve-Reserved l root task generation n request e in
    let same : w.run ≡ r = ground (arith, w.live) in
    let c = child_fits-InHold l root w.account task w.amount (ground (arith, w.fitting, role)) in
    ground (
      arith,
      w.found,
      w.written,
      committed-totals_of l root w.account,
      committed-totals_of l' root w.account,
      commitment-reserve root l.reservations l.holds request task generation w.amount c.hold d
          c.found c.held c.room,
    )
