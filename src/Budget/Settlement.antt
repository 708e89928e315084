-- ===== src/Budget/Settlement.antt =====
-- Settling a request and releasing a hold: `settle` and `release` of
-- packages/runtime/src/budget-ledger.ts.
use foundry_agent_workspace.Base.{
  ℕ, leb, ◌+◌, ◌-◌, ◌≤◌, ◌≡◌, ◌≢◌, refl, ap, subst, inl, inr, Bool, true, false, none, some, Option,
  List, [], ◌∷◌, ◌==◌, if◌then◌else◌, arith, Bool-cases, Option-cases, ok, sum, find, update, All,
  Distinct, Distinct-filter, sum-filter, sum-update, update_absent, ==_iff, dec_le,
}
use foundry_agent_workspace.Accounts.{
  Number, nat, other, max_safe_integer, Ledger, Hold, Reservation, Totals, totals, committed,
  account_of, reservations_of, holds_of, is_reserved, charge_of,
}
use foundry_agent_workspace.Budget.{settle_row, settle, release, run_in_flight, run_charged}
use foundry_agent_workspace.Budget.Tallies.{
  exposure, exposure_by, used_by, unused, commitment, committed-totals_of,
}
use foundry_agent_workspace.Budget.Unused.{unused_mono, unused_return-le}

abbrev settle_in : ℕ → Option Number → List Reservation → List Reservation
settle_in request usage = update (λ x. x.request_id == request) (settle_row usage)

find-settle_in :
    (request : ℕ) (usage : Option Number) (rows : List Reservation) (row : Reservation)
    → find (λ x. x.request_id == request) rows ≡ some row
    → find (λ x. x.request_id == request) (settle_in request usage rows)
      ≡ some (settle_row usage row)
find-settle_in request usage [] row e = cc
find-settle_in request usage (x ∷ rows) row e =
    ground (arith, find-settle_in request usage rows row)

settle_row-settled :
    (usage : Option Number) (row : Reservation) → is_reserved (settle_row usage row).state ≡ false
settle_row-settled usage row = ground arith

-- A request is settled once: whatever usage a later call reports, the ledger stays as the first
-- call left it, and the later call answers false.
pub settle_once :
    (l l' : Ledger) (request : ℕ) (usage later : Option Number) (first : Bool)
    → settle l request usage ≡ ok (l', first)
    → settle l' request later ≡ ok (l', false)
unfolding settle
settle_once l l' request usage later first e =
    elim (Option-cases (find (λ x. x.request_id == request) l.reservations)) [
      | inl missing ↦ absurd (ground arith)
      | inr (row, found) ↦ ground (
        arith,
        found,
        find-settle_in request usage l.reservations row found,
        settle_row-settled usage row,
      )
    ]

-- What a settled request costs above its reservation.
abbrev pub overrun_of : Option Number → Reservation → ℕ
overrun_of usage row = charge_of (settle_row usage row) - row.amount

module _ (root request : ℕ) (usage : Option Number) (rows : List Reservation) (row : Reservation)
    (keys : Distinct (λ x. x.request_id) rows)
    (found : find (λ x. x.request_id == request) rows ≡ some row)
    (open_row : is_reserved row.state ≡ true) where
  exposure-settle :
      sum exposure (reservations_of root (settle_in request usage rows))
        + (if row.root_task_id == root then row.amount else 0)
      ≡ sum exposure (reservations_of root rows)
        + (if row.root_task_id == root then charge_of (settle_row usage row) else 0)
  exposure-settle =
      let f = λ (x : Reservation). if x.root_task_id == root then exposure x else 0 in
      ground (
        arith,
        sum-filter exposure (λ x. x.root_task_id == root) rows,
        sum-filter exposure (λ x. x.root_task_id == root) (settle_in request usage rows),
        sum-update (λ x. x.request_id) f request (settle_row usage) rows row keys found,
        settle_row-settled usage row,
      )

  used_by-settle :
      (k : ℕ)
      → used_by (reservations_of root (settle_in request usage rows)) k
          + (if row.root_task_id == root then exposure_by k row else 0)
        ≡ used_by (reservations_of root rows) k
          + (if row.root_task_id == root then exposure_by k (settle_row usage row) else 0)
  unfolding used_by
  used_by-settle k =
      let f = λ (x : Reservation). if x.root_task_id == root then exposure_by k x else 0 in
      ground (
        arith,
        sum-filter (exposure_by k) (λ x. x.root_task_id == root) rows,
        sum-filter (exposure_by k) (λ x. x.root_task_id == root) (settle_in request usage rows),
        sum-update (λ x. x.request_id) f request (settle_row usage) rows row keys found,
      )

  used_by-settle_other :
      (k : ℕ)
      → row.run_task_id ≢ k
      → used_by (reservations_of root (settle_in request usage rows)) k
        ≡ used_by (reservations_of root rows) k
  used_by-settle_other k apart = ground (arith, used_by-settle k)

  pub commitment-settle-le :
      (hs : List Hold)
      → Distinct (λ h. h.child_task_id) hs
      → commitment root (settle_in request usage rows) hs
        ≤ commitment root rows hs + overrun_of usage row
  unfolding commitment
  commitment-settle-le hs children =
      let old = used_by (reservations_of root rows) in
      let new = used_by (reservations_of root (settle_in request usage rows)) in
      let mine = Distinct-filter (λ h. h.child_task_id) (λ h. h.root_task_id == root) hs children in
      elim (dec_le (charge_of (settle_row usage row)) row.amount) [
        | yes less ↦ ground (
          arith,
          exposure-settle,
          unused_return-le old new row.run_task_id
              (if row.root_task_id == root
                then row.amount - charge_of (settle_row usage row)
                else 0)
              (holds_of root hs)
              (λ k. ground (arith, used_by-settle k, settle_row-settled usage row))
              used_by-settle_other mine,
        )
        | no more ↦ ground (
          arith,
          exposure-settle,
          unused_mono old new (holds_of root hs)
              (λ k. ground (arith, used_by-settle k, settle_row-settled usage row)),
        )
      ]

-- How far a reported usage exceeds an amount. A usage that is missing, no number that counts, or above
-- the largest safe integer exceeds nothing.
abbrev pub excess : Option Number → (amount : ℕ) → ℕ
excess none amount = 0
excess (some other) amount = 0
excess (some (nat used)) amount = if leb used max_safe_integer then used - amount else 0

overrun_of-excess :
    (usage : Option Number) (row : Reservation) → overrun_of usage row ≡ excess usage row.amount
overrun_of-excess none row = omega arith
overrun_of-excess (some other) row = omega arith
overrun_of-excess (some (nat used)) row = ground arith

-- Settling a request never raises the commitment of any root by more than what the reported usage
-- exceeds the reservation by: by nothing when the usage is missing, is not a safe integer, or is
-- within the reservation.
pub settle-committed-le :
    (l l' : Ledger) (root request : ℕ) (usage : Option Number) (row : Reservation) (t t' : Totals)
    → Distinct (λ x. x.request_id) l.reservations
    → Distinct (λ h. h.child_task_id) l.holds
    → find (λ x. x.request_id == request) l.reservations ≡ some row
    → settle l request usage ≡ ok (l', true)
    → totals l root ≡ ok t
    → totals l' root ≡ ok t'
    → committed t' ≤ committed t + excess usage row.amount
unfolding settle totals
settle-committed-le l l' root request usage row t t' keys children found e was now =
    elim (Option-cases (account_of l root)) [
      | inl missing ↦ absurd (ground arith)
      | inr (a, got) ↦
          let reserved_row : is_reserved row.state ≡ true = ground (arith, found) in
          ground (
            arith,
            found,
            got,
            overrun_of-excess usage row,
            committed-totals_of l root a,
            committed-totals_of l' root a,
            commitment-settle-le root request usage l.reservations row keys found reserved_row
                l.holds children,
          )
    ]

abbrev pub is_none : Option ℕ → Bool
is_none none = true
is_none (some c) = false

-- A row of the run belongs to the root, and a row is charged exactly when it is not reserved (a
-- CHECK of the table).
abbrev pub Booked : ℕ → ℕ → Reservation → Type 0
Booked root task r =
    (r.run_task_id ≡ task → r.root_task_id ≡ root) × (is_reserved r.state ≡ is_none r.charged)

used_by-run_charged :
    (root task : ℕ) (rows : List Reservation)
    → All (Booked root task) rows
    → run_in_flight task rows ≡ 0
    → used_by (reservations_of root rows) task ≡ run_charged task rows
unfolding used_by run_in_flight run_charged
used_by-run_charged root task [] b z = refl
used_by-run_charged root task (r ∷ rows) b z =
    ground (arith, used_by-run_charged root task rows b.1, b.0.0)

abbrev released : ℕ → Hold → Hold
released unspent x = record x { held = false; released_unused = some unspent }

unused-release :
    (u : ℕ → ℕ) (root task unspent : ℕ) (hs : List Hold) (h : Hold)
    → Distinct (λ x. x.child_task_id) hs
    → find (λ x. x.child_task_id == task) hs ≡ some h
    → h.held ≡ true
    → h.root_task_id ≡ root
    → unused u (holds_of root (update (λ x. x.child_task_id == task) (released unspent) hs))
        + (h.amount - u task)
      ≡ unused u (holds_of root hs)
unfolding unused
unused-release u root task unspent [] h d e held mine = cc
unused-release u root task unspent (x ∷ hs) h d e held mine =
    elim (Bool-cases (x.child_task_id == task)) [
      | inl hit ↦
          let same : x.child_task_id ≡ task = (==_iff x.child_task_id task).0 hit in
          ground (
            arith,
            ap (λ ys. unused u (holds_of root ys))
                (update_absent (λ y. y.child_task_id) task (released unspent) hs
                  (subst (λ k. All (λ y. y.child_task_id ≢ k) hs) same d.0)),
          )
      | inr miss ↦ ground (arith, unused-release u root task unspent hs h d.1)
    ]

-- Releasing a child's hold returns to the root exactly the unspent amount that it reports: the
-- commitment falls by it, when the child's rows are booked to the hold's root.
pub release-committed :
    (l l' : Ledger) (child_task unspent : ℕ) (h : Hold) (t t' : Totals)
    → Distinct (λ x. x.child_task_id) l.holds
    → All (Booked h.root_task_id child_task) l.reservations
    → find (λ x. x.child_task_id == child_task) l.holds ≡ some h
    → h.held ≡ true
    → release l child_task ≡ ok (l', unspent)
    → totals l h.root_task_id ≡ ok t
    → totals l' h.root_task_id ≡ ok t'
    → committed t' + unspent ≡ committed t
unfolding release totals commitment
release-committed l l' child_task unspent h t t' children booked found held e was now =
    let root = h.root_task_id in
    elim (Option-cases (account_of l root)) [
      | inl missing ↦ absurd (ground arith)
      | inr (a, got) ↦ ground (
        arith,
        found,
        got,
        committed-totals_of l root a,
        committed-totals_of l' root a,
        used_by-run_charged root child_task l.reservations booked,
        unused-release (used_by (reservations_of root l.reservations)) root child_task
            (h.amount - run_charged child_task l.reservations) l.holds h children found held refl,
      )
    ]
