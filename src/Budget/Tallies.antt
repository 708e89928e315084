-- ===== src/Budget/Tallies.antt =====
-- The loop of `totals` in packages/runtime/src/budget-ledger.ts against plain sums over the rows.
use foundry_agent_workspace.Base.{
  ℕ, ◌+◌, ◌-◌, ◌≡◌, refl, List, [], ◌∷◌, ◌==◌, if◌then◌else◌, arith, sum,
}
use foundry_agent_workspace.Accounts.{
  Reservation, Hold, Spend, Tally, no_tally, is_reserved, charge_of, spend_of, set_spend, tally_row,
  tally, sum_unused, Ledger, Account, totals_of, committed, reservations_of, holds_of,
}

-- What a row keeps committed: its amount while it is in flight, then what was charged.
abbrev pub exposure : Reservation → ℕ
exposure row = if is_reserved row.state then row.amount else charge_of row

abbrev pub exposure_by : ℕ → Reservation → ℕ
exposure_by task row = if row.run_task_id == task then exposure row else 0

-- What the runs have used, by run.
unfoldable pub used_by : List Reservation → ℕ → ℕ
used_by rows task = sum (exposure_by task) rows

-- The unspent part of the holds that are still held, for a given use by run.
unfoldable pub unused : (ℕ → ℕ) → List Hold → ℕ
unused used [] = 0
unused used (h ∷ hs) = (if h.held then h.amount - used h.child_task_id else 0) + unused used hs

spend_of-set_spend :
    (j k : ℕ) (v : Spend) (m : List (ℕ × Spend))
    → spend_of k (set_spend j v m) ≡ (if j == k then v else spend_of k m)
unfolding spend_of set_spend
spend_of-set_spend j k v [] = refl
spend_of-set_spend j k v ((i, w) ∷ m) = ground (arith, spend_of-set_spend j k v m)

tally_row-total :
    (t : Tally) (row : Reservation)
    → (tally_row t row).charged + (tally_row t row).in_flight
      ≡ t.charged + t.in_flight + exposure row
unfolding tally_row
tally_row-total t row = ground arith

tally_row-spend :
    (t : Tally) (row : Reservation) (k : ℕ)
    → (spend_of k (tally_row t row).per_run).charged
        + (spend_of k (tally_row t row).per_run).in_flight
      ≡ (spend_of k t.per_run).charged + (spend_of k t.per_run).in_flight + exposure_by k row
unfolding tally_row
tally_row-spend t row k = grind (arith, spend_of-set_spend)

tally-total :
    (t : Tally) (rows : List Reservation)
    → (tally t rows).charged + (tally t rows).in_flight
      ≡ t.charged + t.in_flight + sum exposure rows
unfolding tally
tally-total t [] = omega arith
tally-total t (row ∷ rows) =
    omega (arith, tally-total (tally_row t row) rows, tally_row-total t row)

tally-spend :
    (t : Tally) (rows : List Reservation) (k : ℕ)
    → (spend_of k (tally t rows).per_run).charged + (spend_of k (tally t rows).per_run).in_flight
      ≡ (spend_of k t.per_run).charged + (spend_of k t.per_run).in_flight + used_by rows k
unfolding tally used_by
tally-spend t [] k = omega arith
tally-spend t (row ∷ rows) k =
    omega (arith, tally-spend (tally_row t row) rows k, tally_row-spend t row k)

-- The map that the loop builds gives for each run the sum over its rows.
pub spend_of-tally :
    (rows : List Reservation) (k : ℕ)
    → (spend_of k (tally no_tally rows).per_run).charged
        + (spend_of k (tally no_tally rows).per_run).in_flight
      ≡ used_by rows k
unfolding spend_of
spend_of-tally rows k = omega (arith, tally-spend no_tally rows k)

pub sum_unused-eq :
    (rows : List Reservation) (hs : List Hold)
    → sum_unused (tally no_tally rows).per_run hs ≡ unused (used_by rows) hs
unfolding sum_unused unused
sum_unused-eq rows [] = refl
sum_unused-eq rows (h ∷ hs) =
    ground (arith, sum_unused-eq rows hs, spend_of-tally rows h.child_task_id)

-- The commitment of a root as two sums: what its requests used or reserved, and what is left of
-- its held allocations.
unfoldable pub commitment : ℕ → List Reservation → List Hold → ℕ
commitment root rows hs =
    sum exposure (reservations_of root rows)
    + unused (used_by (reservations_of root rows)) (holds_of root hs)

pub committed-totals_of :
    (l : Ledger) (root : ℕ) (a : Account)
    → committed (totals_of l root a) ≡ commitment root l.reservations l.holds
unfolding committed commitment
committed-totals_of l root a = omega (
  arith,
  tally-total no_tally (reservations_of root l.reservations),
  sum_unused-eq (reservations_of root l.reservations) (holds_of root l.holds),
)
