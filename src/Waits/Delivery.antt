-- ===== src/Waits/Delivery.antt =====
-- Waits of packages/runtime/src/orchestration-records.ts over any sequence of calls: each is
-- delivered at most once, and a call has one wait.
use foundry_agent_workspace.Base.{
  ℕ, ◌≡◌, refl, inl, inr, Bool, true, false, none, some, List, [], ◌∷◌, ◌++◌, arith, Bool-cases,
  Option-cases, Result, ok, err, find, any, Distinct, Distinct-append, Distinct-update,
  All-of_not_any, find-append, find-update_off, settled_count,
}
use foundry_agent_workspace.Waits.{
  delivered, cancelled, WaitRecord, WaitError, is_waiting, has_wait_id, is_call, wait,
  wait_for_call, insert_wait, is_deliverable, deliver_wait, is_cancellable, cancel_waits,
}

pub data Op : Type 0 where
  inserts : WaitRecord → Op
  delivers : (id result : ℕ) → Op
  cancels : (root : ℕ) → Op

abbrev pub after :
    List WaitRecord → Result WaitError (List WaitRecord × WaitRecord) → List WaitRecord
after rows (ok p) = p.0
after rows (err e) = rows

unfoldable pub step : List WaitRecord → Op → List WaitRecord
step rows (inserts w) = after rows (insert_wait rows w)
step rows (delivers id result) = (deliver_wait rows id result).0
step rows (cancels root) = cancel_waits rows root

unfoldable pub steps : List WaitRecord → List Op → List WaitRecord
steps rows [] = rows
steps rows (o ∷ os) = steps (step rows o) os

-- A row that is not waiting any more is never changed.
step_settled :
    (rows : List WaitRecord) (o : Op) (id : ℕ) (w : WaitRecord)
    → is_waiting w.state ≡ false
    → wait rows id ≡ some w
    → wait (step rows o) id ≡ some w
unfolding wait step insert_wait deliver_wait cancel_waits
step_settled rows (inserts x) id w settled found =
    elim (Option-cases (wait_for_call rows x.coordinator_task_id x.pending_call_id)) [
      | inr (old, there) ↦ ground (arith, there, found)
      | inl new ↦ elim (Bool-cases (any (has_wait_id x.id) rows)) [
        | inl taken ↦ ground (arith, new, taken, found)
        | inr free ↦ ground (arith, new, free, find-append (has_wait_id id) rows (x ∷ []) w found)
      ]
    ]
step_settled rows (delivers k result) id w settled found =
    find-update_off (has_wait_id id) (is_deliverable k)
      (λ x. record x { state = delivered; result = some result }) rows w (λ x. refl)
      (ground (arith, settled)) found
step_settled rows (cancels root) id w settled found =
    find-update_off (has_wait_id id) (is_cancellable root) (λ x. record x { state = cancelled })
      rows w (λ x. refl) (ground (arith, settled)) found

steps_settled :
    (rows : List WaitRecord) (os : List Op) (id : ℕ) (w : WaitRecord)
    → is_waiting w.state ≡ false
    → wait rows id ≡ some w
    → wait (steps rows os) id ≡ some w
unfolding steps
steps_settled rows [] id w settled found = found
steps_settled rows (o ∷ os) id w settled found =
    steps_settled (step rows o) os id w settled (step_settled rows o id w settled found)

-- The ids of the rows are distinct.
abbrev pub DistinctIds : List WaitRecord → Type 0
DistinctIds = Distinct (λ (w : WaitRecord). w.id)

step-Distinct : (rows : List WaitRecord) (o : Op) → DistinctIds rows → DistinctIds (step rows o)
unfolding step insert_wait deliver_wait cancel_waits
step-Distinct rows (inserts x) d =
    elim (Option-cases (wait_for_call rows x.coordinator_task_id x.pending_call_id)) [
      | inr (old, there) ↦ rw (there, after) d
      | inl new ↦ elim (Bool-cases (any (has_wait_id x.id) rows)) [
        | inl taken ↦ rw (new, taken, after) d
        | inr free ↦
            rw (new, free, after)
              (Distinct-append (λ w. w.id) rows x d (All-of_not_any (λ w. w.id) x.id rows free))
      ]
    ]
step-Distinct rows (delivers k result) d =
    Distinct-update (λ w. w.id) (is_deliverable k)
      (λ x. record x { state = delivered; result = some result }) rows (λ x. refl) d
step-Distinct rows (cancels root) d =
    Distinct-update (λ w. w.id) (is_cancellable root) (λ x. record x { state = cancelled }) rows
      (λ x. refl) d

steps-Distinct :
    (rows : List WaitRecord) (os : List Op) → DistinctIds rows → DistinctIds (steps rows os)
unfolding steps
steps-Distinct rows [] d = d
steps-Distinct rows (o ∷ os) d = steps-Distinct (step rows o) os (step-Distinct rows o d)

-- A wait that is delivered or cancelled is final: whatever calls follow, its row, with its result,
-- stays, and delivering it again answers false and changes nothing of it.
pub deliver_wait_once :
    (rows : List WaitRecord) (os : List Op) (id : ℕ) (w : WaitRecord) (result : ℕ)
    → DistinctIds rows
    → wait rows id ≡ some w
    → is_waiting w.state ≡ false
    → let rows' = steps rows os in
      (wait rows' id ≡ some w)
      × ((deliver_wait rows' id result).1 ≡ false)
      × (wait (deliver_wait rows' id result).0 id ≡ some w)
unfolding deliver_wait wait
deliver_wait_once rows os id w result d found settled =
    let rows' = steps rows os in
    let there = steps_settled rows os id w settled found in
    let count =
      settled_count (λ x. x.id) id (λ x. is_waiting x.state) rows' w (steps-Distinct rows os d)
        there settled in
    (
      there,
      ground (arith, count),
      find-update_off (has_wait_id id) (is_deliverable id)
          (λ x. record x { state = delivered; result = some result }) rows' w (λ x. refl)
          (ground (arith, settled)) there,
    )

find-snoc :
    (p : WaitRecord → Bool) (rows : List WaitRecord) (w : WaitRecord)
    → find p rows ≡ none
    → p w ≡ true
    → find p (rows ++ w ∷ []) ≡ some w
find-snoc p [] w h e = ground (arith, e)
find-snoc p (x ∷ rows) w h e = ground (arith, h, find-snoc p rows w)

-- A coordinator's call has one wait: once `insertWait` has returned a wait for it, inserting for the
-- same call again returns that wait and inserts nothing, whatever the rest of the input.
pub insert_wait_idem :
    (rows rows' : List WaitRecord) (w x again : WaitRecord)
    → insert_wait rows w ≡ ok (rows', x)
    → again.coordinator_task_id ≡ w.coordinator_task_id
    → again.pending_call_id ≡ w.pending_call_id
    → insert_wait rows' again ≡ ok (rows', x)
unfolding insert_wait wait_for_call
insert_wait_idem rows rows' w x again e same_coordinator same_call =
    let p = is_call w.coordinator_task_id w.pending_call_id in
    let q = is_call again.coordinator_task_id again.pending_call_id in
    elim (Option-cases (find p rows)) [
      | inr (old, there) ↦
          let kept : rows ≡ rows' = ground (arith, e, there) in
          let own : old ≡ x = ground (arith, e, there) in
          let found : find q rows' ≡ some x = cc (same_coordinator, same_call, kept, own, there) in
          ground (arith, found)
      | inl new ↦ elim (Bool-cases (any (has_wait_id w.id) rows)) [
        | inl taken ↦ absurd (ground (arith, e, new, taken))
        | inr free ↦
            let grown : rows ++ w ∷ [] ≡ rows' = ground (arith, e, new, free) in
            let own : w ≡ x = ground (arith, e, new, free) in
            let there = find-snoc p rows w new (ground arith) in
            let found : find q rows' ≡ some x =
              cc (same_coordinator, same_call, grown, own, there) in
            ground (arith, found)
      ]
    ]
