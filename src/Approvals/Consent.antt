-- ===== src/Approvals/Consent.antt =====
-- Nothing runs that the user has not approved: the states of the approvals of
-- packages/runtime/src/tool-runtime.ts against the decisions made.
use foundry_agent_workspace.Base.{
  ℕ, ◌≡◌, refl, sym, subst, ◌⊎◌, inl, inr, Bool, true, not, ◌&&◌, Option, some, List, [], ◌∷◌, ◌==◌,
  arith, Bool-cases, Option-cases, Result-cases, find, filter, update, get, All, All-filter,
}
use foundry_agent_workspace.Approvals.{
  awaiting_approval, executing, Approval, Desk, Decision, BoundDecision, with_id, in_state,
  approval, decide, decide_bound, revoke_waiting, invalidate_browser,
}
use foundry_agent_workspace.Approvals.Execution.{
  update_granted, start, Ending, ended, is_executing, caught, close, finish, throw, reconciled,
  checked, is_unknown, reconcile, recover_rows, restart,
}
use foundry_agent_workspace.Approvals.Steps.{
  Op, requests, aborts, decides, decides_bound, revokes_waiting, invalidates, starts, finishes,
  throws, reconciles, restarts, after, step, steps, empty_desk, approves, was_approved,
}
use foundry_agent_workspace.Approvals.Binding.{decide-Resolved, decide_bound-Resolved, approval-id}
use foundry_agent_workspace.Approvals.Backing.{
  is_live, Row, Backed, save-All, request-Backed, abort-Backed, Resolved-Backed, revoke_each-Backed,
  invalidate_each-Backed,
}

find-All :
    (P : Approval → Type 0) (p : Approval → Bool) (xs : List Approval) (a : Approval)
    → find p xs ≡ some a
    → All P xs
    → P a
find-All P p [] a e h = absurd (cc)
find-All P p (x ∷ xs) a e h = elim (Bool-cases (p x)) [
  | inl hit ↦ subst P (ground (arith, e, hit)) h.0
  | inr miss ↦ find-All P p xs a (ground (arith, e, miss)) h.1
]

update-ids :
    (Q : ℕ → Type 0) (p : Approval → Bool) (g : Approval → Approval) (xs : List Approval)
    → ((x : Approval) → (g x).id ≡ x.id)
    → All (λ x. Q x.id) xs
    → All (λ x. Q x.id) (update p g xs)
update-ids Q p g [] same h = tt
update-ids Q p g (x ∷ xs) same h = (
  elim (Bool-cases (p x)) [ inl e ↦ rw e (subst Q (sym (same x)) h.0) | inr e ↦ rw e h.0 ],
  update-ids Q p g xs same h.1,
)

module _ (Q : ℕ → Type 0) where
  -- A call in flight changes its own, approved, proposal.
  update_granted-Backed :
      (d : Desk) (id : ℕ) (g : Approval → Approval)
      → ((x : Approval) → (g x).id ≡ x.id)
      → Backed Q d
      → Backed Q (update_granted d id g)
  unfolding update_granted
  update_granted-Backed d id g same b = elim (Option-cases (find (with_id id) d.granted)) [
    | inl missing ↦ subst (Backed Q) (ground (arith, missing)) b
    | inr (a, found) ↦ subst (Backed Q) (ground (arith, found)) (record {
      rows =
          save-All (Row Q) (g a) d.rows
            (λ live.
              subst Q (sym (same a))
                (find-All (λ x. Q x.id) (with_id id) d.granted a found b.granted))
            b.rows;
      granted = update-ids Q (with_id id) g d.granted same b.granted;
      keyed = b.keyed;
    })
  ]

  close-Backed : (d : Desk) (id : ℕ) → Backed Q d → Backed Q (close d id)
  close-Backed d id b = record {
    rows = b.rows;
    granted = All-filter (λ x. Q x.id) (λ a. not (a.id == id)) d.granted b.granted;
    keyed = b.keyed;
  }

  finish-Backed : (d : Desk) (id : ℕ) (ending : Ending) → Backed Q d → Backed Q (finish d id ending)
  unfolding finish
  finish-Backed d id ending b = elim (Option-cases (find (with_id id) d.granted)) [
    | inl missing ↦ subst (Backed Q) (ground (arith, missing)) b
    | inr (a, found) ↦ elim (Bool-cases (is_executing a.state)) [
      | inr idle ↦ subst (Backed Q) (ground (arith, found, idle)) b
      | inl running ↦ subst (Backed Q) (ground (arith, found, running)) (
          close-Backed (update_granted d id (ended ending)) id
            (update_granted-Backed d id (ended ending) (λ x. ground arith) b))
    ]
  ]

  unknown-live : (a : Approval) → is_unknown a.state ≡ true → is_live a.state ≡ true
  unknown-live a h = ground arith

  checked-id : (a : Approval) (file : Option ℕ) → (checked a file).id ≡ a.id
  unfolding checked reconciled
  checked-id a file = ground arith

  reconcile-Backed :
      (d : Desk) (task id : ℕ) (file : Option ℕ)
      → Backed Q d
      → Backed Q (after d (reconcile d task id file))
  unfolding reconcile
  reconcile-Backed d task id file b = elim (Option-cases (approval d.rows id)) [
    | inl missing ↦ rw (missing, after) b
    | inr (a, found) ↦ elim (Bool-cases (a.task_id == task && is_unknown a.state)) [
      | inr closed ↦ rw (found, closed, after) b
      | inl open_row ↦
          rw (found, open_row, after)
            (record {
              rows =
                  save-All (Row Q) (checked a file) d.rows
                    (λ live. subst Q (sym (checked-id a file)) (
                      find-All (Row Q) (with_id id) d.rows a (unfold approval in found) b.rows
                        (unknown-live a (ground (arith, open_row)))))
                    b.rows;
              granted = b.granted;
              keyed = b.keyed;
            })
    ]
  ]

  recover_rows-Row : (rows : List Approval) → All (Row Q) rows → All (Row Q) (recover_rows rows)
  unfolding recover_rows
  recover_rows-Row [] h = tt
  recover_rows-Row (a ∷ rows) (h, hs) =
      ((λ live. h (ground (arith, live))), recover_rows-Row rows hs)

  restart-Backed : (d : Desk) → Backed Q d → Backed Q (restart d)
  unfolding restart get
  restart-Backed d b = record {
    rows = recover_rows-Row d.rows b.rows;
    granted = tt;
    keyed = λ id w e. absurd (cc);
  }

  decides-Backed :
      (d : Desk) (task id nonce : ℕ) (decision : Decision)
      → (approves id d (decides task id nonce decision) ≡ true → Q id)
      → Backed Q d
      → Backed Q (after d (decide d task id nonce decision))
  unfolding approves
  decides-Backed d task id nonce decision consent b =
      elim (Result-cases (decide d task id nonce decision)) [
        | inr (e, refused) ↦ rw refused b
        | inl (d', accepted) ↦
            let (a, found, unbound, r) = decide-Resolved d d' task id nonce decision accepted in
            rw accepted (
              Resolved-Backed Q d d' a task nonce decision r
                (λ yes_given.
                  subst Q (sym (approval-id d.rows id a found))
                    (consent (ground (arith, accepted, yes_given))))
                b)
      ]

  decides_bound-Backed :
      (d : Desk) (input : BoundDecision) (current : ℕ)
      → (approves input.approval_id d (decides_bound input current) ≡ true → Q input.approval_id)
      → Backed Q d
      → Backed Q (after d (decide_bound d input current))
  unfolding approves
  decides_bound-Backed d input current consent b =
      elim (Result-cases (decide_bound d input current)) [
        | inr (e, refused) ↦ rw refused b
        | inl (d', accepted) ↦
            let (a, found, bound, r) = decide_bound-Resolved d d' input current accepted in
            rw accepted (
              Resolved-Backed Q d d' a input.task_id input.nonce input.decision r
                (λ yes_given.
                  subst Q (sym (approval-id d.rows input.approval_id a found))
                    (consent (ground (arith, accepted, yes_given))))
                b)
      ]

  step-Backed :
      (d : Desk) (o : Op)
      → ((id : ℕ) → approves id d o ≡ true → Q id)
      → Backed Q d
      → Backed Q (step d o)
  unfolding step start throw revoke_waiting invalidate_browser
  step-Backed d (requests a before later) consent b =
      request-Backed Q d (in_state awaiting_approval a) before later refl b
  step-Backed d (aborts id) consent b = abort-Backed Q d id b
  step-Backed d (decides task id nonce decision) consent b =
      decides-Backed d task id nonce decision (consent id) b
  step-Backed d (decides_bound input current) consent b =
      decides_bound-Backed d input current (consent input.approval_id) b
  step-Backed d (revokes_waiting task) consent b = revoke_each-Backed Q task d.waiting d b
  step-Backed d (invalidates task tab) consent b =
      invalidate_each-Backed Q tab (filter (λ a. a.task_id == task) d.rows) d b
  step-Backed d (starts id) consent b =
      update_granted-Backed d id (in_state executing) (λ x. refl) b
  step-Backed d (finishes id ending) consent b = finish-Backed d id ending b
  step-Backed d (throws id known aborted) consent b =
      close-Backed (update_granted d id (caught known aborted)) id
        (update_granted-Backed d id (caught known aborted) (λ x. refl) b)
  step-Backed d (reconciles task id file) consent b = reconcile-Backed d task id file b
  step-Backed d restarts consent b = restart-Backed d b

weaken-Backed : (Q R : ℕ → Type 0) (d : Desk) → ((id : ℕ) → Q id → R id) → Backed Q d → Backed R d
weaken-Backed Q R d f b = record {
  rows = rows_of d.rows b.rows;
  granted = granted_of d.granted b.granted;
  keyed = b.keyed;
}
  where
    rows_of : (xs : List Approval) → All (Row Q) xs → All (Row R) xs
    rows_of [] h = tt
    rows_of (x ∷ xs) h = ((λ live. f x.id (h.0 live)), rows_of xs h.1)

    granted_of : (xs : List Approval) → All (λ x. Q x.id) xs → All (λ x. R x.id) xs
    granted_of [] h = tt
    granted_of (x ∷ xs) h = (f x.id h.0, granted_of xs h.1)

steps-Backed :
    (Q : ℕ → Type 0) (d : Desk) (os : List Op)
    → Backed Q d
    → Backed (λ id. Q id ⊎ (was_approved id d os ≡ true)) (steps d os)
unfolding steps was_approved
steps-Backed Q d [] b =
    weaken-Backed Q (λ id. Q id ⊎ (was_approved id d [] ≡ true)) d (λ id h. inl h) b
steps-Backed Q d (o ∷ os) b =
    let Q' : ℕ → Type 0 = λ id. Q id ⊎ (approves id d o ≡ true) in
    let now : Backed Q' (step d o) =
      step-Backed Q' d o (λ id h. inr h) (weaken-Backed Q Q' d (λ id h. inl h) b) in
    weaken-Backed (λ id. Q' id ⊎ (was_approved id (step d o) os ≡ true))
      (λ id. Q id ⊎ (was_approved id d (o ∷ os) ≡ true)) (steps (step d o) os)
      (λ id h. elim h [
        | inl (inl old) ↦ inl old
        | inl (inr new) ↦ inr (ground (arith, new))
        | inr later ↦ inr (ground (arith, later))
      ])
      (steps-Backed Q' (step d o) os now)

-- An action whose row is approved, executing, complete or of unknown outcome had an accepted
-- decision to approve the proposal of that id, whatever else happened: other decisions,
-- cancellations, revocations, failures, reconciliations and restarts.
pub live_was_approved :
    (os : List Op) (id : ℕ) (a : Approval)
    → approval (steps empty_desk os).rows id ≡ some a
    → is_live a.state ≡ true
    → was_approved id empty_desk os ≡ true
unfolding approval get
live_was_approved os id a found live =
    let empty : Backed (λ i. ⊥) empty_desk = record {
      rows = tt;
      granted = tt;
      keyed = λ i w e. absurd (cc);
    } in
    let backed = steps-Backed (λ i. ⊥) empty_desk os empty in
    let q =
      find-All (Row (λ i. ⊥ ⊎ (was_approved i empty_desk os ≡ true))) (with_id id)
        (steps empty_desk os).rows a found backed.rows live in
    elim q [
      | inl none_before ↦ absurd none_before
      | inr yes_given ↦
          subst (λ i. was_approved i empty_desk os ≡ true)
            (approval-id (steps empty_desk os).rows id a found) yes_given
    ]
