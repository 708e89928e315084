-- ===== src/Approvals/Coherence.antt =====
-- Every call on the approvals of packages/runtime/src/tool-runtime.ts keeps the map `waiting` and
-- the rows together.
use foundry_agent_workspace.Base.{
  ℕ, ◌≡◌, refl, subst, ap, ◌∙◌, inl, inr, Bool, true, false, not, ◌&&◌, Option, none, some, List,
  [], ◌∷◌, ◌==◌, arith, Bool-cases, Option-cases, Result-cases, find, filter, update, get, All,
  All-filter,
}
use foundry_agent_workspace.Approvals.{
  executing, awaiting_approval, Approval, Desk, Decision, with_id, in_state, is_awaiting, approval,
  save, decide, decide_bound, BoundDecision, revoke_waiting, invalidate_browser,
}
use foundry_agent_workspace.Approvals.Execution.{
  update_granted, start, Ending, ended, is_executing, caught, caught_state, close, finish, throw,
  reconciled, checked, is_unknown, reconcile, recovered_state, recover_rows, restart,
}
use foundry_agent_workspace.Approvals.Steps.{
  Op, requests, aborts, decides, decides_bound, revokes_waiting, invalidates, starts, finishes,
  throws, reconciles, restarts, after, step, steps, empty_desk,
}
use foundry_agent_workspace.Approvals.Binding.{decide-Resolved, decide_bound-Resolved, approval-id}
use foundry_agent_workspace.Approvals.Waiting.{Flying, Coherent}
use foundry_agent_workspace.Approvals.Promises.{
  Resolved-Coherent, abort-Coherent, invalidate_each-Coherent, request-Coherent,
  revoke_each-Coherent, silent, unwaited-Coherent,
}

found-Flying :
    (rows : List Approval) (p : Approval → Bool) (xs : List Approval) (a : Approval)
    → find p xs ≡ some a
    → All (Flying rows) xs
    → Flying rows a
found-Flying rows p [] a e h = absurd (cc)
found-Flying rows p (x ∷ xs) a e h = elim (Bool-cases (p x)) [
  | inl hit ↦ subst (Flying rows) (ground (arith, e, hit)) h.0
  | inr miss ↦ found-Flying rows p xs a (ground (arith, e, miss)) h.1
]

-- A call in flight saves its own proposal in a state that is not awaiting-approval.
update_granted-Coherent :
    (d : Desk) (id : ℕ) (g : Approval → Approval)
    → ((x : Approval) → (g x).id ≡ x.id)
    → ((x : Approval) → is_awaiting (g x).state ≡ false)
    → Coherent d
    → Coherent (update_granted d id g)
unfolding update_granted
update_granted-Coherent d id g same closes c = elim (Option-cases (find (with_id id) d.granted)) [
  | inl missing ↦ subst Coherent (ground (arith, missing)) c
  | inr (a, found) ↦
      let f = found-Flying d.rows (with_id id) d.granted a found c.flying in
      let own : approval d.rows (g a).id ≡ some f.row = ap (approval d.rows) (same a) ∙ f.found in
      let quiet : get (g a).id d.waiting ≡ none =
        silent d (g a).id (λ w r s. cc (own, r, s, f.decided)) c in
      let saved = unwaited-Coherent d (g a) (closes a) quiet c in
      subst Coherent (ground (arith, found)) (record {
        open_rows = λ k w e.
            let o = saved.open_rows k w e in
            record { row = o.row; awaiting = o.awaiting; owner = o.owner };
        awaited = saved.awaited;
        flying = renamed (save (g a) d.rows) d.granted saved.flying;
      })
]
  where
    renamed :
        (rows xs : List Approval)
        → All (Flying rows) xs
        → All (Flying rows) (update (with_id id) g xs)
    renamed rows [] h = tt
    renamed rows (x ∷ xs) (f, h) = (
      elim (Bool-cases (with_id id x)) [
        | inl hit ↦ rw hit (record {
          row = f.row;
          found = ap (approval rows) (same x) ∙ f.found;
          decided = f.decided;
        })
        | inr miss ↦ rw miss f
      ],
      renamed rows xs h,
    )

close-Coherent : (d : Desk) (id : ℕ) → Coherent d → Coherent (close d id)
close-Coherent d id c = record {
  open_rows = λ k w e.
      let o = c.open_rows k w e in record { row = o.row; awaiting = o.awaiting; owner = o.owner };
  awaited = c.awaited;
  flying = All-filter (Flying d.rows) (λ a. not (a.id == id)) d.granted c.flying;
}

finish-Coherent : (d : Desk) (id : ℕ) (ending : Ending) → Coherent d → Coherent (finish d id ending)
unfolding finish
finish-Coherent d id ending c = elim (Option-cases (find (with_id id) d.granted)) [
  | inl missing ↦ subst Coherent (ground (arith, missing)) c
  | inr (a, found) ↦ elim (Bool-cases (is_executing a.state)) [
    | inr idle ↦ subst Coherent (ground (arith, found, idle)) c
    | inl running ↦ subst Coherent (ground (arith, found, running)) (
        close-Coherent (update_granted d id (ended ending)) id
          (update_granted-Coherent d id (ended ending) (λ x. ground arith) (λ x. ground arith) c))
  ]
]

caught-closed :
    (known aborted : Bool) (a : Approval) → is_awaiting (caught known aborted a).state ≡ false
unfolding caught_state
caught-closed known aborted a = ground arith

checked-closed :
    (a : Approval) (file : Option ℕ)
    → is_unknown a.state ≡ true
    → is_awaiting (checked a file).state ≡ false
unfolding checked reconciled
checked-closed a file h = ground (arith, h)

checked_id : (a : Approval) (file : Option ℕ) → (checked a file).id ≡ a.id
unfolding checked reconciled
checked_id a file = ground arith

reconcile-Coherent :
    (d : Desk) (task id : ℕ) (file : Option ℕ)
    → Coherent d
    → Coherent (after d (reconcile d task id file))
unfolding reconcile
reconcile-Coherent d task id file c = elim (Option-cases (approval d.rows id)) [
  | inl missing ↦ rw (missing, after) c
  | inr (a, found) ↦ elim (Bool-cases (a.task_id == task && is_unknown a.state)) [
    | inr closed ↦ rw (found, closed, after) c
    | inl open_row ↦
        let lost : is_unknown a.state ≡ true = ground (arith, open_row) in
        let own : approval d.rows (checked a file).id ≡ some a =
          ap (approval d.rows) (checked_id a file ∙ approval-id d.rows id a found) ∙ found in
        rw (found, open_row, after)
          (unwaited-Coherent d (checked a file) (checked-closed a file lost)
            (silent d (checked a file).id (λ w r s. decided_row a w.approval lost s (cc (own, r)))
              c)
            c)
  ]
]
  where
    decided_row :
        (x y : Approval) → is_unknown x.state ≡ true → is_awaiting y.state ≡ true → x ≡ y → ⊥
    decided_row x y u s e = ground (arith, u, s, ap (λ z. is_awaiting z.state) e)

recover_rows-decided :
    (rows : List Approval) (id : ℕ) (a : Approval)
    → approval (recover_rows rows) id ≡ some a
    → is_awaiting a.state ≡ true
    → ⊥
unfolding recover_rows approval
recover_rows-decided [] id a e s = cc
recover_rows-decided (x ∷ rows) id a e s = elim (Bool-cases (x.id == id)) [
  | inl hit ↦
      let own : in_state (recovered_state x.state) x ≡ a = ground (arith, e, hit) in
      ground (arith, s, ap (λ z. is_awaiting z.state) own)
  | inr miss ↦ recover_rows-decided rows id a (ground (arith, e, miss)) s
]

restart-Coherent : (d : Desk) → Coherent (restart d)
unfolding restart get
restart-Coherent d = record {
  open_rows = λ id w e. absurd (cc);
  awaited = λ id a found s. absurd (recover_rows-decided d.rows id a found s);
  flying = tt;
}

decides-Coherent :
    (d : Desk) (task id nonce : ℕ) (decision : Decision)
    → Coherent d
    → Coherent (after d (decide d task id nonce decision))
decides-Coherent d task id nonce decision c =
    elim (Result-cases (decide d task id nonce decision)) [
      | inr (e, refused) ↦ rw refused c
      | inl (d', accepted) ↦
          let (a, found, unbound, r) = decide-Resolved d d' task id nonce decision accepted in
          rw accepted (Resolved-Coherent d d' a task nonce decision r c)
    ]

decides_bound-Coherent :
    (d : Desk) (input : BoundDecision) (current : ℕ)
    → Coherent d
    → Coherent (after d (decide_bound d input current))
decides_bound-Coherent d input current c = elim (Result-cases (decide_bound d input current)) [
  | inr (e, refused) ↦ rw refused c
  | inl (d', accepted) ↦
      let (a, found, bound, r) = decide_bound-Resolved d d' input current accepted in
      rw accepted (Resolved-Coherent d d' a input.task_id input.nonce input.decision r c)
]

-- The id of a proposal is new: the source draws it with randomUUID.
abbrev pub FreshId : Desk → Op → Type 0
FreshId d (requests a before later) = approval d.rows a.id ≡ none
FreshId d _ = Unit

abbrev pub FreshIds : Desk → List Op → Type 0
FreshIds d [] = Unit
FreshIds d (o ∷ os) = FreshId d o × FreshIds (step d o) os

step-Coherent : (d : Desk) (o : Op) → FreshId d o → Coherent d → Coherent (step d o)
unfolding step start throw revoke_waiting invalidate_browser
step-Coherent d (requests a before later) fresh c =
    request-Coherent d (in_state awaiting_approval a) before later fresh refl c
step-Coherent d (aborts id) fresh c = abort-Coherent d id c
step-Coherent d (decides task id nonce decision) fresh c =
    decides-Coherent d task id nonce decision c
step-Coherent d (decides_bound input current) fresh c = decides_bound-Coherent d input current c
step-Coherent d (revokes_waiting task) fresh c = revoke_each-Coherent task d.waiting d c
step-Coherent d (invalidates task tab) fresh c =
    invalidate_each-Coherent tab (filter (λ a. a.task_id == task) d.rows) d c
step-Coherent d (starts id) fresh c =
    update_granted-Coherent d id (in_state executing) (λ x. refl) (λ x. refl) c
step-Coherent d (finishes id ending) fresh c = finish-Coherent d id ending c
step-Coherent d (throws id known aborted) fresh c =
    close-Coherent (update_granted d id (caught known aborted)) id (
      update_granted-Coherent d id (caught known aborted) (λ x. refl) (caught-closed known aborted)
        c)
step-Coherent d (reconciles task id file) fresh c = reconcile-Coherent d task id file c
step-Coherent d restarts fresh c = restart-Coherent d

steps-Coherent : (d : Desk) (os : List Op) → FreshIds d os → Coherent d → Coherent (steps d os)
unfolding steps
steps-Coherent d [] fresh c = c
steps-Coherent d (o ∷ os) fresh c =
    steps-Coherent (step d o) os fresh.1 (step-Coherent d o fresh.0 c)

-- After any sequence of calls in which each proposal has a new id: every open promise is for a
-- proposal of its own task that awaits its decision, every proposal that awaits its decision has an
-- open promise, and no call that goes on has a proposal still awaiting.
pub desk-Coherent : (os : List Op) → FreshIds empty_desk os → Coherent (steps empty_desk os)
unfolding get approval
desk-Coherent os fresh =
    steps-Coherent empty_desk os fresh
      (record { open_rows = λ id w e. absurd (cc); awaited = λ id a e s. absurd (cc); flying = tt })
