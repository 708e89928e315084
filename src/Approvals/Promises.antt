-- ===== src/Approvals/Promises.antt =====
-- Proposing, deciding and revoking in packages/runtime/src/tool-runtime.ts keep the map `waiting` and
-- the rows together.
use foundry_agent_workspace.Base.{
  ℕ, ◌≡◌, refl, sym, subst, ap, ◌∙◌, ℕ_discrete, inl, inr, Bool, true, false, ◌&&◌, none, some,
  List, [], ◌∷◌, ◌==◌, arith, Bool-cases, Option-cases, get, set, delete, get-set_same,
  get-set_other, get-delete_same, get-delete_other, All-append,
}
use foundry_agent_workspace.Approvals.{
  revoked, Approval, Waiter, Desk, Decision, approve, reject, in_state, refused, is_awaiting,
  approval, save, request_approval, abort, decided_state, revoke_one, revoke_each, invalidate_one,
  invalidate_each, holds_value,
}
use foundry_agent_workspace.Approvals.Binding.{Resolved, approval-id}
use foundry_agent_workspace.Approvals.Waiting.{
  approval-save_same, approval-save_other, OpenRow, Flying, Coherent, save-Flying, All-map_of,
  closed-Coherent,
}

-- A decided row is saved for an id that no promise is open for.
pub unwaited-Coherent :
    (d : Desk) (a : Approval)
    → is_awaiting a.state ≡ false
    → get a.id d.waiting ≡ none
    → Coherent d
    → Coherent (record d { rows = save a d.rows })
unwaited-Coherent d a closed silent c = record {
  open_rows = λ id w e. elim (ℕ_discrete id a.id) [
    | yes same ↦ absurd (cc (same, silent, e))
    | no other ↦
        let o = c.open_rows id w e in
        record {
          row = approval-save_other a d.rows id other ∙ o.row;
          awaiting = o.awaiting;
          owner = o.owner;
        }
  ];
  awaited = λ id x found open_row. elim (ℕ_discrete id a.id) [
    | yes same ↦ absurd (cc (same, approval-save_same a d.rows, found, open_row, closed))
    | no other ↦ c.awaited id x (sym (approval-save_other a d.rows id other) ∙ found) open_row
  ];
  flying = All-map_of d.granted (λ x f. save-Flying d.rows a x closed f) c.flying;
}

-- The promise of a decided row is dropped, as none is open.
pub dropped-Coherent :
    (d : Desk) (id : ℕ) (a : Approval)
    → approval d.rows id ≡ some a
    → is_awaiting a.state ≡ false
    → Coherent d
    → Coherent (record d { waiting = delete id d.waiting })
dropped-Coherent d id a found closed c = record {
  open_rows = λ k w e. elim (ℕ_discrete k id) [
    | yes same ↦ absurd (cc (same, get-delete_same id d.waiting, e))
    | no other ↦
        let o = c.open_rows k w (sym (get-delete_other id k d.waiting other) ∙ e) in
        record { row = o.row; awaiting = o.awaiting; owner = o.owner }
  ];
  awaited = λ k x there open_row. elim (ℕ_discrete k id) [
    | yes same ↦ absurd (cc (same, found, there, open_row, closed))
    | no other ↦
        let (w, e) = c.awaited k x there open_row in (w, get-delete_other id k d.waiting other ∙ e)
  ];
  flying = c.flying;
}

-- No promise is open for an id without an awaiting row.
pub silent :
    (d : Desk) (id : ℕ)
    → ((w : Waiter)
        → approval d.rows id ≡ some w.approval
        → is_awaiting w.approval.state ≡ true
        → ⊥)
    → Coherent d
    → get id d.waiting ≡ none
silent d id not_open c = elim (Option-cases (get id d.waiting)) [
  | inl missing ↦ missing
  | inr (w, found) ↦ let o = c.open_rows id w found in absurd (not_open w o.row o.awaiting)
]

pub request-Coherent :
    (d : Desk) (a : Approval) (before later : Bool)
    → approval d.rows a.id ≡ none
    → is_awaiting a.state ≡ true
    → Coherent d
    → Coherent (request_approval d a before later)
unfolding request_approval
request-Coherent d a true later fresh open_row c =
    unwaited-Coherent d (refused a) refl (silent d a.id (λ w r s. cc (fresh, r)) c) c
request-Coherent d a false later fresh open_row c =
    let v : Waiter = record { task_id = a.task_id; approval = a } in
    let proposed : Coherent (record d { rows = save a d.rows; waiting = set a.id v d.waiting }) =
      record {
        open_rows = λ id w e. elim (ℕ_discrete id a.id) [
          | yes same ↦
              let own : v ≡ w = cc (same, get-set_same a.id v d.waiting, e) in
              subst (OpenRow (record d { rows = save a d.rows; waiting = set a.id v d.waiting }) id)
                own
                (record {
                  row = ap (approval (save a d.rows)) same ∙ approval-save_same a d.rows;
                  awaiting = open_row;
                  owner = refl;
                })
          | no other ↦
              let o = c.open_rows id w (sym (get-set_other a.id id v d.waiting other) ∙ e) in
              record {
                row = approval-save_other a d.rows id other ∙ o.row;
                awaiting = o.awaiting;
                owner = o.owner;
              }
        ];
        awaited = λ id x found s. elim (ℕ_discrete id a.id) [
          | yes same ↦
              (v, ap (λ k. get k (set a.id v d.waiting)) same ∙ get-set_same a.id v d.waiting)
          | no other ↦
              let (w, e) = c.awaited id x (sym (approval-save_other a d.rows id other) ∙ found) s in
              (w, get-set_other a.id id v d.waiting other ∙ e)
        ];
        flying =
            All-map_of d.granted
              (λ x f. record {
                row = f.row;
                found =
                    approval-save_other a d.rows x.id (λ same. cc (same, fresh, f.found)) ∙ f.found;
                decided = f.decided;
              })
              c.flying;
      } in
    elim later as (λ x. Coherent (request_approval d a false x)) [
      | false ↦ proposed
      | true ↦
          closed-Coherent (record d { rows = save a d.rows; waiting = set a.id v d.waiting })
            (in_state revoked a) refl proposed
    ]

pub abort-Coherent : (d : Desk) (id : ℕ) → Coherent d → Coherent (abort d id)
unfolding abort
abort-Coherent d id c = elim (Option-cases (get id d.waiting)) [
  | inl missing ↦ subst Coherent (ground (arith, missing)) c
  | inr (w, found) ↦
      let same : w.approval.id ≡ id =
        approval-id d.rows id w.approval (c.open_rows id w found).row in
      subst Coherent (ground (arith, found)) (
        subst
          (λ k. Coherent (record d {
            rows = save (in_state revoked w.approval) d.rows;
            waiting = delete k d.waiting;
          }))
          same (closed-Coherent d (in_state revoked w.approval) refl c))
]

pub Resolved-Coherent :
    (d d' : Desk) (a : Approval) (task nonce : ℕ) (decision : Decision)
    → Resolved d d' a task nonce decision
    → Coherent d
    → Coherent d'
Resolved-Coherent d d' a task nonce reject r c =
    subst Coherent (sym r.written) (closed-Coherent d (in_state (decided_state reject) a) refl c)
Resolved-Coherent d d' a task nonce approve r c =
    let row : Approval = in_state (decided_state approve) a in
    let closed = closed-Coherent d row refl c in
    let same : r.waiter.approval.id ≡ a.id =
      approval-id d.rows a.id r.waiter.approval (c.open_rows a.id r.waiter r.waits).row in
    subst Coherent (sym r.written) (record {
      open_rows = λ id w e.
          let o = closed.open_rows id w e in
          record { row = o.row; awaiting = o.awaiting; owner = o.owner };
      awaited = closed.awaited;
      flying =
          All-append (Flying (save row d.rows)) d.granted (r.waiter.approval ∷ []) closed.flying (
            record {
              row = row;
              found = ap (approval (save row d.rows)) same ∙ approval-save_same row d.rows;
              decided = refl;
            },
            tt,
          );
    })

pub revoke_one-Coherent :
    (d : Desk) (id : ℕ) (a : Approval)
    → approval d.rows id ≡ some a
    → Coherent d
    → Coherent (revoke_one d id a)
unfolding revoke_one
revoke_one-Coherent d id a found c = elim (Bool-cases (is_awaiting a.state)) [
  | inl open_row ↦ rw open_row (
      subst
        (λ k.
          Coherent
            (record d { rows = save (in_state revoked a) d.rows; waiting = delete k d.waiting }))
        (approval-id d.rows id a found) (closed-Coherent d (in_state revoked a) refl c))
  | inr closed ↦ rw closed (dropped-Coherent d id a found closed c)
]

pub revoke_each-Coherent :
    (task : ℕ) (ws : List (ℕ × Waiter)) (d : Desk) → Coherent d → Coherent (revoke_each task ws d)
unfolding revoke_each
revoke_each-Coherent task [] d c = c
revoke_each-Coherent task ((id, w) ∷ ws) d c = elim (Bool-cases (w.task_id == task)) [
  | inr other ↦ rw other (revoke_each-Coherent task ws d c)
  | inl mine ↦ elim (Option-cases (approval d.rows id)) [
    | inl missing ↦ rw (mine, missing) c
    | inr (a, found) ↦
        rw (mine, found)
          (revoke_each-Coherent task ws (revoke_one d id a) (revoke_one-Coherent d id a found c))
  ]
]

pub invalidate_one-Coherent :
    (tab : ℕ) (d : Desk) (a : Approval) → Coherent d → Coherent (invalidate_one tab d a)
unfolding invalidate_one
invalidate_one-Coherent tab d a c =
    elim (Bool-cases (holds_value a.tab tab && is_awaiting a.state)) [
      | inl hit ↦ rw hit (closed-Coherent d (in_state revoked a) refl c)
      | inr miss ↦ rw miss c
    ]

pub invalidate_each-Coherent :
    (tab : ℕ) (rows : List Approval) (d : Desk) → Coherent d → Coherent (invalidate_each tab rows d)
unfolding invalidate_each
invalidate_each-Coherent tab [] d c = c
invalidate_each-Coherent tab (a ∷ rows) d c =
    invalidate_each-Coherent tab rows (invalidate_one tab d a) (invalidate_one-Coherent tab d a c)
