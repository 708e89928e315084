-- ===== src/Approvals/Waiting.antt =====
-- The map `waiting` of packages/runtime/src/tool-runtime.ts against the rows: a proposal awaits its
-- decision exactly while a promise is open for it.
use foundry_agent_workspace.Base.{
  ℕ, ◌≡◌, ◌≢◌, refl, sym, ap, ◌∙◌, ℕ_discrete, inl, inr, true, false, some, List, [], ◌∷◌, ◌++◌,
  arith, Bool-cases, find, any, update, get, delete, get-delete_same, get-delete_other, All,
}
use foundry_agent_workspace.Approvals.{Approval, Waiter, Desk, with_id, is_awaiting, approval, save}

-- What a save does to the row of an id.
pub approval-save_same :
    (a : Approval) (rows : List Approval) → approval (save a rows) a.id ≡ some a
unfolding approval save
approval-save_same a rows = elim (Bool-cases (any (with_id a.id) rows)) [
  | inl present ↦ rw present (replaced rows present)
  | inr absent ↦ rw absent (appended rows absent)
]
  where
    replaced :
        (xs : List Approval)
        → any (with_id a.id) xs ≡ true
        → find (with_id a.id) (update (with_id a.id) (λ x. a) xs) ≡ some a
    replaced [] h = cc
    replaced (x ∷ xs) h = ground (arith, replaced xs)

    appended :
        (xs : List Approval)
        → any (with_id a.id) xs ≡ false
        → find (with_id a.id) (xs ++ a ∷ []) ≡ some a
    appended [] h = ground arith
    appended (x ∷ xs) h = ground (arith, appended xs)

pub approval-save_other :
    (a : Approval) (rows : List Approval) (id : ℕ)
    → id ≢ a.id
    → approval (save a rows) id ≡ approval rows id
unfolding approval save
approval-save_other a rows id other = elim (Bool-cases (any (with_id a.id) rows)) [
  | inl present ↦ rw present (replaced rows)
  | inr absent ↦ rw absent (appended rows)
]
  where
    replaced :
        (xs : List Approval)
        → find (with_id id) (update (with_id a.id) (λ x. a) xs) ≡ find (with_id id) xs
    replaced [] = refl
    replaced (x ∷ xs) = ground (arith, other, replaced xs)

    appended : (xs : List Approval) → find (with_id id) (xs ++ a ∷ []) ≡ find (with_id id) xs
    appended [] = ground (arith, other)
    appended (x ∷ xs) = ground (arith, appended xs)

-- The promise that is open for an id, and its row.
pub record OpenRow (d : Desk) (id : ℕ) (w : Waiter) : Type 0 where
  pub row : approval d.rows id ≡ some w.approval
  pub awaiting : is_awaiting w.approval.state ≡ true
  pub owner : w.task_id ≡ w.approval.task_id

-- The row of a call in flight is decided.
pub record Flying (rows : List Approval) (a : Approval) : Type 0 where
  pub row : Approval
  pub found : approval rows a.id ≡ some row
  pub decided : is_awaiting row.state ≡ false

pub record Coherent (d : Desk) : Type 0 where
  pub open_rows : (id : ℕ) (w : Waiter) → get id d.waiting ≡ some w → OpenRow d id w
  pub awaited :
      (id : ℕ) (a : Approval)
      → approval d.rows id ≡ some a
      → is_awaiting a.state ≡ true
      → (w : Waiter) × (get id d.waiting ≡ some w)
  pub flying : All (Flying d.rows) d.granted

-- A decided row is saved for an id, and the promise of that id is gone.
pub save-Flying :
    (rows : List Approval) (a x : Approval)
    → is_awaiting a.state ≡ false
    → Flying rows x
    → Flying (save a rows) x
save-Flying rows a x closed f = elim (ℕ_discrete x.id a.id) [
  | yes same ↦ record {
    row = a;
    found = ap (approval (save a rows)) same ∙ approval-save_same a rows;
    decided = closed;
  }
  | no other ↦ record {
    row = f.row;
    found = approval-save_other a rows x.id other ∙ f.found;
    decided = f.decided;
  }
]

pub All-map_of {ℓ κ} :
    {A : Type ℓ} {P Q : A → Type κ} (xs : List A) → ((x : A) → P x → Q x) → All P xs → All Q xs
All-map_of [] f h = tt
All-map_of (x ∷ xs) f h = (f x h.0, All-map_of xs f h.1)

pub closed-Coherent :
    (d : Desk) (a : Approval)
    → is_awaiting a.state ≡ false
    → Coherent d
    → Coherent (record d { rows = save a d.rows; waiting = delete a.id d.waiting })
closed-Coherent d a closed c = record {
  open_rows = λ id w e. elim (ℕ_discrete id a.id) [
    | yes same ↦ absurd (cc (same, get-delete_same a.id d.waiting, e))
    | no other ↦
        let o = c.open_rows id w (sym (get-delete_other a.id id d.waiting other) ∙ e) in
        record {
          row = approval-save_other a d.rows id other ∙ o.row;
          awaiting = o.awaiting;
          owner = o.owner;
        }
  ];
  awaited = λ id x found open_row. elim (ℕ_discrete id a.id) [
    | yes same ↦ absurd (cc (same, approval-save_same a d.rows, found, open_row, closed))
    | no other ↦
        let (w, e) =
          c.awaited id x (sym (approval-save_other a d.rows id other) ∙ found) open_row in
        (w, get-delete_other a.id id d.waiting other ∙ e)
  ];
  flying = All-map_of d.granted (λ x f. save-Flying d.rows a x closed f) c.flying;
}
