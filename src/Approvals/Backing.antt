-- ===== src/Approvals/Backing.antt =====
-- Rows, open promises and calls in flight of packages/runtime/src/tool-runtime.ts that a predicate
-- on proposals backs: what proposing, deciding and revoking do to it.
use foundry_agent_workspace.Base.{
  ℕ, ◌≡◌, refl, sym, subst, ◌∙◌, ℕ_discrete, get-delete_same, get-delete_other, ◌⊎◌, inl, inr, Bool,
  true, false, ◌&&◌, some, List, [], ◌∷◌, ◌==◌, arith, Bool-cases, Option-cases, any, update, get,
  set, delete, All, All-append,
}
use foundry_agent_workspace.Approvals.{
  ApprovalState, approved, executing, complete, rejected, revoked, unknown, Approval, Waiter, Desk,
  Decision, approve, reject, with_id, in_state, refused, is_awaiting, approval, save,
  request_approval, abort, revoke_one, revoke_each, invalidate_one, invalidate_each, holds_value,
}
use foundry_agent_workspace.Approvals.Steps.{is_approve}
use foundry_agent_workspace.Approvals.Binding.{Resolved}

-- The action may have run, or may run next.
abbrev pub is_live : ApprovalState → Bool
is_live approved = true
is_live executing = true
is_live complete = true
is_live unknown = true
is_live _ = false

abbrev pub Row : (ℕ → Type 0) → Approval → Type 0
Row Q a = is_live a.state ≡ true → Q a.id

-- Every live row is approved, every call in flight is, and a closure of `waiting` holds a proposal
-- under its own id.
pub record Backed (Q : ℕ → Type 0) (d : Desk) : Type 0 where
  pub rows : All (Row Q) d.rows
  pub granted : All (λ a. Q a.id) d.granted
  pub keyed : (id : ℕ) (w : Waiter) → get id d.waiting ≡ some w → w.approval.id ≡ id

pub save-All {ℓ} :
    (P : Approval → Type ℓ) (a : Approval) (rows : List Approval)
    → P a
    → All P rows
    → All P (save a rows)
unfolding save
save-All P a rows h all = elim (Bool-cases (any (with_id a.id) rows)) [
  | inl present ↦ rw present (replaced rows all)
  | inr absent ↦ rw absent (All-append P rows (a ∷ []) all (h, tt))
]
  where
    replaced : (xs : List Approval) → All P xs → All P (update (with_id a.id) (λ x. a) xs)
    replaced [] h' = tt
    replaced (x ∷ xs) (hx, hs) =
        (elim (Bool-cases (with_id a.id x)) [ inl e ↦ rw e h | inr e ↦ rw e hx ], replaced xs hs)

pub get-delete :
    (k id : ℕ) (m : List (ℕ × Waiter)) (w : Waiter)
    → get id (delete k m) ≡ some w
    → get id m ≡ some w
get-delete k id m w e = elim (ℕ_discrete id k) [
  | yes same ↦ cc (same, get-delete_same k m, e)
  | no other ↦ sym (get-delete_other k id m other) ∙ e
]

pub get-set :
    (k id : ℕ) (v : Waiter) (m : List (ℕ × Waiter)) (w : Waiter)
    → get id (set k v m) ≡ some w
    → ((k ≡ id) × (v ≡ w)) ⊎ (get id m ≡ some w)
unfolding get set
get-set k id v [] w e = ground (arith, e)
get-set k id v ((j, u) ∷ m) w e = ground (arith, e, get-set k id v m w)

module _ (Q : ℕ → Type 0) where
  -- A save of a row that is not live, or is approved, with some entries of `waiting` gone.
  pub saved-Backed :
      (d : Desk) (a : Approval) (k : ℕ)
      → Row Q a
      → Backed Q d
      → Backed Q (record d { rows = save a d.rows; waiting = delete k d.waiting })
  saved-Backed d a k h b = record {
    rows = save-All (Row Q) a d.rows h b.rows;
    granted = b.granted;
    keyed = λ id w e. b.keyed id w (get-delete k id d.waiting w e);
  }

  pub request-Backed :
      (d : Desk) (a : Approval) (before after : Bool)
      → is_live a.state ≡ false
      → Backed Q d
      → Backed Q (request_approval d a before after)
  unfolding request_approval
  request-Backed d a true after dead b = record {
    rows = save-All (Row Q) (refused a) d.rows (λ e. absurd (cc)) b.rows;
    granted = b.granted;
    keyed = b.keyed;
  }
  request-Backed d a false after dead b =
      let w : Waiter = record { task_id = a.task_id; approval = a } in
      let own : Row Q a = λ e. absurd (cc (e, dead)) in
      let proposed : Backed Q (record d { rows = save a d.rows; waiting = set a.id w d.waiting }) =
        record {
          rows = save-All (Row Q) a d.rows own b.rows;
          granted = b.granted;
          keyed = λ id v e. elim (get-set a.id id w d.waiting v e) [
            | inl (same, own_entry) ↦ cc (same, own_entry)
            | inr old ↦ b.keyed id v old
          ];
        } in
      elim after as (λ x. Backed Q (request_approval d a false x)) [
        | false ↦ proposed
        | true ↦
            saved-Backed (record d { rows = save a d.rows; waiting = set a.id w d.waiting })
              (in_state revoked a) a.id (λ e. absurd (cc)) proposed
      ]

  pub abort-Backed : (d : Desk) (id : ℕ) → Backed Q d → Backed Q (abort d id)
  unfolding abort
  abort-Backed d id b = elim (Option-cases (get id d.waiting)) [
    | inl missing ↦ subst (Backed Q) (ground (arith, missing)) b
    | inr (w, found) ↦
        subst (Backed Q) (ground (arith, found))
          (saved-Backed d (in_state revoked w.approval) id (λ e. absurd (cc)) b)
  ]

  pub Resolved-Backed :
      (d d' : Desk) (a : Approval) (task nonce : ℕ) (decision : Decision)
      → Resolved d d' a task nonce decision
      → (is_approve decision ≡ true → Q a.id)
      → Backed Q d
      → Backed Q d'
  Resolved-Backed d d' a task nonce approve r consent b = subst (Backed Q) (sym r.written) (record {
    rows = save-All (Row Q) (in_state approved a) d.rows (λ e. consent refl) b.rows;
    granted =
        All-append (λ x. Q x.id) d.granted (r.waiter.approval ∷ []) b.granted
          (subst Q (sym (b.keyed a.id r.waiter r.waits)) (consent refl), tt);
    keyed = λ id w e. b.keyed id w (get-delete a.id id d.waiting w e);
  })
  Resolved-Backed d d' a task nonce reject r consent b =
      subst (Backed Q) (sym r.written)
        (saved-Backed d (in_state rejected a) a.id (λ e. absurd (cc)) b)

  revoke_one-Backed : (d : Desk) (id : ℕ) (a : Approval) → Backed Q d → Backed Q (revoke_one d id a)
  unfolding revoke_one
  revoke_one-Backed d id a b = record {
    rows = elim (Bool-cases (is_awaiting a.state)) [
      | inl open_row ↦
          rw open_row (save-All (Row Q) (in_state revoked a) d.rows (λ e. absurd (cc)) b.rows)
      | inr closed ↦ rw closed b.rows
    ];
    granted = b.granted;
    keyed = λ i w e. b.keyed i w (get-delete id i d.waiting w e);
  }

  pub revoke_each-Backed :
      (task : ℕ) (ws : List (ℕ × Waiter)) (d : Desk) → Backed Q d → Backed Q (revoke_each task ws d)
  unfolding revoke_each
  revoke_each-Backed task [] d b = b
  revoke_each-Backed task ((id, w) ∷ ws) d b = elim (Bool-cases (w.task_id == task)) [
    | inr other ↦ rw other (revoke_each-Backed task ws d b)
    | inl mine ↦ elim (Option-cases (approval d.rows id)) [
      | inl missing ↦ rw (mine, missing) b
      | inr (a, found) ↦
          rw (mine, found)
            (revoke_each-Backed task ws (revoke_one d id a) (revoke_one-Backed d id a b))
    ]
  ]

  invalidate_one-Backed :
      (tab : ℕ) (d : Desk) (a : Approval) → Backed Q d → Backed Q (invalidate_one tab d a)
  unfolding invalidate_one
  invalidate_one-Backed tab d a b =
      elim (Bool-cases (holds_value a.tab tab && is_awaiting a.state)) [
        | inl hit ↦ rw hit (saved-Backed d (in_state revoked a) a.id (λ e. absurd (cc)) b)
        | inr miss ↦ rw miss b
      ]

  pub invalidate_each-Backed :
      (tab : ℕ) (rows : List Approval) (d : Desk)
      → Backed Q d
      → Backed Q (invalidate_each tab rows d)
  unfolding invalidate_each
  invalidate_each-Backed tab [] d b = b
  invalidate_each-Backed tab (a ∷ rows) d b =
      invalidate_each-Backed tab rows (invalidate_one tab d a) (invalidate_one-Backed tab d a b)
