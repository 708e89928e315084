-- ===== src/Assignments/Revisions.antt =====
-- The revisions of a coordinated task's assignments in
-- packages/runtime/src/orchestration-records.ts (`insertAssignment`).
use foundry_agent_workspace.Base.{
  ℕ, zero, suc, ◌+◌, ◌≤◌, ◌≡◌, refl, sym, subst, ap, ◌∙◌, inl, inr, Bool, Option, List, [], ◌∷◌,
  ◌++◌, arith, Bool-cases, Result-cases, ok, filter, update, length-append, filter-append,
  if◌then◌else◌, append-nil, ==_iff, ◌<◌, some,
}
use foundry_agent_workspace.Assignments.{
  Assignment, of_root, revision_count, new_assignment, insert_assignment, has_assignment_id,
  is_proposed_row, is_admissible, admitted_row, set_assignment_state, set_assignment_wait,
  admit_assignment, record_base, max_assignment_revisions,
}
use foundry_agent_workspace.Assignments.Finality.{
  Op, inserts, sets_state, sets_wait, admits, records_base, step, steps, insert_assignment-grows,
}

-- The revisions of a root, in the order of insertion.
unfoldable pub revisions : List Assignment → ℕ → List ℕ
revisions [] root = []
revisions (a ∷ rows) root =
    if of_root root a then a.revision ∷ revisions rows root else revisions rows root

-- 1, 2, and so on up to n.
abbrev pub up_to : ℕ → List ℕ
up_to zero = []
up_to (suc n) = up_to n ++ suc n ∷ []

pub record Numbered (rows : List Assignment) (root : ℕ) : Type 0 where
  pub numbers : revisions rows root ≡ up_to (revision_count rows root)
  pub bound : revision_count rows root ≤ max_assignment_revisions

-- An update that keeps the root and the revision of every row.
update-revisions :
    (q : Assignment → Bool) (g : Assignment → Assignment) (rows : List Assignment) (root : ℕ)
    → ((a : Assignment) → (g a).root_task_id ≡ a.root_task_id)
    → ((a : Assignment) → (g a).revision ≡ a.revision)
    → (revisions (update q g rows) root ≡ revisions rows root)
      × (revision_count (update q g rows) root ≡ revision_count rows root)
unfolding revisions revision_count
update-revisions q g [] root same_root same_revision = (refl, refl)
update-revisions q g (a ∷ rows) root same_root same_revision =
    let (e, f) = update-revisions q g rows root same_root same_revision in
    (
      ground (arith, e, same_root a, same_revision a),
      ground (arith, f, same_root a, same_revision a),
    )

update-Numbered :
    (q : Assignment → Bool) (g : Assignment → Assignment) (rows : List Assignment) (root : ℕ)
    → ((a : Assignment) → (g a).root_task_id ≡ a.root_task_id)
    → ((a : Assignment) → (g a).revision ≡ a.revision)
    → Numbered rows root
    → Numbered (update q g rows) root
update-Numbered q g rows root same_root same_revision n =
    let (e, f) = update-revisions q g rows root same_root same_revision in
    record { numbers = e ∙ n.numbers ∙ ap up_to (sym f); bound = omega (arith, n.bound, f) }

revisions-append :
    (rows : List Assignment) (a : Assignment) (root : ℕ)
    → revisions (rows ++ a ∷ []) root
      ≡ revisions rows root ++ (if of_root root a then a.revision ∷ [] else [])
unfolding revisions
revisions-append [] a root = ground arith
revisions-append (x ∷ rows) a root = ground (arith, revisions-append rows a root)

count-append :
    (rows : List Assignment) (a : Assignment) (root : ℕ)
    → revision_count (rows ++ a ∷ []) root
      ≡ revision_count rows root + (if of_root root a then 1 else 0)
unfolding revision_count
count-append rows a root = ground (
  arith,
  filter-append (of_root root) rows (a ∷ []),
  length-append (filter (of_root root) rows) (filter (of_root root) (a ∷ [])),
)

insert_assignment-below :
    (rows rows' : List Assignment) (id root : ℕ) (supersedes : Option ℕ) (key allocation : ℕ)
    → insert_assignment rows id root supersedes key allocation ≡ ok rows'
    → revision_count rows root < max_assignment_revisions
unfolding insert_assignment
insert_assignment-below rows rows' id root supersedes key allocation e = ground (arith, e)

grown-Numbered :
    (rows : List Assignment) (a : Assignment) (k : ℕ)
    → a.revision ≡ revision_count rows a.root_task_id + 1
    → revision_count rows a.root_task_id < max_assignment_revisions
    → Numbered rows k
    → Numbered (rows ++ a ∷ []) k
grown-Numbered rows a k next below n = elim (Bool-cases (of_root k a)) [
  | inr other ↦
      let e : revisions (rows ++ a ∷ []) k ≡ revisions rows k ++ [] =
        ground (arith, other, revisions-append rows a k) in
      let f : revision_count (rows ++ a ∷ []) k ≡ revision_count rows k =
        ground (arith, other, count-append rows a k) in
      record {
        numbers = e ∙ append-nil (revisions rows k) ∙ n.numbers ∙ ap up_to (sym f);
        bound = omega (arith, f, n.bound);
      }
  | inl mine ↦
      let same : a.root_task_id ≡ k = (==_iff a.root_task_id k).0 mine in
      let count = ap (revision_count rows) same in
      let e : revisions (rows ++ a ∷ []) k ≡ revisions rows k ++ a.revision ∷ [] =
        ground (arith, mine, revisions-append rows a k) in
      let f : revision_count (rows ++ a ∷ []) k ≡ suc (revision_count rows k) =
        ground (arith, mine, count-append rows a k) in
      let r : a.revision ≡ suc (revision_count rows k) = omega (arith, next, count) in
      record {
        numbers =
            e
            ∙ ap (λ x. x ++ a.revision ∷ []) n.numbers
            ∙ ap (λ x. up_to (revision_count rows k) ++ x ∷ []) r
            ∙ ap up_to (sym f);
        bound = omega (arith, f, below, count);
      }
]

step-Numbered :
    (rows : List Assignment) (o : Op) (k : ℕ) → Numbered rows k → Numbered (step rows o) k
unfolding step set_assignment_state set_assignment_wait admit_assignment record_base
step-Numbered rows (inserts id root supersedes key allocation) k n =
    elim (Result-cases (insert_assignment rows id root supersedes key allocation)) [
      | inr (e, refused) ↦ rw refused n
      | inl (rows', done) ↦
          let grown = insert_assignment-grows rows rows' id root supersedes key allocation done in
          let below = insert_assignment-below rows rows' id root supersedes key allocation done in
          let row =
            new_assignment id root (revision_count rows root + 1) supersedes key allocation in
          rw done (subst (λ x. Numbered x k) grown (grown-Numbered rows row k refl below n))
    ]
step-Numbered rows (sets_state id state reason) k n = ground (
  arith,
  n,
  update-Numbered (has_assignment_id id) (λ a. record a { state = state; wait_reason = reason })
      rows k (λ a. refl) (λ a. refl) n,
)
step-Numbered rows (sets_wait id reason) k n =
    update-Numbered (is_proposed_row id) (λ a. record a { wait_reason = reason }) rows k (λ a. refl)
      (λ a. refl) n
step-Numbered rows (admits id child_task) k n = ground (
  arith,
  n,
  update-Numbered (is_admissible id) (admitted_row child_task) rows k (λ a. refl) (λ a. refl) n,
)
step-Numbered rows (records_base id base_commit base_tree) k n = ground (
  arith,
  n,
  update-Numbered (has_assignment_id id)
      (λ a. record a { base_commit = some base_commit; base_tree = some base_tree }) rows k
      (λ a. refl) (λ a. refl) n,
)

steps-Numbered :
    (rows : List Assignment) (os : List Op) (k : ℕ) → Numbered rows k → Numbered (steps rows os) k
unfolding steps
steps-Numbered rows [] k n = n
steps-Numbered rows (o ∷ os) k n = steps-Numbered (step rows o) os k (step-Numbered rows o k n)

-- After any sequence of calls, the assignments of each root are numbered 1, 2, 3 and so on in the
-- order of their insertion, and there are eight at most.
pub revisions-Numbered : (os : List Op) (root : ℕ) → Numbered (steps [] os) root
unfolding revisions revision_count
revisions-Numbered os root =
    steps-Numbered [] os root (record { numbers = refl; bound = omega arith })
