-- ===== src/Assignments/Finality.antt =====
-- What any sequence of calls of the assignments methods of
-- packages/runtime/src/orchestration-records.ts keeps of an assignment.
use foundry_agent_workspace.Base.{
  ℕ, ◌+◌, ◌≡◌, refl, sym, subst, ap, ◌∙◌, inl, inr, Bool, true, false, Option, some, List, [], ◌∷◌,
  ◌++◌, arith, Bool-cases, Result-cases, Result, ok, err, find, any, update, find-append,
}
use foundry_agent_workspace.Runs.{WaitReason}
use foundry_agent_workspace.Assignments.{
  AssignmentState, Assignment, AssignmentError, has_assignment_id, assignment, insert_assignment,
  is_final, same_state, is_stuck, set_assignment_state, is_none, holds_value, is_proposed_row,
  set_assignment_wait, is_admissible, admitted_row, admit_assignment, is_rebased, record_base,
  new_assignment, revision_count,
}

pub data Op : Type 0 where
  inserts : (id root : ℕ) (supersedes : Option ℕ) (key allocation : ℕ) → Op
  sets_state : (id : ℕ) → AssignmentState → Option WaitReason → Op
  sets_wait : (id : ℕ) → Option WaitReason → Op
  admits : (id child_task : ℕ) → Op
  records_base : (id base_commit base_tree : ℕ) → Op

abbrev pub after : List Assignment → Result AssignmentError (List Assignment) → List Assignment
after rows (ok rows') = rows'
after rows (err e) = rows

unfoldable pub step : List Assignment → Op → List Assignment
step rows (inserts id root supersedes key allocation) =
    after rows (insert_assignment rows id root supersedes key allocation)
step rows (sets_state id state reason) = after rows (set_assignment_state rows id state reason)
step rows (sets_wait id reason) = set_assignment_wait rows id reason
step rows (admits id child_task) = after rows (admit_assignment rows id child_task)
step rows (records_base id base_commit base_tree) =
    after rows (record_base rows id base_commit base_tree)

unfoldable pub steps : List Assignment → List Op → List Assignment
steps rows [] = rows
steps rows (o ∷ os) = steps (step rows o) os

-- The later row of an assignment: what is recorded once stays, and a final state too.
pub record Follows (a a' : Assignment) : Type 0 where
  pub same_root : a'.root_task_id ≡ a.root_task_id
  pub same_revision : a'.revision ≡ a.revision
  pub same_supersedes : a'.supersedes_id ≡ a.supersedes_id
  pub same_allocation : a'.allocation ≡ a.allocation
  pub child_once : is_none a.child_task_id ≡ false → a'.child_task_id ≡ a.child_task_id
  pub commit_once : is_none a.base_commit ≡ false → a'.base_commit ≡ a.base_commit
  pub tree_once : is_none a.base_tree ≡ false → a'.base_tree ≡ a.base_tree
  pub final_state : is_final a.state ≡ true → a'.state ≡ a.state

Follows-refl : (a : Assignment) → Follows a a
Follows-refl a = record {
  same_root = refl;
  same_revision = refl;
  same_supersedes = refl;
  same_allocation = refl;
  child_once = λ h. refl;
  commit_once = λ h. refl;
  tree_once = λ h. refl;
  final_state = λ h. refl;
}

Follows-trans : (a b c : Assignment) → Follows a b → Follows b c → Follows a c
Follows-trans a b c f g = record {
  same_root = g.same_root ∙ f.same_root;
  same_revision = g.same_revision ∙ f.same_revision;
  same_supersedes = g.same_supersedes ∙ f.same_supersedes;
  same_allocation = g.same_allocation ∙ f.same_allocation;
  child_once = λ h. g.child_once (ap is_none (f.child_once h) ∙ h) ∙ f.child_once h;
  commit_once = λ h. g.commit_once (ap is_none (f.commit_once h) ∙ h) ∙ f.commit_once h;
  tree_once = λ h. g.tree_once (ap is_none (f.tree_once h) ∙ h) ∙ f.tree_once h;
  final_state = λ h. g.final_state (ap is_final (f.final_state h) ∙ h) ∙ f.final_state h;
}

-- The row of an id after the calls, and what became of it.
abbrev pub Later : List Assignment → ℕ → Assignment → Type 0
Later rows id a = (a' : Assignment) × (assignment rows id ≡ some a') × Follows a a'

update-Later :
    (rows : List Assignment) (q : Assignment → Bool) (g : Assignment → Assignment) (id : ℕ)
    (a : Assignment)
    → ((x : Assignment) → (g x).id ≡ x.id)
    → (q a ≡ true → Follows a (g a))
    → assignment rows id ≡ some a
    → Later (update q g rows) id a
unfolding assignment
update-Later [] q g id a same f found = absurd (cc)
update-Later (x ∷ rows) q g id a same f found = elim (Bool-cases (has_assignment_id id x)) [
  | inr miss ↦
      let (a', e, follows) = update-Later rows q g id a same f (ground (arith, found, miss)) in
      (a', ground (arith, miss, same x, e), follows)
  | inl hit ↦
      let own : x ≡ a = ground (arith, found, hit) in
      elim (Bool-cases (q x)) [
        | inl changed ↦ (
          g x,
          ground (arith, hit, changed, same x),
          subst (λ y. Follows a (g y)) (sym own) (f (subst (λ y. q y ≡ true) own changed)),
        )
        | inr kept ↦ (x, ground (arith, hit, kept), subst (Follows a) (sym own) (Follows-refl a))
      ]
]

any-find :
    (p q : Assignment → Bool) (rows : List Assignment) (a : Assignment)
    → any q rows ≡ false
    → find p rows ≡ some a
    → q a ≡ false
any-find p q [] a h found = absurd (cc)
any-find p q (x ∷ rows) a h found = elim (Bool-cases (p x)) [
  | inl hit ↦
      let own : x ≡ a = ground (arith, found, hit) in
      let off : q x ≡ false = ground (arith, h) in subst (λ y. q y ≡ false) own off
  | inr miss ↦ any-find p q rows a (ground (arith, h)) (ground (arith, found, miss))
]

number-state : (s t : AssignmentState) → same_state s t ≡ true → s ≡ t
number-state s t h = ground (arith, h)

holds-some : (o : Option ℕ) (n : ℕ) → holds_value o n ≡ true → some n ≡ o
holds-some o n h = ground (arith, h)

state-Follows :
    (a : Assignment) (id : ℕ) (state : AssignmentState) (reason : Option WaitReason)
    → is_stuck id state a ≡ false
    → has_assignment_id id a ≡ true
    → Follows a (record a { state = state; wait_reason = reason })
state-Follows a id state reason free mine = record {
  same_root = refl;
  same_revision = refl;
  same_supersedes = refl;
  same_allocation = refl;
  child_once = λ h. refl;
  commit_once = λ h. refl;
  tree_once = λ h. refl;
  final_state = λ h. number-state state a.state (ground (arith, free, mine, h));
}

admitted-Follows :
    (a : Assignment) (id child_task : ℕ)
    → is_admissible id a ≡ true
    → Follows a (admitted_row child_task a)
admitted-Follows a id child_task open_row = record {
  same_root = refl;
  same_revision = refl;
  same_supersedes = refl;
  same_allocation = refl;
  child_once = λ h. absurd (ground (arith, open_row, h));
  commit_once = λ h. refl;
  tree_once = λ h. refl;
  final_state = λ h. absurd (ground (arith, open_row, h));
}

based-Follows :
    (a : Assignment) (id base_commit base_tree : ℕ)
    → is_rebased id base_commit base_tree a ≡ false
    → has_assignment_id id a ≡ true
    → Follows a (record a { base_commit = some base_commit; base_tree = some base_tree })
based-Follows a id base_commit base_tree free mine = record {
  same_root = refl;
  same_revision = refl;
  same_supersedes = refl;
  same_allocation = refl;
  child_once = λ h. refl;
  commit_once = λ h. holds-some a.base_commit base_commit (ground (arith, free, mine, h));
  tree_once = λ h. holds-some a.base_tree base_tree (ground (arith, free, mine, h));
  final_state = λ h. refl;
}

waits-Follows :
    (a : Assignment) (reason : Option WaitReason) → Follows a (record a { wait_reason = reason })
waits-Follows a reason = record {
  same_root = refl;
  same_revision = refl;
  same_supersedes = refl;
  same_allocation = refl;
  child_once = λ h. refl;
  commit_once = λ h. refl;
  tree_once = λ h. refl;
  final_state = λ h. refl;
}

pub insert_assignment-grows :
    (rows rows' : List Assignment) (id root : ℕ) (supersedes : Option ℕ) (key allocation : ℕ)
    → insert_assignment rows id root supersedes key allocation ≡ ok rows'
    → rows ++ new_assignment id root (revision_count rows root + 1) supersedes key allocation ∷ []
      ≡ rows'
unfolding insert_assignment
insert_assignment-grows rows rows' id root supersedes key allocation e = ground (arith, e)

step-Later :
    (rows : List Assignment) (o : Op) (id : ℕ) (a : Assignment)
    → assignment rows id ≡ some a
    → Later (step rows o) id a
unfolding step set_assignment_state set_assignment_wait admit_assignment record_base
step-Later rows (inserts k root supersedes key allocation) id a found =
    elim (Result-cases (insert_assignment rows k root supersedes key allocation)) [
      | inr (e, refused) ↦ rw refused (a, found, Follows-refl a)
      | inl (rows', done) ↦
          let grown = insert_assignment-grows rows rows' k root supersedes key allocation done in
          let row =
            new_assignment k root (revision_count rows root + 1) supersedes key allocation in
          let there : assignment (rows ++ row ∷ []) id ≡ some a =
            unfold assignment in find-append (has_assignment_id id) rows (row ∷ []) a found in
          rw done (subst (λ x. Later x id a) grown (a, there, Follows-refl a))
    ]
step-Later rows (sets_state k state reason) id a found =
    elim (Bool-cases (any (is_stuck k state) rows)) [
      | inl stuck ↦ rw (stuck, after) (a, found, Follows-refl a)
      | inr free ↦
          let own : is_stuck k state a ≡ false =
            unfold assignment in
            any-find (has_assignment_id id) (is_stuck k state) rows a free found in
          rw (free, after)
            (update-Later rows (has_assignment_id k)
              (λ x. record x { state = state; wait_reason = reason }) id a (λ x. refl)
              (state-Follows a k state reason own) found)
    ]
step-Later rows (sets_wait k reason) id a found =
    update-Later rows (is_proposed_row k) (λ x. record x { wait_reason = reason }) id a (λ x. refl)
      (λ h. waits-Follows a reason) found
step-Later rows (admits k child_task) id a found =
    elim (Result-cases (admit_assignment rows k child_task)) [
      | inr (e, refused) ↦
          subst (λ x. Later x id a) (ground (arith, refused)) (a, found, Follows-refl a)
      | inl (rows', done) ↦
          let to : update (is_admissible k) (admitted_row child_task) rows ≡ rows' =
            ground (arith, done) in
          subst (λ x. Later x id a) (ground (arith, done, to))
            (update-Later rows (is_admissible k) (admitted_row child_task) id a (λ x. refl)
              (admitted-Follows a k child_task) found)
    ]
step-Later rows (records_base k base_commit base_tree) id a found =
    elim (Bool-cases (any (is_rebased k base_commit base_tree) rows)) [
      | inl stuck ↦ rw (stuck, after) (a, found, Follows-refl a)
      | inr free ↦
          let own : is_rebased k base_commit base_tree a ≡ false =
            unfold assignment in
            any-find (has_assignment_id id) (is_rebased k base_commit base_tree) rows a free
              found in
          rw (free, after)
            (update-Later rows (has_assignment_id k)
              (λ x. record x { base_commit = some base_commit; base_tree = some base_tree }) id a
              (λ x. refl) (based-Follows a k base_commit base_tree own) found)
    ]

-- Whatever calls follow, an assignment is still there with the same root, revision, predecessor
-- revision and allocation; its child and its base, once recorded, do not change, and neither does a
-- final state.
pub assignment-Later :
    (rows : List Assignment) (os : List Op) (id : ℕ) (a : Assignment)
    → assignment rows id ≡ some a
    → Later (steps rows os) id a
unfolding steps
assignment-Later rows [] id a found = (a, found, Follows-refl a)
assignment-Later rows (o ∷ os) id a found =
    let (b, there, f) = step-Later rows o id a found in
    let (c, later, g) = assignment-Later (step rows o) os id b there in
    (c, later, Follows-trans a b c f g)
