-- ===== src/Assignments/Tests.antt =====
-- Two revisions of an assignment through the methods of
-- packages/runtime/src/orchestration-records.ts.
use foundry_agent_workspace.Base.{◌≡◌, refl, none, some, List, [], ◌∷◌, ok, err}
use foundry_agent_workspace.Assignments.{
  Assignment, integrated, failed, revision_count, assignment, supersedes_ok, new_assignment,
  insert_assignment, set_assignment_state, set_assignment_wait, admitted_row, admit_assignment,
  record_base, constraint, not_waiting_for_admission,
}
use foundry_agent_workspace.Assignments.Finality.{
  Op, inserts, sets_state, admits, step, steps, Later, assignment-Later,
}
use foundry_agent_workspace.Assignments.Revisions.{revisions, Numbered, revisions-Numbered}

assignments : Unit {0}
unfolding revision_count assignment supersedes_ok insert_assignment set_assignment_state
    set_assignment_wait admit_assignment record_base step steps revisions
assignments = tt

abbrev first : Assignment
first = new_assignment 1 10 1 none 7 500

abbrev second : Assignment
second = new_assignment 2 10 2 (some 1) 7 400

abbrev merged : Assignment
merged = record (admitted_row 30 first) { state = integrated }

abbrev revised : List Op
revised = inserts 1 10 none 7 500 ∷ inserts 2 10 (some 1) 7 400 ∷ []

scenario :
    (steps [] revised ≡ first ∷ second ∷ [])
    × (insert_assignment (first ∷ []) 2 11 (some 1) 7 400 ≡ err constraint)
    × (admit_assignment (first ∷ second ∷ []) 1 30 ≡ ok (admitted_row 30 first ∷ second ∷ []))
    × (admit_assignment (admitted_row 30 first ∷ second ∷ []) 1 31 ≡ err not_waiting_for_admission)
    × (admit_assignment (admitted_row 30 first ∷ second ∷ []) 2 30 ≡ err constraint)
    × (set_assignment_state (merged ∷ []) 1 failed none ≡ err constraint)
unfolding assignments
scenario = (refl, refl, refl, refl, refl, refl)

revisions-Numbered_example : Numbered (first ∷ second ∷ []) 10
unfolding assignments
revisions-Numbered_example = revisions-Numbered revised 10

assignment-Later_example : Later (merged ∷ []) 1 merged
unfolding assignments
assignment-Later_example =
    assignment-Later (merged ∷ []) (sets_state 1 failed none ∷ admits 1 31 ∷ []) 1 merged refl
