-- ===== src/Compaction/Counting.antt =====
-- The calls and results that the scan of packages/runtime/src/compaction.ts
-- (`continuationIssues`) has seen, by id, while there is no issue.
use foundry_agent_workspace.Base.{
  ℕ, ◌+◌, ◌≤◌, ◌≡◌, refl, ap, Bool, true, false, not, ◌||◌, List, [], ◌∷◌, ◌++◌, ◌==◌,
  if◌then◌else◌, arith, bit, ℕ_discrete,
}
use foundry_agent_workspace.Compaction.{
  ApiKind, fake, responses, chat_completions, anthropic, ItemType, function_call,
  function_call_output, Item, is_assistant, is_tool, has_id,
}
use foundry_agent_workspace.Compaction.Issues.{
  Issue, Scan, add, issue_if, call, result, calls_of, results_of, uses, results, blocks_of,
}

abbrev pub times : ℕ → List ℕ → ℕ
times id [] = 0
times id (k ∷ ks) = bit (k == id) + times id ks

abbrev pub is_call : ItemType → Bool
is_call function_call = true
is_call _ = false

abbrev pub is_output : ItemType → Bool
is_output function_call_output = true
is_output _ = false

-- The ids that an item calls, and those that it answers.
abbrev pub called : ApiKind → Item → List ℕ
called responses item = if is_call item.type then item.call_id ∷ [] else []
called chat_completions item = if is_assistant item.role then item.tool_calls else []
called anthropic item = if is_assistant item.role then uses (blocks_of item.content) else []
called fake item = []

abbrev pub answers : ApiKind → Item → List ℕ
answers responses item = if is_output item.type then item.call_id ∷ [] else []
answers chat_completions item =
    if is_assistant item.role then [] else if is_tool item.role then item.call_id ∷ [] else []
answers anthropic item = if is_assistant item.role then [] else results (blocks_of item.content)
answers fake item = []

abbrev pub calls_to : ApiKind → ℕ → List Item → ℕ
calls_to kind id [] = 0
calls_to kind id (item ∷ items) = times id (called kind item) + calls_to kind id items

abbrev pub results_of_call : ApiKind → ℕ → List Item → ℕ
results_of_call kind id [] = 0
results_of_call kind id (item ∷ items) =
    times id (answers kind item) + results_of_call kind id items

-- The scan after `cs` calls and `rs` results of each id.
pub record Counted (s : Scan) (cs rs : ℕ → ℕ) : Type 0 where
  pub opened : (id : ℕ) → bit (has_id id s.open_calls) ≡ cs id
  pub closed : (id : ℕ) → bit (has_id id s.answered) ≡ rs id
  pub ordered : (id : ℕ) → rs id ≤ cs id

pub has_id-snoc :
    (k id : ℕ) (ids : List ℕ) → has_id k (ids ++ id ∷ []) ≡ (has_id k ids || (id == k))
has_id-snoc k id [] = ground arith
has_id-snoc k id (j ∷ ids) = ground (arith, has_id-snoc k id ids)

pub has_id-add_new :
    (k id : ℕ) (ids : List ℕ)
    → has_id id ids ≡ false
    → bit (has_id k (add id ids)) ≡ bit (has_id k ids) + bit (id == k)
unfolding add
has_id-add_new k id ids absent = elim (ℕ_discrete id k) [
  | yes same ↦ ground (arith, absent, same, has_id-snoc k id ids, ap (λ j. has_id j ids) same)
  | no other ↦ ground (arith, absent, other, has_id-snoc k id ids)
]

pub issue_if-empty :
    (test : Bool) (i : Issue) (is : List Issue)
    → issue_if test i is ≡ []
    → (test ≡ false) × (is ≡ [])
issue_if-empty false i is h = (refl, h)
issue_if-empty true i [] h = absurd (cc)
issue_if-empty true i (j ∷ is) h = absurd (cc)

pub call-Counted :
    (s : Scan) (id : ℕ) (cs rs : ℕ → ℕ)
    → (call s id).issues ≡ []
    → Counted s cs rs
    → Counted (call s id) (λ k. cs k + bit (id == k)) rs
unfolding call
call-Counted s id cs rs clean c =
    let absent =
      (issue_if-empty (has_id id s.open_calls) (Issue.duplicate_call id) s.issues clean).0 in
    record {
      opened = λ k. omega (arith, c.opened k, has_id-add_new k id s.open_calls absent);
      closed = c.closed;
      ordered = λ k. omega (arith, c.ordered k);
    }

pub result-Counted :
    (s : Scan) (id : ℕ) (cs rs : ℕ → ℕ)
    → (result s id).issues ≡ []
    → Counted s cs rs
    → Counted (result s id) cs (λ k. rs k + bit (id == k))
unfolding result
result-Counted s id cs rs clean c =
    let again =
      issue_if-empty (has_id id s.answered) (Issue.duplicate_result id)
        (issue_if (not (has_id id s.open_calls)) (Issue.result_without_call id) s.issues) clean in
    let first =
      (issue_if-empty (not (has_id id s.open_calls)) (Issue.result_without_call id) s.issues
        again.1).0 in
    record {
      opened = c.opened;
      closed = λ k. omega (arith, c.closed k, has_id-add_new k id s.answered again.0);
      ordered = λ k. elim (ℕ_discrete id k) [
        | yes same ↦ ground (
          arith,
          same,
          again.0,
          first,
          c.opened id,
          c.closed id,
          c.ordered id,
          ap cs same,
          ap rs same,
        )
        | no other ↦ ground (arith, other, c.ordered k)
      ];
    }

pub same-Counted :
    (s : Scan) (cs rs cs' rs' : ℕ → ℕ)
    → ((k : ℕ) → cs k ≡ cs' k)
    → ((k : ℕ) → rs k ≡ rs' k)
    → Counted s cs rs
    → Counted s cs' rs'
same-Counted s cs rs cs' rs' e f c = record {
  opened = λ k. omega (arith, c.opened k, e k);
  closed = λ k. omega (arith, c.closed k, f k);
  ordered = λ k. omega (arith, c.ordered k, e k, f k);
}

pub call-issues : (s : Scan) (id : ℕ) → (call s id).issues ≡ [] → s.issues ≡ []
unfolding call
call-issues s id clean =
    (issue_if-empty (has_id id s.open_calls) (Issue.duplicate_call id) s.issues clean).1

pub result-issues : (s : Scan) (id : ℕ) → (result s id).issues ≡ [] → s.issues ≡ []
unfolding result
result-issues s id clean =
    let again =
      issue_if-empty (has_id id s.answered) (Issue.duplicate_result id)
        (issue_if (not (has_id id s.open_calls)) (Issue.result_without_call id) s.issues) clean in
    (issue_if-empty (not (has_id id s.open_calls)) (Issue.result_without_call id) s.issues
      again.1).1

pub calls_of-issues : (s : Scan) (ids : List ℕ) → (calls_of s ids).issues ≡ [] → s.issues ≡ []
unfolding calls_of
calls_of-issues s [] clean = clean
calls_of-issues s (id ∷ ids) clean = call-issues s id (calls_of-issues (call s id) ids clean)

pub results_of-issues : (s : Scan) (ids : List ℕ) → (results_of s ids).issues ≡ [] → s.issues ≡ []
unfolding results_of
results_of-issues s [] clean = clean
results_of-issues s (id ∷ ids) clean =
    result-issues s id (results_of-issues (result s id) ids clean)

pub calls_of-Counted :
    (s : Scan) (ids : List ℕ) (cs rs : ℕ → ℕ)
    → (calls_of s ids).issues ≡ []
    → Counted s cs rs
    → Counted (calls_of s ids) (λ k. cs k + times k ids) rs
unfolding calls_of
calls_of-Counted s [] cs rs clean c =
    same-Counted s cs rs (λ k. cs k + 0) rs (λ k. omega arith) (λ k. refl) c
calls_of-Counted s (id ∷ ids) cs rs clean c =
    same-Counted (calls_of (call s id) ids) (λ k. cs k + bit (id == k) + times k ids) rs
      (λ k. cs k + times k (id ∷ ids)) rs (λ k. omega arith) (λ k. refl)
      (calls_of-Counted (call s id) ids (λ k. cs k + bit (id == k)) rs clean
        (call-Counted s id cs rs (calls_of-issues (call s id) ids clean) c))

pub results_of-Counted :
    (s : Scan) (ids : List ℕ) (cs rs : ℕ → ℕ)
    → (results_of s ids).issues ≡ []
    → Counted s cs rs
    → Counted (results_of s ids) cs (λ k. rs k + times k ids)
unfolding results_of
results_of-Counted s [] cs rs clean c =
    same-Counted s cs rs cs (λ k. rs k + 0) (λ k. refl) (λ k. omega arith) c
results_of-Counted s (id ∷ ids) cs rs clean c =
    same-Counted (results_of (result s id) ids) cs (λ k. rs k + bit (id == k) + times k ids) cs
      (λ k. rs k + times k (id ∷ ids)) (λ k. refl) (λ k. omega arith)
      (results_of-Counted (result s id) ids cs (λ k. rs k + bit (id == k)) clean
        (result-Counted s id cs rs (results_of-issues (result s id) ids clean) c))

-- `lastAssistantCalls` is not counted.
pub last-Counted :
    (s : Scan) (last : List ℕ) (cs rs : ℕ → ℕ)
    → Counted s cs rs
    → Counted (record s { last_calls = last }) cs rs
last-Counted s last cs rs c = record { opened = c.opened; closed = c.closed; ordered = c.ordered }
