-- ===== src/Compaction/Issues.antt =====
-- `continuationIssues` of packages/runtime/src/compaction.ts: the pairing of calls and results.
use foundry_agent_workspace.Base.{
  ℕ, Bool, true, false, not, ◌&&◌, List, [], ◌∷◌, ◌++◌, if◌then◌else◌,
}
use foundry_agent_workspace.Compaction.{
  ApiKind, fake, responses, chat_completions, anthropic, function_call, function_call_output, Block,
  tool_use, tool_result, Content, blocks, Item, Continuation, is_user, is_assistant, is_tool,
  has_id,
}

pub data Issue : Type 0 where
  not_in_schema not_user_first : Issue
  duplicate_call result_without_call duplicate_result : (id : ℕ) → Issue
  pending_missing pending_answered pending_not_final unanswered : (id : ℕ) → Issue

-- `openCalls` (its keys in order), `answered`, `lastAssistantCalls` and `issues`.
pub record Scan : Type 0 where
  pub open_calls : List ℕ
  pub answered : List ℕ
  pub last_calls : List ℕ
  pub issues : List Issue

-- `set(id, index)` and `add(id)`: an id that is there stays where it is.
unfoldable pub add : ℕ → List ℕ → List ℕ
add id ids = if has_id id ids then ids else ids ++ id ∷ []

abbrev pub issue_if : Bool → Issue → List Issue → List Issue
issue_if test i is = if test then is ++ i ∷ [] else is

-- A call: also the last of `lastAssistantCalls`.
unfoldable pub call : Scan → ℕ → Scan
call s id = record s {
  open_calls = add id s.open_calls;
  last_calls = s.last_calls ++ id ∷ [];
  issues = issue_if (has_id id s.open_calls) (duplicate_call id) s.issues;
}

unfoldable pub result : Scan → ℕ → Scan
result s id = record s {
  answered = add id s.answered;
  issues =
      issue_if (has_id id s.answered) (duplicate_result id)
        (issue_if (not (has_id id s.open_calls)) (result_without_call id) s.issues);
}

abbrev pub forget_last : Scan → Scan
forget_last s = record s { last_calls = [] }

unfoldable pub calls_of : Scan → List ℕ → Scan
calls_of s [] = s
calls_of s (id ∷ ids) = calls_of (call s id) ids

unfoldable pub results_of : Scan → List ℕ → Scan
results_of s [] = s
results_of s (id ∷ ids) = results_of (result s id) ids

unfoldable pub scan_responses : Scan → Item → Scan
scan_responses s item = elim item.type [
  | function_call ↦ call s item.call_id
  | function_call_output ↦ forget_last (result s item.call_id)
  | _ ↦ if is_user item.role then forget_last s else s
]

unfoldable pub scan_chat : Scan → Item → Scan
scan_chat s item =
    if is_assistant item.role
    then calls_of (forget_last s) item.tool_calls
    else if is_tool item.role
    then result s item.call_id
    else if is_user item.role
    then forget_last s
    else s

unfoldable pub uses : List Block → List ℕ
uses [] = []
uses (tool_use id ∷ bs) = id ∷ uses bs
uses (_ ∷ bs) = uses bs

unfoldable pub results : List Block → List ℕ
results [] = []
results (tool_result id ∷ bs) = id ∷ results bs
results (_ ∷ bs) = results bs

abbrev pub blocks_of : Content → List Block
blocks_of (blocks bs) = bs
blocks_of _ = []

abbrev pub is_empty : List ℕ → Bool
is_empty [] = true
is_empty (id ∷ ids) = false

unfoldable pub scan_anthropic : Scan → Item → Scan
scan_anthropic s item =
    let ids = results (blocks_of item.content) in
    if is_assistant item.role
    then calls_of (forget_last s) (uses (blocks_of item.content))
    else if is_empty ids
    then forget_last s
    else results_of s ids

abbrev pub scan_item : ApiKind → Scan → Item → Scan
scan_item responses s item = scan_responses s item
scan_item chat_completions s item = scan_chat s item
scan_item anthropic s item = scan_anthropic s item
scan_item fake s item = s

unfoldable pub scan : ApiKind → Scan → List Item → Scan
scan kind s [] = s
scan kind s (item ∷ items) = scan kind (scan_item kind s item) items

abbrev pub no_scan : Scan
no_scan = record { open_calls = []; answered = []; last_calls = []; issues = [] }

unfoldable pub first_issues : ApiKind → List Item → List Issue
first_issues anthropic (item ∷ items) = if is_user item.role then [] else not_user_first ∷ []
first_issues _ items = []

unfoldable pub pending_issues : Scan → List ℕ → List Issue
pending_issues s [] = []
pending_issues s (id ∷ ids) =
    let rest = pending_issues s ids in
    if not (has_id id s.open_calls)
    then pending_missing id ∷ rest
    else if has_id id s.answered
    then pending_answered id ∷ rest
    else if not (has_id id s.last_calls)
    then pending_not_final id ∷ rest
    else rest

unfoldable pub unanswered_issues : Scan → List ℕ → List ℕ → List Issue
unanswered_issues s pending [] = []
unanswered_issues s pending (id ∷ ids) =
    let rest = unanswered_issues s pending ids in
    if not (has_id id s.answered) && not (has_id id pending) then unanswered id ∷ rest else rest

unfoldable pub pairing_issues : Continuation → List Issue
pairing_issues c =
    let s = scan c.api_kind no_scan c.items in
    s.issues
    ++ first_issues c.api_kind c.items
    ++ pending_issues s c.calls
    ++ unanswered_issues s c.calls s.open_calls

abbrev pub is_fake : ApiKind → Bool
is_fake fake = true
is_fake _ = false

unfoldable pub continuation_issues : (Continuation → Bool) → Continuation → List Issue
continuation_issues fits_schema c =
    if not (fits_schema c)
    then not_in_schema ∷ []
    else if is_fake c.api_kind
    then []
    else pairing_issues c
