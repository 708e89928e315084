-- ===== src/Compaction/Scanning.antt =====
-- One item of a conversation in the scan of packages/runtime/src/compaction.ts
-- (`continuationIssues`): what it does to the calls and results counted.
use foundry_agent_workspace.Base.{
  ℕ, ◌+◌, ◌≡◌, refl, sym, subst, ap, inl, inr, Bool, true, false, List, [], ◌∷◌, ◌==◌,
  if◌then◌else◌, arith, Bool-cases, bit,
}
use foundry_agent_workspace.Compaction.{
  ApiKind, fake, responses, chat_completions, anthropic, Item, is_user, is_assistant, is_tool,
}
use foundry_agent_workspace.Compaction.Issues.{
  Scan, call, result, forget_last, calls_of, results_of, scan_responses, scan_chat, uses, results,
  blocks_of, is_empty, scan_anthropic, scan_item,
}
use foundry_agent_workspace.Compaction.Counting.{
  Counted, answers, call-Counted, call-issues, called, calls_of-Counted, calls_of-issues, is_call,
  is_output, last-Counted, result-Counted, result-issues, results_of-Counted, results_of-issues,
  same-Counted, times,
}

-- One item of any kind: its calls and its results.
pub record Scanned (kind : ApiKind) (s : Scan) (item : Item) (cs rs : ℕ → ℕ) : Type 0 where
  pub clean_before : s.issues ≡ []
  pub counted :
      Counted s cs rs
      → Counted
          (scan_item kind s item)
          (λ k. cs k + times k (called kind item))
          (λ k. rs k + times k (answers kind item))

unchanged-Counted :
    (s : Scan) (cs rs : ℕ → ℕ) → Counted s cs rs → Counted s (λ k. cs k + 0) (λ k. rs k + 0)
unchanged-Counted s cs rs c =
    same-Counted s cs rs (λ k. cs k + 0) (λ k. rs k + 0) (λ k. omega arith) (λ k. omega arith) c

one-times : (id k : ℕ) → times k (id ∷ []) ≡ bit (id == k)
one-times id k = omega arith

-- An item that scans to `s'`, with calls and results given by pointwise equations.
scanned :
    (kind : ApiKind) (s s' : Scan) (item : Item) (cs rs cs' rs' : ℕ → ℕ)
    → scan_item kind s item ≡ s'
    → s.issues ≡ []
    → ((k : ℕ) → cs' k ≡ cs k + times k (called kind item))
    → ((k : ℕ) → rs' k ≡ rs k + times k (answers kind item))
    → (Counted s cs rs → Counted s' cs' rs')
    → Scanned kind s item cs rs
scanned kind s s' item cs rs cs' rs' to clean e f keep = record {
  clean_before = clean;
  counted = λ c.
      subst
        (λ x.
          Counted x (λ k. cs k + times k (called kind item))
            (λ k. rs k + times k (answers kind item)))
        (sym to)
        (same-Counted s' cs' rs' (λ k. cs k + times k (called kind item))
          (λ k. rs k + times k (answers kind item)) e f (keep c));
}

-- An item with neither calls nor results.
quiet :
    (kind : ApiKind) (b : Bool) (s : Scan) (item : Item) (cs rs : ℕ → ℕ)
    → scan_item kind s item ≡ (if b then forget_last s else s)
    → (if b then forget_last s else s).issues ≡ []
    → ((k : ℕ) → times k (called kind item) ≡ 0)
    → ((k : ℕ) → times k (answers kind item) ≡ 0)
    → Scanned kind s item cs rs
quiet kind true s item cs rs to clean e f =
    scanned kind s (forget_last s) item cs rs cs rs to clean (λ k. omega (arith, e k))
      (λ k. omega (arith, f k)) (last-Counted s [] cs rs)
quiet kind false s item cs rs to clean e f =
    scanned kind s s item cs rs cs rs to clean (λ k. omega (arith, e k)) (λ k. omega (arith, f k))
      (λ c. c)

responses-Scanned :
    (s : Scan) (item : Item) (cs rs : ℕ → ℕ)
    → (scan_responses s item).issues ≡ []
    → Scanned responses s item cs rs
unfolding scan_responses
responses-Scanned s item cs rs clean = elim (Bool-cases (is_call item.type)) [
  | inl hit ↦
      let to : scan_responses s item ≡ call s item.call_id = ground (arith, hit) in
      let fine : (call s item.call_id).issues ≡ [] = cc (to, clean) in
      scanned responses s (call s item.call_id) item cs rs (λ k. cs k + bit (item.call_id == k)) rs
        to (call-issues s item.call_id fine) (λ k. ground (arith, hit)) (λ k. ground (arith, hit))
        (call-Counted s item.call_id cs rs fine)
  | inr not_call ↦ elim (Bool-cases (is_output item.type)) [
    | inl hit ↦
        let to : scan_responses s item ≡ forget_last (result s item.call_id) =
          ground (arith, hit) in
        let fine : (result s item.call_id).issues ≡ [] = cc (ap (λ x. x.issues) to, clean) in
        scanned responses s (forget_last (result s item.call_id)) item cs rs cs
          (λ k. rs k + bit (item.call_id == k)) to (result-issues s item.call_id fine)
          (λ k. ground (arith, hit)) (λ k. ground (arith, hit))
          (λ c.
            last-Counted (result s item.call_id) [] cs (λ k. rs k + bit (item.call_id == k))
              (result-Counted s item.call_id cs rs fine c))
    | inr not_output ↦
        let to : scan_responses s item ≡ (if is_user item.role then forget_last s else s) =
          ground (arith, not_call, not_output) in
        quiet responses (is_user item.role) s item cs rs to (cc (ap (λ x. x.issues) to, clean))
          (λ k. ground (arith, not_call)) (λ k. ground (arith, not_output))
  ]
]

chat-Scanned :
    (s : Scan) (item : Item) (cs rs : ℕ → ℕ)
    → (scan_chat s item).issues ≡ []
    → Scanned chat_completions s item cs rs
unfolding scan_chat
chat-Scanned s item cs rs clean = elim (Bool-cases (is_assistant item.role)) [
  | inl hit ↦
      let to : scan_chat s item ≡ calls_of (forget_last s) item.tool_calls = ground (arith, hit) in
      let fine : (calls_of (forget_last s) item.tool_calls).issues ≡ [] =
        cc (ap (λ x. x.issues) to, clean) in
      scanned chat_completions s (calls_of (forget_last s) item.tool_calls) item cs rs
        (λ k. cs k + times k item.tool_calls) rs to
        (calls_of-issues (forget_last s) item.tool_calls fine) (λ k. ground (arith, hit))
        (λ k. ground (arith, hit))
        (λ c.
          calls_of-Counted (forget_last s) item.tool_calls cs rs fine (last-Counted s [] cs rs c))
  | inr not_call ↦ elim (Bool-cases (is_tool item.role)) [
    | inl hit ↦
        let to : scan_chat s item ≡ result s item.call_id = ground (arith, not_call, hit) in
        let fine : (result s item.call_id).issues ≡ [] = cc (ap (λ x. x.issues) to, clean) in
        scanned chat_completions s (result s item.call_id) item cs rs cs
          (λ k. rs k + bit (item.call_id == k)) to (result-issues s item.call_id fine)
          (λ k. ground (arith, not_call)) (λ k. ground (arith, not_call, hit))
          (result-Counted s item.call_id cs rs fine)
    | inr not_output ↦
        let to : scan_chat s item ≡ (if is_user item.role then forget_last s else s) =
          ground (arith, not_call, not_output) in
        quiet chat_completions (is_user item.role) s item cs rs to
          (cc (ap (λ x. x.issues) to, clean)) (λ k. ground (arith, not_call))
          (λ k. ground (arith, not_call, not_output))
  ]
]

anthropic-Scanned :
    (s : Scan) (item : Item) (cs rs : ℕ → ℕ)
    → (scan_anthropic s item).issues ≡ []
    → Scanned anthropic s item cs rs
unfolding scan_anthropic
anthropic-Scanned s item cs rs clean = elim (Bool-cases (is_assistant item.role)) [
  | inl hit ↦
      let ids = uses (blocks_of item.content) in
      let to : scan_anthropic s item ≡ calls_of (forget_last s) ids = ground (arith, hit) in
      let fine : (calls_of (forget_last s) ids).issues ≡ [] = cc (ap (λ x. x.issues) to, clean) in
      scanned anthropic s (calls_of (forget_last s) ids) item cs rs (λ k. cs k + times k ids) rs to
        (calls_of-issues (forget_last s) ids fine) (λ k. ground (arith, hit))
        (λ k. ground (arith, hit))
        (λ c. calls_of-Counted (forget_last s) ids cs rs fine (last-Counted s [] cs rs c))
  | inr not_call ↦
      let ids = results (blocks_of item.content) in
      elim (Bool-cases (is_empty ids)) [
        | inr some_result ↦
            let to : scan_anthropic s item ≡ results_of s ids =
              ground (arith, not_call, some_result) in
            let fine : (results_of s ids).issues ≡ [] = cc (ap (λ x. x.issues) to, clean) in
            scanned anthropic s (results_of s ids) item cs rs cs (λ k. rs k + times k ids) to
              (results_of-issues s ids fine) (λ k. ground (arith, not_call))
              (λ k. ground (arith, not_call)) (results_of-Counted s ids cs rs fine)
        | inl no_result ↦
            let to : scan_anthropic s item ≡ (if true then forget_last s else s) =
              ground (arith, not_call, no_result) in
            quiet anthropic true s item cs rs to (cc (ap (λ x. x.issues) to, clean))
              (λ k. ground (arith, not_call))
              (λ k. ground (arith, not_call, no_times k ids no_result))
      ]
]
  where
    no_times : (k : ℕ) (ids : List ℕ) → is_empty ids ≡ true → times k ids ≡ 0
    no_times k [] h = refl
    no_times k (id ∷ ids) h = absurd (cc)

pub item-Scanned :
    (kind : ApiKind) (s : Scan) (item : Item) (cs rs : ℕ → ℕ)
    → (scan_item kind s item).issues ≡ []
    → Scanned kind s item cs rs
item-Scanned responses s item cs rs clean = responses-Scanned s item cs rs clean
item-Scanned chat_completions s item cs rs clean = chat-Scanned s item cs rs clean
item-Scanned anthropic s item cs rs clean = anthropic-Scanned s item cs rs clean
item-Scanned fake s item cs rs clean =
    quiet fake false s item cs rs refl clean (λ k. refl) (λ k. refl)
