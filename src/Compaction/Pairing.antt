-- ===== src/Compaction/Pairing.antt =====
-- What an empty list of issues of packages/runtime/src/compaction.ts (`continuationIssues`) says of
-- the calls and results of a conversation.
use foundry_agent_workspace.Base.{
  ℕ, ◌+◌, ◌≤◌, ◌≡◌, refl, inl, inr, Bool, true, false, ◌||◌, List, [], ◌∷◌, ◌++◌, ◌==◌, arith,
  Bool-cases, bit,
}
use foundry_agent_workspace.Compaction.{ApiKind, Item, Continuation, has_id}
use foundry_agent_workspace.Compaction.Issues.{
  Issue, Scan, scan_item, scan, no_scan, first_issues, pending_issues, unanswered_issues,
  pairing_issues, is_fake, continuation_issues,
}
use foundry_agent_workspace.Compaction.Counting.{
  called, answers, times, calls_to, results_of_call, Counted, same-Counted,
}
use foundry_agent_workspace.Compaction.Scanning.{item-Scanned}

scan-issues :
    (kind : ApiKind) (s : Scan) (items : List Item)
    → (scan kind s items).issues ≡ []
    → s.issues ≡ []
unfolding scan
scan-issues kind s [] clean = clean
scan-issues kind s (item ∷ items) clean =
    (item-Scanned kind s item (λ k. 0) (λ k. 0)
      (scan-issues kind (scan_item kind s item) items clean)).clean_before

scan-Counted :
    (kind : ApiKind) (s : Scan) (items : List Item) (cs rs : ℕ → ℕ)
    → (scan kind s items).issues ≡ []
    → Counted s cs rs
    → Counted
        (scan kind s items)
        (λ k. cs k + calls_to kind k items)
        (λ k. rs k + results_of_call kind k items)
unfolding scan
scan-Counted kind s [] cs rs clean c =
    same-Counted s cs rs (λ k. cs k + 0) (λ k. rs k + 0) (λ k. omega arith) (λ k. omega arith) c
scan-Counted kind s (item ∷ items) cs rs clean c =
    let cs' : ℕ → ℕ = λ k. cs k + times k (called kind item) in
    let rs' : ℕ → ℕ = λ k. rs k + times k (answers kind item) in
    let next = scan_item kind s item in
    let now = (item-Scanned kind s item cs rs (scan-issues kind next items clean)).counted c in
    same-Counted (scan kind next items) (λ k. cs' k + calls_to kind k items)
      (λ k. rs' k + results_of_call kind k items) (λ k. cs k + calls_to kind k (item ∷ items))
      (λ k. rs k + results_of_call kind k (item ∷ items)) (λ k. omega arith) (λ k. omega arith)
      (scan-Counted kind next items cs' rs' clean now)

append-empty : (is js : List Issue) → is ++ js ≡ [] → (is ≡ []) × (js ≡ [])
append-empty [] js h = (refl, h)
append-empty (i ∷ is) js h = absurd (cc)

pending-open :
    (s : Scan) (ids : List ℕ) (id : ℕ)
    → pending_issues s ids ≡ []
    → has_id id ids ≡ true
    → (has_id id s.open_calls ≡ true) × (has_id id s.answered ≡ false)
unfolding pending_issues
pending-open s [] id clean h = absurd (cc)
pending-open s (k ∷ ids) id clean h = elim (Bool-cases (k == id)) [
  | inl same ↦ (ground (arith, clean, same), ground (arith, clean, same))
  | inr other ↦ pending-open s ids id (ground (arith, clean)) (ground (arith, h, other))
]

unanswered-pending :
    (s : Scan) (pending ids : List ℕ) (id : ℕ)
    → unanswered_issues s pending ids ≡ []
    → has_id id ids ≡ true
    → (has_id id s.answered || has_id id pending) ≡ true
unfolding unanswered_issues
unanswered-pending s pending [] id clean h = absurd (cc)
unanswered-pending s pending (k ∷ ids) id clean h = elim (Bool-cases (k == id)) [
  | inl same ↦ ground (arith, clean, same)
  | inr other ↦
      unanswered-pending s pending ids id (ground (arith, clean)) (ground (arith, h, other))
]

-- A continuation without issues pairs its calls: every id is called at most once, and the number of
-- times it is called is the number of its results, plus one exactly when it is a pending call.
pub valid_pairing :
    (fits_schema : Continuation → Bool) (c : Continuation) (id : ℕ)
    → is_fake c.api_kind ≡ false
    → continuation_issues fits_schema c ≡ []
    → (calls_to c.api_kind id c.items ≤ 1)
      × (calls_to c.api_kind id c.items
          ≡ results_of_call c.api_kind id c.items + bit (has_id id c.calls))
unfolding continuation_issues pairing_issues
valid_pairing fits_schema c id native clean =
    let s = scan c.api_kind no_scan c.items in
    let first = first_issues c.api_kind c.items in
    let open_issues = unanswered_issues s c.calls s.open_calls in
    let all : s.issues ++ first ++ pending_issues s c.calls ++ open_issues ≡ [] =
      ground (arith, clean, native) in
    let (early, closed) =
      append-empty (s.issues ++ first ++ pending_issues s c.calls) open_issues all in
    let (begun, pended) = append-empty (s.issues ++ first) (pending_issues s c.calls) early in
    let (scanned, started) = append-empty s.issues first begun in
    let none : Counted no_scan (λ k. 0) (λ k. 0) = record {
      opened = λ k. refl;
      closed = λ k. refl;
      ordered = λ k. omega arith;
    } in
    let counts = scan-Counted c.api_kind no_scan c.items (λ k. 0) (λ k. 0) scanned none in
    elim (Bool-cases (has_id id c.calls)) [
      | inl pending ↦
          let (opened, unanswered) = pending-open s c.calls id pended pending in
          (
            ground (arith, counts.opened id),
            ground (arith, counts.opened id, counts.closed id, opened, unanswered, pending),
          )
      | inr settled ↦ elim (Bool-cases (has_id id s.open_calls)) [
        | inl opened ↦
            let answered = unanswered-pending s c.calls s.open_calls id closed opened in
            (
              ground (arith, counts.opened id),
              ground (arith, counts.opened id, counts.closed id, opened, answered, settled),
            )
        | inr unopened ↦ (
          ground (arith, counts.opened id),
          ground (arith, counts.opened id, counts.ordered id, unopened, settled),
        )
      ]
    ]
