-- ===== src/Compaction/Retention.antt =====
-- What `compactContinuation` of packages/runtime/src/compaction.ts keeps of a continuation.
use foundry_agent_workspace.Base.{
  ℕ, zero, suc, ◌+◌, ◌-◌, ◌≤◌, ◌≡◌, refl, sym, ap, subst, inl, inr, Bool, true, false, List, [],
  ◌∷◌, leb, max, arith, Bool-cases, ok, length, filter, length-append, length-filter-le, All,
  All-append, Text, take, drop,
}
use foundry_agent_workspace.Compaction.{
  ApiKind, Item, Continuation, is_system_item, is_user_boundary,
}
use foundry_agent_workspace.Compaction.Issues.{Issue, continuation_issues, is_fake}
use foundry_agent_workspace.Compaction.Kept.{Replaced, cut_at-Replaced}
use foundry_agent_workspace.Compaction.Cuts.{
  summary_item, full_summary, prior_summaries, reversed, boundaries, candidates, systems, cut_at,
  Compacted, no_issues, try_cuts, compact_valid, compact_continuation,
}

-- How many user turns there are.
abbrev pub turns : ApiKind → List Item → ℕ
turns kind items = length (filter (is_user_boundary kind) items)

-- A cut, counted from `base`, among the first `n` boundaries of the items.
pub record Early (kind : ApiKind) (n base : ℕ) (items : List Item) (cut : ℕ) : Type 0 where
  pub from : base ≤ cut
  pub within : cut ≤ base + length items
  pub left_over : turns kind items + 1 ≤ n + turns kind (drop (cut - base) items)

All-weaken {ℓ} :
    {A : Type ℓ} {P Q : A → Type 0} (xs : List A) → ((x : A) → P x → Q x) → All P xs → All Q xs
All-weaken [] f h = tt
All-weaken (x ∷ xs) f h = (f x h.0, All-weaken xs f h.1)

drop-suc :
    (base cut : ℕ) (item : Item) (items : List Item)
    → suc base ≤ cut
    → drop (cut - base) (item ∷ items) ≡ drop (cut - suc base) items
unfolding drop
drop-suc base cut item items h =
    let e : cut - base ≡ suc (cut - suc base) = omega arith in ap (λ k. drop k (item ∷ items)) e

later-Early :
    (kind : ApiKind) (n m base : ℕ) (item : Item) (items : List Item) (cut : ℕ)
    → turns kind (item ∷ items) + n ≤ turns kind items + m
    → Early kind n (suc base) items cut
    → Early kind m base (item ∷ items) cut
later-Early kind n m base item items cut fewer e = record {
  from = omega (arith, e.from);
  within = omega (arith, e.within);
  left_over =
      omega (arith, fewer, e.left_over, ap (turns kind) (drop-suc base cut item items e.from));
}

take-Early :
    (kind : ApiKind) (n base : ℕ) (items : List Item)
    → All (Early kind n base items) (take n (boundaries kind base items))
unfolding take boundaries drop
take-Early kind n base [] = tt
take-Early kind n base (item ∷ items) = elim (Bool-cases (is_user_boundary kind item)) [
  | inr other ↦ rw other (
      All-weaken (take n (boundaries kind (suc base) items))
        (λ cut e. later-Early kind n n base item items cut (ground (arith, other)) e)
        (take-Early kind n (suc base) items))
  | inl turn ↦ rw turn (go n turn (λ m. take-Early kind m (suc base) items))
]
  where
    go :
        (m : ℕ)
        → is_user_boundary kind item ≡ true
        → ((k : ℕ)
            → All (Early kind k (suc base) items) (take k (boundaries kind (suc base) items)))
        → All (Early kind m base (item ∷ items)) (take m (base ∷ boundaries kind (suc base) items))
    go zero turn rest = tt
    go (suc m) turn rest = (
      record {
        from = omega arith;
        within = omega arith;
        left_over =
            let e : base - base ≡ 0 = omega arith in
            omega (arith, ap (λ k. turns kind (drop k (item ∷ items))) e);
      },
      All-weaken (take m (boundaries kind (suc base) items))
          (λ cut e. later-Early kind m (suc m) base item items cut (ground (arith, turn)) e)
          (rest m),
    )

All-drop {ℓ} : {A : Type ℓ} (P : A → Type 0) (n : ℕ) (xs : List A) → All P xs → All P (drop n xs)
unfolding drop
All-drop P n [] h = tt
All-drop P zero (x ∷ xs) h = h
All-drop P (suc n) (x ∷ xs) h = All-drop P n xs h.1

All-reversed {ℓ} : {A : Type ℓ} (P : A → Type 0) (xs : List A) → All P xs → All P (reversed xs)
All-reversed P [] h = tt
All-reversed P (x ∷ xs) h = All-append P (reversed xs) (x ∷ []) (All-reversed P xs h.1) (h.0, tt)

length-boundaries :
    (kind : ApiKind) (base : ℕ) (items : List Item)
    → length (boundaries kind base items) ≡ turns kind items
unfolding boundaries
length-boundaries kind base [] = refl
length-boundaries kind base (item ∷ items) = ground (arith, length-boundaries kind (suc base) items)

-- A cut after which the recent turns are still there.
pub record Cut (c : Continuation) (keep cut : ℕ) : Type 0 where
  pub within : cut ≤ length c.items
  pub recent : max 1 keep ≤ turns c.api_kind (drop cut c.items)

candidates-Cut :
    (c : Continuation) (keep : ℕ)
    → max 1 keep ≤ length (boundaries c.api_kind 0 c.items)
    → All (Cut c keep) (candidates keep (boundaries c.api_kind 0 c.items))
unfolding candidates
candidates-Cut c keep enough =
    let bs = boundaries c.api_kind 0 c.items in
    let n = length bs - max 1 keep + 1 in
    let early = take-Early c.api_kind n 0 c.items in
    let cuts : All (Cut c keep) (take n bs) =
      All-weaken (take n bs)
        (λ cut e. record {
          within = omega (arith, e.within);
          recent =
              let whole : cut - 0 ≡ cut = omega arith in
              omega (
                arith,
                e.left_over,
                enough,
                length-boundaries c.api_kind 0 c.items,
                ap (λ k. turns c.api_kind (drop k c.items)) whole,
              );
        })
        early in
    All-reversed (Cut c keep) (drop 1 (take n bs)) (All-drop (Cut c keep) 1 (take n bs) cuts)

-- What a successful compaction is.
pub record CompactedAt (fits_schema : Continuation → Bool) (c : Continuation) (summary : Text)
    (keep : ℕ) (r : Compacted) : Type 0 where
  pub before : List Item
  pub after : List Item
  pub replaced : Replaced c r.continuation summary before after
  pub valid : continuation_issues fits_schema r.continuation ≡ []
  pub recent : max 1 keep ≤ turns c.api_kind after
  pub shrinks : 1 ≤ r.removed_items
  pub counts : r.removed_items + r.retained_items ≡ length c.items + 1

length-take-le : (n : ℕ) (xs : List Item) → length (take n xs) ≤ n
unfolding take
length-take-le n [] = omega arith
length-take-le zero (x ∷ xs) = omega arith
length-take-le (suc n) (x ∷ xs) = omega (arith, length-take-le n xs)

length-drop : (n : ℕ) (xs : List Item) → length (drop n xs) ≡ length xs - n
unfolding drop
length-drop n [] = omega arith
length-drop zero (x ∷ xs) = omega arith
length-drop (suc n) (x ∷ xs) = omega (arith, length-drop n xs)

length-cut_at :
    (c : Continuation) (summary : Text) (cut : ℕ)
    → length (cut_at c summary cut).items ≡ length (systems c cut) + 1 + (length c.items - cut)
unfolding cut_at
length-cut_at c summary cut =
    let item =
      summary_item c.api_kind (full_summary (prior_summaries [] (take cut c.items)) summary) in
    omega (arith, length-append (systems c cut) (item ∷ drop cut c.items), length-drop cut c.items)

no_issues-empty : (is : List Issue) → no_issues is ≡ true → is ≡ []
no_issues-empty [] h = refl
no_issues-empty (i ∷ is) h = absurd (cc)

try_cuts-CompactedAt :
    (fits_schema : Continuation → Bool) (c : Continuation) (summary : Text) (keep : ℕ)
    (last : List Issue) (cuts : List ℕ) (r : Compacted)
    → All (Cut c keep) cuts
    → try_cuts fits_schema c summary last cuts ≡ ok r
    → CompactedAt fits_schema c summary keep r
unfolding try_cuts
try_cuts-CompactedAt fits_schema c summary keep last [] r h e = absurd (cc)
try_cuts-CompactedAt fits_schema c summary keep last (cut ∷ cuts) r (h, hs) e =
    let issues = continuation_issues fits_schema (cut_at c summary cut) in
    elim (Bool-cases (leb (cut - length (systems c cut)) 0)) [
      | inl none_removed ↦
          try_cuts-CompactedAt fits_schema c summary keep last cuts r hs
            (ground (arith, e, none_removed))
      | inr some_removed ↦ elim (Bool-cases (no_issues issues)) [
        | inr refused ↦
            try_cuts-CompactedAt fits_schema c summary keep issues cuts r hs
              (ground (arith, e, some_removed, refused))
        | inl fine ↦
            let done : r ≡ record {
              continuation = cut_at c summary cut;
              removed_items = cut - length (systems c cut);
              retained_items = length (cut_at c summary cut).items;
            } =
              ground (arith, e, some_removed, fine) in
            subst (λ x. CompactedAt fits_schema c summary keep x) (sym done)
              (record {
                before = take cut c.items;
                after = drop cut c.items;
                replaced = cut_at-Replaced c summary cut;
                valid = no_issues-empty issues fine;
                recent = h.recent;
                shrinks = ground (arith, some_removed);
                counts = omega (
                  arith,
                  h.within,
                  length-cut_at c summary cut,
                  length-filter-le (is_system_item c.api_kind) (take cut c.items),
                  length-take-le cut c.items,
                );
              })
      ]
    ]

-- A successful compaction of a native conversation removes some first items and keeps the rest word
-- for word, behind the instructions among the removed items, in their order, and one user message.
-- That message says each earlier summary among the removed items and ends with the new one. The
-- kind and the calls of the conversation stay, the result has no structural issue, the rest holds at
-- least the recent user turns asked for, at least one item is removed, and the counts that are
-- reported add up to the items before and the message.
pub compact_retains :
    (fits_schema : Continuation → Bool) (c : Continuation) (summary : Text) (keep : ℕ)
    (r : Compacted)
    → is_fake c.api_kind ≡ false
    → compact_continuation fits_schema c summary keep ≡ ok r
    → CompactedAt fits_schema c summary keep r
unfolding compact_continuation compact_valid
compact_retains fits_schema c summary keep r native e =
    let bs = boundaries c.api_kind 0 c.items in
    try_cuts-CompactedAt fits_schema c summary keep [] (candidates keep bs) r
      (candidates-Cut c keep (ground (arith, e, native))) (ground (arith, e, native))
