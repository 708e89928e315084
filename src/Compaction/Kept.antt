-- ===== src/Compaction/Kept.antt =====
-- What `compactContinuation` of packages/runtime/src/compaction.ts makes of the items at one cut, item
-- by item.
use foundry_agent_workspace.Base.{
  ℕ, ◌≡◌, ◌∙◌, refl, sym, ap, subst, inl, inr, true, false, some, List, [], ◌∷◌, ◌++◌, Memᴰ,
  Bool-cases, Option-cases, filter, any, any_witness, append_assoc, Text, text_eq, eq_of_text_eq,
  take, drop, append-take-drop, if◌then◌else◌,
}
use foundry_agent_workspace.Compaction.{
  ApiKind, user, text_block, Content, text, blocks, Item, Continuation, is_system_item, anthropic,
  responses, chat_completions, fake,
}
use foundry_agent_workspace.Compaction.Cuts.{
  separator, extract_summary_text, prior_summaries, full_summary, summary_content, summary_item,
  cut_at,
}

-- The second list is the instructions of the first, in their order.
pub data Instructions (kind : ApiKind) : List Item → List Item → Type 0 where
  nothing : Instructions kind [] []
  keeps :
      {x : Item} {xs ys : List Item}
      → is_system_item kind x ≡ true
      → Instructions kind xs ys
      → Instructions kind (x ∷ xs) (x ∷ ys)
  leaves :
      {x : Item} {xs ys : List Item}
      → is_system_item kind x ≡ false
      → Instructions kind xs ys
      → Instructions kind (x ∷ xs) ys

-- The text is part of the other.
abbrev pub PartOf : Text → Text → Type 0
PartOf part whole = (before : Text) × (after : Text) × (whole ≡ before ++ (part ++ after))

-- The content that says the text: a block for Anthropic, else the text.
abbrev pub Says : ApiKind → Text → Content → Type 0
Says anthropic told content = content ≡ blocks (text_block told ∷ [])
Says responses told content = content ≡ text told
Says chat_completions told content = content ≡ text told
Says fake told content = content ≡ text told

-- The new items are the instructions among the removed ones, one summary, and the rest of the items.
pub record Replaced (c r : Continuation) (summary : Text) (before after : List Item) : Type 0 where
  pub whole : c.items ≡ before ++ after
  pub instructions : List Item
  pub instructed : Instructions c.api_kind before instructions
  pub note : Item
  pub items : r.items ≡ instructions ++ note ∷ after
  pub by_user : note.role ≡ user
  pub told : Text
  pub says : Says c.api_kind told note.content
  pub ends : (earlier : Text) × (told ≡ earlier ++ summary)
  pub retold :
      (x : Item) (t : Text) → Memᴰ x before → extract_summary_text x ≡ some t → PartOf t told
  pub same_kind : r.api_kind ≡ c.api_kind
  pub same_calls : r.calls ≡ c.calls

filter-Instructions :
    (kind : ApiKind) (xs : List Item) → Instructions kind xs (filter (is_system_item kind) xs)
filter-Instructions kind [] = nothing
filter-Instructions kind (x ∷ xs) = elim (Bool-cases (is_system_item kind x)) [
  | inl hit ↦ rw hit (keeps hit (filter-Instructions kind xs))
  | inr miss ↦ rw miss (leaves miss (filter-Instructions kind xs))
]

mem-append_left : (t : Text) (xs ys : List Text) → Memᴰ t xs → Memᴰ t (xs ++ ys)
mem-append_left t [] ys m = elim m [ ]
mem-append_left t (x ∷ xs) ys (Memᴰ.head e) = Memᴰ.head e
mem-append_left t (x ∷ xs) ys (Memᴰ.tail m) = Memᴰ.tail (mem-append_left t xs ys m)

mem_last : (t : Text) (xs : List Text) → Memᴰ t (xs ++ t ∷ [])
mem_last t [] = Memᴰ.head refl
mem_last t (x ∷ xs) = Memᴰ.tail (mem_last t xs)

-- Where the loop stands after an item with the summary `u`.
abbrev with_summary : List Text → Text → List Text
with_summary found u = if any (text_eq u) found then found else found ++ u ∷ []

mem_with_summary : (t u : Text) (found : List Text) → Memᴰ t found → Memᴰ t (with_summary found u)
mem_with_summary t u found m = elim (Bool-cases (any (text_eq u) found)) [
  | inl seen ↦ rw seen m
  | inr new ↦ rw new (mem-append_left t found (u ∷ []) m)
]

summary_added : (u : Text) (found : List Text) → Memᴰ u (with_summary found u)
summary_added u found = elim (Bool-cases (any (text_eq u) found)) [
  | inl seen ↦
      let (v, m, same) = any_witness (text_eq u) found seen in
      rw seen (subst (λ w. Memᴰ w found) (sym (eq_of_text_eq u v same)) m)
  | inr new ↦ rw new (mem_last u found)
]

mem_found :
    (t : Text) (found : List Text) (items : List Item)
    → Memᴰ t found
    → Memᴰ t (prior_summaries found items)
unfolding prior_summaries
mem_found t found [] m = m
mem_found t found (x ∷ items) m = elim (Option-cases (extract_summary_text x)) [
  | inl silent ↦ rw (prior_summaries, silent) (mem_found t found items m)
  | inr (u, told) ↦
      rw (prior_summaries, told)
        (mem_found t (with_summary found u) items (mem_with_summary t u found m))
]

mem_prior :
    (t : Text) (x : Item) (found : List Text) (items : List Item)
    → Memᴰ x items
    → extract_summary_text x ≡ some t
    → Memᴰ t (prior_summaries found items)
unfolding prior_summaries
mem_prior t x found [] m e = elim m [ ]
mem_prior t x found (y ∷ items) (Memᴰ.head same) e =
    let told : extract_summary_text y ≡ some t = ap extract_summary_text (sym same) ∙ e in
    rw (prior_summaries, told) (mem_found t (with_summary found t) items (summary_added t found))
mem_prior t x found (y ∷ items) (Memᴰ.tail m) e = elim (Option-cases (extract_summary_text y)) [
  | inl silent ↦ rw (prior_summaries, silent) (mem_prior t x found items m e)
  | inr (u, told) ↦ rw (prior_summaries, told) (mem_prior t x (with_summary found u) items m e)
]

PartOf-full_summary :
    (t : Text) (ts : List Text) (summary : Text) → Memᴰ t ts → PartOf t (full_summary ts summary)
unfolding full_summary
PartOf-full_summary t [] summary m = elim m [ ]
PartOf-full_summary t (u ∷ ts) summary (Memᴰ.head e) =
    let rest = full_summary ts summary in
    (
      [],
      separator ++ rest,
      append_assoc u separator rest ∙ ap (λ v. v ++ (separator ++ rest)) (sym e),
    )
PartOf-full_summary t (u ∷ ts) summary (Memᴰ.tail m) =
    let (before, after, e) = PartOf-full_summary t ts summary m in
    (
      u ++ separator ++ before,
      after,
      ap (λ v. u ++ separator ++ v) e ∙ sym (append_assoc (u ++ separator) before (t ++ after)),
    )

full_summary_ends :
    (ts : List Text) (summary : Text)
    → (earlier : Text) × (full_summary ts summary ≡ earlier ++ summary)
unfolding full_summary
full_summary_ends [] summary = ([], refl)
full_summary_ends (u ∷ ts) summary =
    let (earlier, e) = full_summary_ends ts summary in
    (
      u ++ separator ++ earlier,
      ap (λ v. u ++ separator ++ v) e ∙ sym (append_assoc (u ++ separator) earlier summary),
    )

summary_content-Says : (kind : ApiKind) (t : Text) → Says kind t (summary_content kind t)
summary_content-Says anthropic t = refl
summary_content-Says responses t = refl
summary_content-Says chat_completions t = refl
summary_content-Says fake t = refl

pub cut_at-Replaced :
    (c : Continuation) (summary : Text) (cut : ℕ)
    → Replaced c (cut_at c summary cut) summary (take cut c.items) (drop cut c.items)
unfolding cut_at
cut_at-Replaced c summary cut =
    let before = take cut c.items in
    let priors = prior_summaries [] before in
    record {
      whole = sym (append-take-drop cut c.items);
      instructions = filter (is_system_item c.api_kind) before;
      instructed = filter-Instructions c.api_kind before;
      note = summary_item c.api_kind (full_summary priors summary);
      items = refl;
      by_user = refl;
      told = full_summary priors summary;
      says = summary_content-Says c.api_kind (full_summary priors summary);
      ends = full_summary_ends priors summary;
      retold = λ x t m e. PartOf-full_summary t priors summary (mem_prior t x [] before m e);
      same_kind = refl;
      same_calls = refl;
    }
