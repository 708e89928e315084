-- ===== src/Git/Status.antt =====
-- The parser of `git status --porcelain=v2 -z`: parseStatusV2, splitFixed and classifyStatusCode of
-- packages/runtime/src/git-operations.ts. The parser pops a last empty token and skips the others.
use foundry_agent_workspace.Base.{
  ℕ, zero, suc, Option, none, some, List, [], ◌∷◌, ◌==◌, if◌then◌else◌, nth, Result, ok, err, ◌>>=◌,
  Text, split,
}
use foundry_agent_workspace.Git.{Failure, fault}
use foundry_agent_workspace.Git.Texts.{or_blank, pop_blank}

-- The records of kind 1, 2, u and ?.
pub data RawStatusRecord : Type 0 where
  changed : (xy m_h m_i m_w path : Text) → RawStatusRecord
  renamed : (xy m_h m_i m_w path orig_path : Text) → RawStatusRecord
  unmerged : (xy m1 m2 m3 m_w path : Text) → RawStatusRecord
  untracked : (path : Text) → RawStatusRecord

-- `text.indexOf(unit)`, as the text before it and the text after it.
unfoldable pub cut : ℕ → Text → Option (Text × Text)
cut c [] = none
cut c (d ∷ t) =
    if d == c
    then some ([], t)
    else elim (cut c t) [ none ↦ none | some (before, after) ↦ some (d ∷ before, after) ]

-- The loop's rounds are counted down.
unfoldable pub split_fixed : Text → ℕ → Result Failure (List Text)
split_fixed line zero = ok (line ∷ [])
split_fixed line (suc n) = elim (cut b' ' line) [
  | none ↦ err (fault "Malformed git status record." [])
  | some (part, rest) ↦ split_fixed rest n >>= λ parts. ok (part ∷ parts)
]

abbrev pub field : ℕ → List Text → Text
field i fields = or_blank (nth i fields)

abbrev pub changed_of : List Text → RawStatusRecord
changed_of f = changed (field 1 f) (field 3 f) (field 4 f) (field 5 f) (field 8 f)

abbrev pub renamed_of : List Text → Text → RawStatusRecord
renamed_of f orig_path =
    renamed (field 1 f) (field 3 f) (field 4 f) (field 5 f) (field 9 f) orig_path

abbrev pub unmerged_of : List Text → RawStatusRecord
unmerged_of f = unmerged (field 1 f) (field 3 f) (field 4 f) (field 5 f) (field 6 f) (field 10 f)

abbrev pub untracked_of : List Text → RawStatusRecord
untracked_of f = untracked (field 1 f)

-- The token after a record of kind 2 is its `origPath`, whatever it is; `pending` holds the fields
-- of such a record. The number of splits is one less than the number of fields.
unfoldable pub parse_tokens : Option (List Text) → List Text → Result Failure (List RawStatusRecord)
unfolding split_fixed
parse_tokens none [] = ok []
parse_tokens (some f) [] = ok (renamed_of f [] ∷ [])
parse_tokens (some f) (orig_path ∷ tokens) =
    parse_tokens none tokens >>= λ rs. ok (renamed_of f orig_path ∷ rs)
parse_tokens none ([] ∷ tokens) = parse_tokens none tokens
parse_tokens none ((c ∷ t) ∷ tokens) =
    let rest = parse_tokens none tokens in
    let pending = split_fixed (c ∷ t) 9 >>= λ f. parse_tokens (some f) tokens in
    let first = λ (f : List Text). rest >>= λ rs. ok (changed_of f ∷ rs) in
    let conflict = λ (f : List Text). rest >>= λ rs. ok (unmerged_of f ∷ rs) in
    let other = λ (f : List Text). rest >>= λ rs. ok (untracked_of f ∷ rs) in
    if c == b'1'
    then (split_fixed (c ∷ t) 8 >>= first)
    else if c == b'2'
    then pending
    else if c == b'u'
    then (split_fixed (c ∷ t) 10 >>= conflict)
    else if c == b'?'
    then (split_fixed (c ∷ t) 1 >>= other)
    else if c == b'!'
    then rest
    else err (fault "Unexpected git status record: " ((c ∷ t) ∷ []))

unfoldable pub parse_status_v2 : Text → Result Failure (List RawStatusRecord)
unfolding parse_tokens pop_blank
parse_status_v2 stdout = parse_tokens none (pop_blank (split 0 stdout))

pub data ChangeKind : Type 0 where
  modified added deleted typechange untracked_file unmerged_file : ChangeKind

unfoldable pub classify_status_code : Option ℕ → ChangeKind
classify_status_code none = modified
classify_status_code (some c) =
    if c == b'A'
    then added
    else if c == b'D'
    then deleted
    else if c == b'T'
    then typechange
    else modified
