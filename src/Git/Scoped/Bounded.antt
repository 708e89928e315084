-- ===== src/Git/Scoped/Bounded.antt =====
-- The patch of a prepared handoff: boundConcat and renderHandoffPatch of
-- packages/runtime/src/git-operations.ts.
use foundry_agent_workspace.Base.{
  ℕ, ◌≤◌, ◌<◌, ◌≡◌, ◌⊎◌, Bool, true, false, List, [], ◌∷◌, ◌++◌, length, Text,
}
use foundry_agent_workspace.Git.Texts.{byte_length}
use foundry_agent_workspace.Git.Handoff.{patch_limit_bytes}

abbrev pub joined : List Text → Text
joined [] = []
joined (part ∷ parts) = part ++ joined parts

-- The text is `before` and the longest run of first parts with which it stays within the limit.
pub record Bounded (before : Text) (parts : List Text) (text : Text) (truncated : Bool)
    : Type 0 where
  pub kept : List Text
  pub left : List Text
  pub whole : parts ≡ kept ++ left
  pub shown : text ≡ before ++ joined kept
  pub within : byte_length text ≤ patch_limit_bytes
  pub cut :
      ((left ≡ []) × (truncated ≡ false))
      ⊎ ((next : Text) × (rest : List Text) × (left ≡ next ∷ rest)
          × (truncated ≡ true)
          × (patch_limit_bytes < byte_length (text ++ next)))

-- As many parts as there are paths, and what is shown of them.
abbrev pub Rendered : ℕ → (text : Text) → Bool → Type 0
Rendered count text truncated =
    (parts : List Text) × (length parts ≡ count) × Bounded [] parts text truncated
