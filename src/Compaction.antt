-- ===== src/Compaction.antt =====
-- Compaction of a provider's native continuation: packages/runtime/src/compaction.ts. An item is a
-- record with the fields that the code reads, for the three kinds of API alike; ids are numbers.
-- The zod schemas are the parameter `fits_schema` of the functions that use them.
pub mod Issues
pub mod Cuts
pub mod Kept
pub mod Retention
pub mod Counting
pub mod Scanning
pub mod Pairing
mod Tests
use foundry_agent_workspace.Base.{
  ℕ, Bool, true, false, not, ◌&&◌, ◌||◌, Option, none, some, List, [], ◌∷◌, ◌==◌, if◌then◌else◌,
  Text, codes, any,
}

pub data ApiKind : Type 0 where
  fake responses chat_completions anthropic : ApiKind

-- `type` of an item: undefined, 'message', 'function_call', 'function_call_output', or another.
pub data ItemType : Type 0 where
  untyped message function_call function_call_output other_type : ItemType

pub data Role : Type 0 where
  system developer user assistant tool other_role : Role

pub data Block : Type 0 where
  tool_use tool_result : (id : ℕ) → Block
  text_block : Text → Block
  other_block : Block

pub data Content : Type 0 where
  text : Text → Content
  blocks : List Block → Content
  other_content : Content

-- `call_id` is call_id or tool_call_id; `tool_calls` the ids of the objects in tool_calls.
pub record Item : Type 0 where
  pub type : ItemType
  pub role : Role
  pub call_id : ℕ
  pub tool_calls : List ℕ
  pub content : Content

-- `calls` are the ids of the pending calls; `items` is data.input or data.messages.
pub record Continuation : Type 0 where
  pub api_kind : ApiKind
  pub items : List Item
  pub calls : List ℕ

abbrev pub is_message : ItemType → Bool
is_message untyped = true
is_message message = true
is_message _ = false

abbrev pub is_user : Role → Bool
is_user user = true
is_user _ = false

abbrev pub is_assistant : Role → Bool
is_assistant assistant = true
is_assistant _ = false

abbrev pub is_tool : Role → Bool
is_tool tool = true
is_tool _ = false

abbrev pub is_instruction : Role → Bool
is_instruction system = true
is_instruction developer = true
is_instruction _ = false

unfoldable pub is_system_item : ApiKind → Item → Bool
is_system_item anthropic item = false
is_system_item _ item = is_message item.type && is_instruction item.role

abbrev pub is_tool_result : Block → Bool
is_tool_result (tool_result id) = true
is_tool_result _ = false

abbrev pub carries_no_result : Content → Bool
carries_no_result (text t) = true
carries_no_result (blocks bs) = not (any is_tool_result bs)
carries_no_result other_content = false

unfoldable pub is_user_boundary : ApiKind → Item → Bool
is_user_boundary anthropic item = is_user item.role && carries_no_result item.content
is_user_boundary chat_completions item = is_user item.role
is_user_boundary _ item = is_user item.role && is_message item.type

abbrev pub has_id : ℕ → List ℕ → Bool
has_id id = any (λ k. k == id)
