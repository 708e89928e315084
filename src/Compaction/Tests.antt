-- ===== src/Compaction/Tests.antt =====
-- A short conversation of the responses API, compacted by packages/runtime/src/compaction.ts.
use foundry_agent_workspace.Base.{
  take, drop, ◌+◌, ◌≤◌, ◌≡◌, refl, Text, Bool, true, [], ◌∷◌, ok, err, codes, text_eq, starts_with,
}
use foundry_agent_workspace.Compaction.{
  Item, ItemType, Role, Continuation, responses, untyped, function_call, function_call_output,
  system, user, assistant, other_role, text, other_content, is_system_item, is_user_boundary,
}
use foundry_agent_workspace.Compaction.Issues.{
  add, call, result, calls_of, results_of, scan_responses, scan_chat, uses, results, scan_anthropic,
  scan, first_issues, pending_issues, unanswered_issues, pairing_issues, continuation_issues,
  unanswered,
}
use foundry_agent_workspace.Compaction.Cuts.{
  includes, block_summary, extract_summary_text, prior_summaries, full_summary, boundaries,
  candidates, cut_at, try_cuts, compact_valid, compact_continuation, nothing_to_compact, invalid,
  Compacted,
}
use foundry_agent_workspace.Compaction.Counting.{calls_to, results_of_call}
use foundry_agent_workspace.Compaction.Pairing.{valid_pairing}
use foundry_agent_workspace.Compaction.Retention.{CompactedAt, compact_retains}

compaction : Unit {0}
unfolding is_system_item is_user_boundary add call result calls_of results_of scan_responses
    scan_chat uses results scan_anthropic scan first_issues pending_issues unanswered_issues
    pairing_issues continuation_issues includes block_summary extract_summary_text prior_summaries
    full_summary take drop boundaries candidates cut_at try_cuts compact_valid compact_continuation
    text_eq starts_with
compaction = tt

abbrev says : Role → Text → Item
says role words = record {
  type = untyped;
  role = role;
  call_id = 0;
  tool_calls = [];
  content = text words;
}

abbrev calls_tool : ItemType → Item
calls_tool type = record {
  type = type;
  role = other_role;
  call_id = 4;
  tool_calls = [];
  content = other_content;
}

abbrev talk : Continuation
talk = record {
  api_kind = responses;
  items =
      says system (codes "rules")
      ∷ says user (codes "first")
      ∷ calls_tool function_call
      ∷ calls_tool function_call_output
      ∷ says user (codes "second")
      ∷ says assistant (codes "done")
      ∷ [];
  calls = [];
}

abbrev shorter : Compacted
shorter = record {
  continuation = record talk {
    items =
        says system (codes "rules")
        ∷ says user (codes "sum")
        ∷ says user (codes "second")
        ∷ says assistant (codes "done")
        ∷ [];
  };
  removed_items = 3;
  retained_items = 4;
}

abbrev cut_short : Continuation
cut_short = record talk { items = says user (codes "first") ∷ calls_tool function_call ∷ [] }

abbrev any_schema : Continuation → Bool
any_schema c = true

scenario :
    (compact_continuation any_schema talk (codes "sum") 1 ≡ ok shorter)
    × (compact_continuation any_schema talk (codes "sum") 2 ≡ err nothing_to_compact)
    × (compact_continuation any_schema cut_short (codes "sum") 1
        ≡ err (invalid (unanswered 4 ∷ [])))
unfolding compaction
scenario = (refl, refl, refl)

compact_retains_example : CompactedAt any_schema talk (codes "sum") 1 shorter
unfolding compaction
compact_retains_example = compact_retains any_schema talk (codes "sum") 1 shorter refl refl

valid_pairing_example :
    (calls_to responses 4 talk.items ≤ 1)
    × (calls_to responses 4 talk.items ≡ results_of_call responses 4 talk.items + 0)
unfolding compaction
valid_pairing_example = valid_pairing any_schema talk 4 refl refl
