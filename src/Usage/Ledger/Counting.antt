-- ===== src/Usage/Ledger/Counting.antt =====
-- The totals of usage: `totals` and `add` of packages/runtime/src/usage-ledger.ts.
use foundry_agent_workspace.Base.{
  is_some, ℕ, suc, ◌+◌, not, ◌&&◌, Option, none, some, if◌then◌else◌,
}
use foundry_agent_workspace.Usage.{or_zero}
use foundry_agent_workspace.Usage.Ledger.{UsageRequest, is_pending}

pub record UsageTotals : Type 0 where
  pub requests : ℕ
  pub attempted_requests : ℕ
  pub pending_requests : ℕ
  pub known_requests : ℕ
  pub unknown_requests : ℕ
  pub not_sent_requests : ℕ
  pub input : ℕ
  pub output : ℕ
  pub total : ℕ
  pub cache_read : Option ℕ
  pub cache_creation : Option ℕ
  pub reasoning : Option ℕ
  pub cache_read_known_requests : ℕ
  pub cache_creation_known_requests : ℕ
  pub reasoning_known_requests : ℕ
  pub reserved_unknown : ℕ
  pub reserved_pending : ℕ
  pub reserved_not_sent : ℕ

abbrev pub totals : UsageTotals
totals = record {
  requests = 0;
  attempted_requests = 0;
  pending_requests = 0;
  known_requests = 0;
  unknown_requests = 0;
  not_sent_requests = 0;
  input = 0;
  output = 0;
  total = 0;
  cache_read = none;
  cache_creation = none;
  reasoning = none;
  cache_read_known_requests = 0;
  cache_creation_known_requests = 0;
  reasoning_known_requests = 0;
  reserved_unknown = 0;
  reserved_pending = 0;
  reserved_not_sent = 0;
}

unfoldable pub add_attempt : UsageTotals → UsageRequest → UsageTotals
add_attempt t r = record t {
  requests = suc t.requests;
  attempted_requests =
      if is_some r.attempted_at then suc t.attempted_requests else t.attempted_requests;
}

unfoldable pub add_outcome : UsageTotals → UsageRequest → UsageTotals
add_outcome t r =
    let input = or_zero r.input_tokens in
    let output = or_zero r.output_tokens in
    if is_pending r.outcome
    then (record t {
      pending_requests = suc t.pending_requests;
      reserved_pending = t.reserved_pending + r.reserved_tokens;
    })
    else (if r.usage_known
        then (record t {
          known_requests = suc t.known_requests;
          input = t.input + input;
          output = t.output + output;
          total = t.total + (input + output);
        })
        else (if r.attribution_known && not (is_some r.attempted_at)
            then (record t {
              not_sent_requests = suc t.not_sent_requests;
              reserved_not_sent = t.reserved_not_sent + r.reserved_tokens;
            })
            else (record t {
              unknown_requests = suc t.unknown_requests;
              reserved_unknown = t.reserved_unknown + r.reserved_tokens;
            })))

-- `if (n !== null) { sum = (sum ?? 0) + n; known++; }`
abbrev pub add_known : Option ℕ → Option ℕ → Option ℕ
add_known none sum = sum
add_known (some n) sum = some (or_zero sum + n)

abbrev pub count_known : Option ℕ → ℕ → ℕ
count_known none known = known
count_known (some n) known = suc known

unfoldable pub add_details : UsageTotals → UsageRequest → UsageTotals
add_details t r = record t {
  cache_read = add_known r.cache_read_tokens t.cache_read;
  cache_read_known_requests = count_known r.cache_read_tokens t.cache_read_known_requests;
  cache_creation = add_known r.cache_creation_tokens t.cache_creation;
  cache_creation_known_requests =
      count_known r.cache_creation_tokens t.cache_creation_known_requests;
  reasoning = add_known r.reasoning_tokens t.reasoning;
  reasoning_known_requests = count_known r.reasoning_tokens t.reasoning_known_requests;
}

unfoldable pub add : UsageTotals → UsageRequest → UsageTotals
add t r = add_details (add_outcome (add_attempt t r) r) r
