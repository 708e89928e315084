-- ===== src/Usage.antt =====
-- Revalidation of a provider's measured usage: `measuredUsage` of
-- packages/runtime/src/usage-accounting.ts. A field that is not a number is `other`, one that is
-- absent is `none`.
pub mod Measures
pub mod Ledger
mod Tests
use foundry_agent_workspace.Base.{
  ℕ, ◌+◌, Bool, true, false, Option, none, some, leb, ltb, if◌then◌else◌,
}
use foundry_agent_workspace.Accounts.{Number, nat, other, safe_nat, max_safe_integer}

pub record UsageEvent : Type 0 where
  pub input_tokens : Number
  pub output_tokens : Number
  pub cache_read_tokens : Option Number
  pub cache_creation_tokens : Option Number
  pub reasoning_tokens : Option Number

pub record MeasuredUsage : Type 0 where
  pub input_tokens : ℕ
  pub output_tokens : ℕ
  pub cache_read_tokens : Option ℕ
  pub cache_creation_tokens : Option ℕ
  pub reasoning_tokens : Option ℕ

-- `valid(n)`, with the number when it holds.
abbrev pub valid : Option Number → Option ℕ
valid none = none
valid (some n) = safe_nat n

abbrev pub at_most : ℕ → ℕ → Option ℕ
at_most total n = if leb n total then some n else none

unfoldable pub subset : Option Number → ℕ → Option ℕ
subset field total = elim (valid field) [ none ↦ none | some n ↦ at_most total n ]

-- `field ?? 0`
abbrev pub or_zero : Option ℕ → ℕ
or_zero none = 0
or_zero (some n) = n

unfoldable pub measured : UsageEvent → (input output : ℕ) → MeasuredUsage
measured event input output =
    let cache_read = subset event.cache_read_tokens input in
    let cache_creation = subset event.cache_creation_tokens input in
    let too_many = ltb input (or_zero cache_read + or_zero cache_creation) in
    record {
      input_tokens = input;
      output_tokens = output;
      cache_read_tokens = if too_many then none else cache_read;
      cache_creation_tokens = if too_many then none else cache_creation;
      reasoning_tokens = subset event.reasoning_tokens output;
    }

-- The test that the sum is safe, once both are.
abbrev pub if_safe_sum : UsageEvent → (input output : ℕ) → Option MeasuredUsage
if_safe_sum event input output =
    let m = measured event input output in
    if leb (input + output) max_safe_integer then some m else none

unfoldable pub measured_usage : UsageEvent → Option MeasuredUsage
measured_usage event = elim (safe_nat event.input_tokens) [
  | none ↦ none
  | some input ↦ elim (safe_nat event.output_tokens) [
    | none ↦ none
    | some output ↦ if_safe_sum event input output
  ]
]
