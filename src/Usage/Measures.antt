-- ===== src/Usage/Measures.antt =====
-- What a usage accepted by `measuredUsage` of packages/runtime/src/usage-accounting.ts satisfies.
use foundry_agent_workspace.Base.{
  ℕ, ◌+◌, ◌≤◌, ◌≡◌, refl, subst, inl, inr, Option, none, some, leb, arith, Bool-cases, Option-cases,
}
use foundry_agent_workspace.Accounts.{Number, nat, other, safe_nat, max_safe_integer}
use foundry_agent_workspace.Usage.{
  UsageEvent, MeasuredUsage, subset, or_zero, measured, measured_usage,
}

pub record Consistent (m : MeasuredUsage) : Type 0 where
  pub total : m.input_tokens + m.output_tokens ≤ max_safe_integer
  pub cached : or_zero m.cache_read_tokens + or_zero m.cache_creation_tokens ≤ m.input_tokens
  pub reasoning : or_zero m.reasoning_tokens ≤ m.output_tokens

subset-le : (field : Option Number) (total : ℕ) → or_zero (subset field total) ≤ total
unfolding subset
subset-le none total = omega arith
subset-le (some other) total = omega arith
subset-le (some (nat n)) total = ground arith

abbrev pub as_field : Option ℕ → Option Number
as_field none = none
as_field (some n) = some (nat n)

-- The usage as an event again.
abbrev pub as_event : MeasuredUsage → UsageEvent
as_event m = record {
  input_tokens = nat m.input_tokens;
  output_tokens = nat m.output_tokens;
  cache_read_tokens = as_field m.cache_read_tokens;
  cache_creation_tokens = as_field m.cache_creation_tokens;
  reasoning_tokens = as_field m.reasoning_tokens;
}

subset_again :
    (o : Option ℕ) (total : ℕ)
    → or_zero o ≤ total
    → total ≤ max_safe_integer
    → subset (as_field o) total ≡ o
unfolding subset
subset_again none total h k = refl
subset_again (some n) total h k = ground arith

measured-Consistent :
    (event : UsageEvent) (input output : ℕ)
    → input + output ≤ max_safe_integer
    → Consistent (measured event input output)
unfolding measured
measured-Consistent event input output h = record {
  total = h;
  cached = ground arith;
  reasoning = subset-le event.reasoning_tokens output;
}

remeasured : (m : MeasuredUsage) → Consistent m → measured_usage (as_event m) ≡ some m
unfolding measured_usage measured
remeasured m c = ground (
  arith,
  c.total,
  c.cached,
  c.reasoning,
  subset_again m.cache_read_tokens m.input_tokens (omega (arith, c.cached))
      (omega (arith, c.total)),
  subset_again m.cache_creation_tokens m.input_tokens (omega (arith, c.cached))
      (omega (arith, c.total)),
  subset_again m.reasoning_tokens m.output_tokens c.reasoning (omega (arith, c.total)),
)

accepted-Consistent :
    (event : UsageEvent) (m : MeasuredUsage) → measured_usage event ≡ some m → Consistent m
unfolding measured_usage
accepted-Consistent event m e = elim (Option-cases (safe_nat event.input_tokens)) [
  | inl missing ↦ absurd (ground (arith, e, missing))
  | inr (input, i) ↦ elim (Option-cases (safe_nat event.output_tokens)) [
    | inl missing ↦ absurd (ground (arith, e, i, missing))
    | inr (output, o) ↦ elim (Bool-cases (leb (input + output) max_safe_integer)) [
      | inr over ↦ absurd (ground (arith, e, i, o, over))
      | inl safe ↦
          let own : measured event input output ≡ m = ground (arith, e, i, o, safe) in
          subst Consistent own (measured-Consistent event input output (ground (arith, safe)))
    ]
  ]
]

-- An accepted usage is consistent: the total is a safe integer, the cached tokens are part of the
-- input and the reasoning tokens part of the output; and measuring it again gives the same usage.
pub measured_usage-Consistent :
    (event : UsageEvent) (m : MeasuredUsage)
    → measured_usage event ≡ some m
    → Consistent m × (measured_usage (as_event m) ≡ some m)
measured_usage-Consistent event m e = let c = accepted-Consistent event m e in (c, remeasured m c)
