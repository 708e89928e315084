-- ===== src/Usage/Tests.antt =====
-- Usages that packages/runtime/src/usage-accounting.ts accepts and refuses.
use foundry_agent_workspace.Base.{◌≡◌, refl, none, some}
use foundry_agent_workspace.Accounts.{nat, other}
use foundry_agent_workspace.Usage.{UsageEvent, MeasuredUsage, subset, measured, measured_usage}
use foundry_agent_workspace.Usage.Measures.{Consistent, as_event, measured_usage-Consistent}

usage : Unit {0}
unfolding subset measured measured_usage
usage = tt

abbrev event : UsageEvent
event = record {
  input_tokens = nat 100;
  output_tokens = nat 40;
  cache_read_tokens = some (nat 60);
  cache_creation_tokens = some (nat 30);
  reasoning_tokens = some (nat 41);
}

abbrev accepted : MeasuredUsage
accepted = record {
  input_tokens = 100;
  output_tokens = 40;
  cache_read_tokens = some 60;
  cache_creation_tokens = some 30;
  reasoning_tokens = none;
}

scenario :
    (measured_usage event ≡ some accepted)
    × (measured_usage (record event { cache_read_tokens = some (nat 71) })
        ≡ some (record accepted { cache_read_tokens = none; cache_creation_tokens = none }))
    × (measured_usage (record event { output_tokens = other }) ≡ none)
    × (measured_usage (record event { input_tokens = nat 9007199254740991 }) ≡ none)
unfolding usage
scenario = (refl, refl, refl, refl)

measured_usage-Consistent_example :
    Consistent accepted × (measured_usage (as_event accepted) ≡ some accepted)
unfolding usage
measured_usage-Consistent_example = measured_usage-Consistent event accepted refl
