-- ===== src/Slots/Tests.antt =====
-- Three callers of one profile key on the default limits of
-- packages/runtime/src/execution-slots.ts.
use foundry_agent_workspace.Base.{
  ◌≡◌, ◌≤◌, refl, true, false, some, List, [], ◌∷◌, All, count, get, set, delete, nth, put,
}
use foundry_agent_workspace.Slots.{
  Limits, Event, arrives, tests, aborts, ends, enter, leave, blocked, test_caller, end_caller, step,
  idle, run_events, World, acting, asleep, left, thrown,
}
use foundry_agent_workspace.Slots.Counters.{acts, acts_on}
use foundry_agent_workspace.Slots.Counts.{acting_bound}
use foundry_agent_workspace.Slots.Waking.{RightlyAsleep, asleep_blocked}

slots : Unit {0}
unfolding enter leave blocked test_caller end_caller step run_events get set delete nth put
slots = tt

abbrev defaults : Limits
defaults = record { limit = 3; key_limit = 2 }

abbrev crowd : List Event
crowd =
    arrives (some 7) false
    ∷ tests 0
    ∷ arrives (some 7) false
    ∷ tests 1
    ∷ arrives (some 7) false
    ∷ tests 2
    ∷ []

abbrev crowded : World
crowded = record {
  slots = record { active = 2; per_key = (7, 2) ∷ [] };
  callers =
      record { key = some 7; aborted = false; phase = acting }
      ∷ record { key = some 7; aborted = false; phase = acting }
      ∷ record { key = some 7; aborted = false; phase = asleep }
      ∷ [];
}

scenario :
    (run_events defaults idle crowd ≡ crowded)
    × (run_events defaults crowded (ends 0 ∷ tests 2 ∷ ends 1 ∷ ends 2 ∷ []) ≡ record {
      slots = record { active = 0; per_key = [] };
      callers =
          record { key = some 7; aborted = false; phase = left }
          ∷ record { key = some 7; aborted = false; phase = left }
          ∷ record { key = some 7; aborted = false; phase = left }
          ∷ [];
    })
    × (run_events defaults crowded (aborts 2 ∷ tests 2 ∷ []) ≡ record crowded {
      callers =
          record { key = some 7; aborted = false; phase = acting }
          ∷ record { key = some 7; aborted = false; phase = acting }
          ∷ record { key = some 7; aborted = true; phase = thrown }
          ∷ [];
    })
unfolding slots
scenario = (refl, refl, refl)

acting_bound_example : (count acts crowded.callers ≤ 3) × (count (acts_on 7) crowded.callers ≤ 2)
unfolding slots
acting_bound_example = acting_bound defaults crowd 7

asleep_blocked_example : All (RightlyAsleep defaults crowded.slots) crowded.callers
unfolding slots
asleep_blocked_example = asleep_blocked defaults crowd
