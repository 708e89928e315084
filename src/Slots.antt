-- ===== src/Slots.antt =====
-- Execution slots: packages/runtime/src/execution-slots.ts. The class keeps the number of running
-- actions, one count for each key, and the waiting callers; a caller is one call of `use`, and
-- what happens is a sequence of events, each one an uninterrupted stretch of the code.
pub mod Moves
pub mod Counters
pub mod Counts
pub mod Waking
mod Tests
use foundry_agent_workspace.Base.{
  ℕ, ◌+◌, ◌-◌, Bool, true, false, ◌&&◌, ◌||◌, Option, none, some, List, [], ◌∷◌, ◌++◌, leb, ◌==◌,
  if◌then◌else◌, map, get, set, delete, nth, put,
}

pub record Slots : Type 0 where
  pub active : ℕ
  pub per_key : List (ℕ × ℕ)

pub record Limits : Type 0 where
  pub limit : ℕ
  pub key_limit : ℕ

-- `this.perKey.get(key) ?? 0`
abbrev pub held_by : Slots → ℕ → ℕ
held_by s k = elim (get k s.per_key) [ none ↦ 0 | some n ↦ n ]

-- The condition of the loop.
unfoldable pub blocked : Limits → Slots → Option ℕ → Bool
blocked l s none = leb l.limit s.active
blocked l s (some k) = leb l.limit s.active || leb l.key_limit (held_by s k)

unfoldable pub enter : Slots → Option ℕ → Slots
enter s none = record s { active = s.active + 1 }
enter s (some k) = record s { active = s.active + 1; per_key = set k (held_by s k + 1) s.per_key }

-- `(this.perKey.get(key) ?? 1) - 1`
abbrev pub next_count : Slots → ℕ → ℕ
next_count s k = elim (get k s.per_key) [ none ↦ 0 | some n ↦ n - 1 ]

-- The `finally` block but for the wake-up; `active` is above 0 there.
unfoldable pub leave : Slots → Option ℕ → Slots
leave s none = record s { active = s.active - 1 }
leave s (some k) = record s {
  active = s.active - 1;
  per_key = if next_count s k == 0 then delete k s.per_key else set k (next_count s k) s.per_key;
}

-- Before the test of the loop; in the promise that the wake-up or an abort resolves; in the
-- action; after it; and out of `use` by throwIfAborted.
pub data Phase : Type 0 where
  testing asleep acting left thrown : Phase

pub record Caller : Type 0 where
  pub key : Option ℕ
  pub aborted : Bool
  pub phase : Phase

pub record World : Type 0 where
  pub slots : Slots
  pub callers : List Caller

pub data Event : Type 0 where
  arrives : (key : Option ℕ) (aborted : Bool) → Event
  tests aborts ends : (index : ℕ) → Event

abbrev pub new_caller : Option ℕ → Bool → Caller
new_caller key aborted = record { key = key; aborted = aborted; phase = testing }

abbrev pub is_asleep : Phase → Bool
is_asleep asleep = true
is_asleep _ = false

abbrev pub is_testing : Phase → Bool
is_testing testing = true
is_testing _ = false

abbrev pub is_acting : Phase → Bool
is_acting acting = true
is_acting _ = false

abbrev pub at_phase : Phase → Caller → Caller
at_phase p c = record c { phase = p }

-- Both the wake-up and an abort resolve the promise, and the loop tests again.
abbrev pub wake : Caller → Caller
wake c = if is_asleep c.phase then at_phase testing c else c

-- One round of the loop, up to the next `await`.
unfoldable pub test_caller : Limits → World → ℕ → Caller → World
test_caller l w i c =
    if c.aborted
    then record w { callers = put i (at_phase thrown c) w.callers }
    else if blocked l w.slots c.key
    then record w { callers = put i (at_phase asleep c) w.callers }
    else record { slots = enter w.slots c.key; callers = put i (at_phase acting c) w.callers }

-- The action has settled, with a value or an error.
unfoldable pub end_caller : World → ℕ → Caller → World
end_caller w i c = record {
  slots = leave w.slots c.key;
  callers = map wake (put i (at_phase left c) w.callers);
}

abbrev pub abort_caller : Caller → Caller
abort_caller c = record (wake c) { aborted = true }

unfoldable pub step : Limits → World → Event → World
step l w (arrives key aborted) = record w { callers = w.callers ++ new_caller key aborted ∷ [] }
step l w (tests i) = elim (nth i w.callers) [
  | none ↦ w
  | some c ↦ if is_testing c.phase then test_caller l w i c else w
]
step l w (aborts i) = elim (nth i w.callers) [
  | none ↦ w
  | some c ↦ record w { callers = put i (abort_caller c) w.callers }
]
step l w (ends i) = elim (nth i w.callers) [
  | none ↦ w
  | some c ↦ if is_acting c.phase then end_caller w i c else w
]

abbrev pub idle : World
idle = record { slots = record { active = 0; per_key = [] }; callers = [] }

unfoldable pub run_events : Limits → World → List Event → World
run_events l w [] = w
run_events l w (e ∷ es) = run_events l (step l w e) es
