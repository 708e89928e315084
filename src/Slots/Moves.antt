-- ===== src/Slots/Moves.antt =====
-- The events of packages/runtime/src/execution-slots.ts as a relation between states: what an event
-- did, with the test that made it possible.
use foundry_agent_workspace.Base.{
  ℕ, ◌≡◌, refl, inl, inr, Bool, true, false, Option, some, [], ◌∷◌, ◌++◌, arith, Bool-cases,
  Option-cases, nth, put,
}
use foundry_agent_workspace.Slots.{
  Limits, blocked, enter, asleep, acting, thrown, Caller, new_caller, World, Event, arrives, tests,
  aborts, ends, is_acting, is_testing, at_phase, abort_caller, test_caller, end_caller, step,
}

pub data Move (l : Limits) (w w' : World) : Type 0 where
  stays : w' ≡ w → Move l w w'
  joins :
      (key : Option ℕ) (aborted : Bool)
      → w' ≡ record w { callers = w.callers ++ new_caller key aborted ∷ [] }
      → Move l w w'
  throws :
      (i : ℕ) (c : Caller)
      → nth i w.callers ≡ some c
      → is_testing c.phase ≡ true
      → c.aborted ≡ true
      → w' ≡ record w { callers = put i (at_phase thrown c) w.callers }
      → Move l w w'
  sleeps :
      (i : ℕ) (c : Caller)
      → nth i w.callers ≡ some c
      → is_testing c.phase ≡ true
      → c.aborted ≡ false
      → blocked l w.slots c.key ≡ true
      → w' ≡ record w { callers = put i (at_phase asleep c) w.callers }
      → Move l w w'
  enters :
      (i : ℕ) (c : Caller)
      → nth i w.callers ≡ some c
      → is_testing c.phase ≡ true
      → blocked l w.slots c.key ≡ false
      → w' ≡ record { slots = enter w.slots c.key; callers = put i (at_phase acting c) w.callers }
      → Move l w w'
  is_aborted :
      (i : ℕ) (c : Caller)
      → nth i w.callers ≡ some c
      → w' ≡ record w { callers = put i (abort_caller c) w.callers }
      → Move l w w'
  finishes :
      (i : ℕ) (c : Caller)
      → nth i w.callers ≡ some c
      → is_acting c.phase ≡ true
      → w' ≡ end_caller w i c
      → Move l w w'

test-Move :
    (l : Limits) (w w' : World) (i : ℕ) (c : Caller)
    → nth i w.callers ≡ some c
    → is_testing c.phase ≡ true
    → w' ≡ test_caller l w i c
    → Move l w w'
unfolding test_caller
test-Move l w w' i c found before e = elim (Bool-cases c.aborted) [
  | inl gone ↦ throws i c found before gone (ground (arith, e, gone))
  | inr live ↦ elim (Bool-cases (blocked l w.slots c.key)) [
    | inl full ↦ sleeps i c found before live full (ground (arith, e, live, full))
    | inr open_slot ↦ enters i c found before open_slot (ground (arith, e, live, open_slot))
  ]
]

-- Every event is a move.
pub step-Move : (l : Limits) (w : World) (e : Event) → Move l w (step l w e)
unfolding step
step-Move l w (arrives key aborted) = joins key aborted refl
step-Move l w (tests i) = elim (Option-cases (nth i w.callers)) [
  | inl missing ↦ stays (ground (arith, missing))
  | inr (c, found) ↦ elim (Bool-cases (is_testing c.phase)) [
    | inl before ↦
        test-Move l w (step l w (tests i)) i c found before (ground (arith, found, before))
    | inr elsewhere ↦ stays (ground (arith, found, elsewhere))
  ]
]
step-Move l w (aborts i) = elim (Option-cases (nth i w.callers)) [
  | inl missing ↦ stays (ground (arith, missing))
  | inr (c, found) ↦ is_aborted i c found (ground (arith, found))
]
step-Move l w (ends i) = elim (Option-cases (nth i w.callers)) [
  | inl missing ↦ stays (ground (arith, missing))
  | inr (c, found) ↦ elim (Bool-cases (is_acting c.phase)) [
    | inl before ↦ finishes i c found before (ground (arith, found, before))
    | inr elsewhere ↦ stays (ground (arith, found, elsewhere))
  ]
]
