-- ===== src/Slots/Waking.antt =====
-- Waking of the callers of packages/runtime/src/execution-slots.ts.
use foundry_agent_workspace.Base.{
  ℕ, ◌≡◌, sym, subst, true, false, Option, none, some, List, [], ◌∷◌, arith, map, put, All,
  All-append, All-put,
}
use foundry_agent_workspace.Slots.{
  Slots, Limits, blocked, enter, leave, asleep, acting, left, thrown, Caller, World, Event,
  is_asleep, at_phase, wake, abort_caller, end_caller, step, idle, run_events, new_caller,
}
use foundry_agent_workspace.Slots.Moves.{
  Move, stays, joins, throws, sleeps, enters, is_aborted, finishes, step-Move,
}
use foundry_agent_workspace.Slots.Counters.{enter-held}
use foundry_agent_workspace.Slots.Counts.{enter-active}

-- A caller that sleeps is not aborted, and its test would fail again.
abbrev pub RightlyAsleep : Limits → Slots → Caller → Type 0
RightlyAsleep l s c = is_asleep c.phase ≡ true → (c.aborted ≡ false) × (blocked l s c.key ≡ true)

-- Entering blocks no less than before.
blocked-enter :
    (l : Limits) (s : Slots) (entering key : Option ℕ)
    → blocked l s key ≡ true
    → blocked l (enter s entering) key ≡ true
unfolding blocked
blocked-enter l s entering none full = ground (arith, enter-active s entering)
blocked-enter l s entering (some k) full =
    ground (arith, enter-active s entering, enter-held s entering k)

enter-RightlyAsleep :
    (l : Limits) (s : Slots) (entering : Option ℕ) (cs : List Caller)
    → All (RightlyAsleep l s) cs
    → All (RightlyAsleep l (enter s entering)) cs
enter-RightlyAsleep l s entering [] a = tt
enter-RightlyAsleep l s entering (c ∷ cs) (h, a) = (
  λ sleeps. ((h sleeps).0, blocked-enter l s entering c.key (h sleeps).1),
  enter-RightlyAsleep l s entering cs a,
)

woken : (l : Limits) (s : Slots) (cs : List Caller) → All (RightlyAsleep l s) (map wake cs)
woken l s [] = tt
woken l s (c ∷ cs) = (λ sleeps. absurd (ground (arith, sleeps)), woken l s cs)

abbrev AllRightlyAsleep : Limits → World → Type 0
AllRightlyAsleep l w = All (RightlyAsleep l w.slots) w.callers

Move-RightlyAsleep :
    (l : Limits) (w w' : World) → Move l w w' → AllRightlyAsleep l w → AllRightlyAsleep l w'
unfolding end_caller
Move-RightlyAsleep l w w' (stays e) a = subst (AllRightlyAsleep l) (sym e) a
Move-RightlyAsleep l w w' (joins key aborted e) a = subst (AllRightlyAsleep l) (sym e) (
    All-append (RightlyAsleep l w.slots) w.callers (new_caller key aborted ∷ []) a
      ((λ s. absurd (cc)), tt))
Move-RightlyAsleep l w w' (throws i c found before gone e) a =
    subst (AllRightlyAsleep l) (sym e)
      (All-put (RightlyAsleep l w.slots) i (at_phase thrown c) w.callers (λ s. absurd (cc)) a)
Move-RightlyAsleep l w w' (sleeps i c found before live full e) a =
    subst (AllRightlyAsleep l) (sym e)
      (All-put (RightlyAsleep l w.slots) i (at_phase asleep c) w.callers (λ s. (live, full)) a)
Move-RightlyAsleep l w w' (enters i c found before open_slot e) a =
    subst (AllRightlyAsleep l) (sym e) (
      All-put (RightlyAsleep l (enter w.slots c.key)) i (at_phase acting c) w.callers
        (λ s. absurd (cc)) (enter-RightlyAsleep l w.slots c.key w.callers a))
Move-RightlyAsleep l w w' (is_aborted i c found e) a = subst (AllRightlyAsleep l) (sym e) (
    All-put (RightlyAsleep l w.slots) i (abort_caller c) w.callers (λ s. absurd (ground (arith, s)))
      a)
Move-RightlyAsleep l w w' (finishes i c found before e) a =
    subst (AllRightlyAsleep l) (sym e)
      (woken l (leave w.slots c.key) (put i (at_phase left c) w.callers))

run_events-RightlyAsleep :
    (l : Limits) (w : World) (es : List Event)
    → All (RightlyAsleep l w.slots) w.callers
    → let w' = run_events l w es in All (RightlyAsleep l w'.slots) w'.callers
unfolding run_events
run_events-RightlyAsleep l w [] a = a
run_events-RightlyAsleep l w (e ∷ es) a =
    run_events-RightlyAsleep l (step l w e) es
      (Move-RightlyAsleep l w (step l w e) (step-Move l w e) a)

-- No wake-up is lost: whatever has happened, a caller that sleeps is one whose signal is not
-- aborted and for which there is no slot now.
pub asleep_blocked :
    (l : Limits) (es : List Event)
    → let w = run_events l idle es in All (RightlyAsleep l w.slots) w.callers
asleep_blocked l es = run_events-RightlyAsleep l idle es tt
