-- ===== src/Slots/Counts.antt =====
-- What the counters of packages/runtime/src/execution-slots.ts count, and the two limits.
use foundry_agent_workspace.Base.{
  ℕ, ◌+◌, ◌-◌, ◌≤◌, ◌<◌, ◌≡◌, refl, sym, inl, inr, Bool, true, false, Option, none, some, List, [],
  ◌∷◌, ◌++◌, ◌==◌, ==_iff, arith, Bool-cases, get, nth, put, bit, count, count-put, subst,
}
use foundry_agent_workspace.Slots.{
  Slots, Limits, held_by, blocked, enter, leave, asleep, acting, left, thrown, Caller, World, Event,
  is_acting, is_testing, at_phase, abort_caller, end_caller, step, idle, run_events, new_caller,
}
use foundry_agent_workspace.Slots.Moves.{
  Move, stays, joins, throws, sleeps, enters, is_aborted, finishes, step-Move,
}
use foundry_agent_workspace.Slots.Counters.{
  Counted, acts, acts_on, count-snoc, count-wake, enter-held, has_key, leave-held, wake-acts,
  wake-acts_on,
}

-- A caller that neither was nor becomes an acting one is replaced.
put-Counted :
    (l : Limits) (w : World) (i : ℕ) (c d : Caller)
    → nth i w.callers ≡ some c
    → acts c ≡ false
    → acts d ≡ false
    → Counted l w
    → Counted l (record w { callers = put i d w.callers })
put-Counted l w i c d found before after v = record {
  active_counts = ground (arith, v.active_counts, count-put acts i c d w.callers found);
  key_counts = λ k. ground (arith, v.key_counts k, count-put (acts_on k) i c d w.callers found);
  active_bound = v.active_bound;
  key_bound = v.key_bound;
}

unblocked-active :
    (l : Limits) (s : Slots) (key : Option ℕ) → blocked l s key ≡ false → s.active < l.limit
unfolding blocked
unblocked-active l s none open_slot = ground arith
unblocked-active l s (some k) open_slot = ground arith

unblocked-held :
    (l : Limits) (s : Slots) (key : Option ℕ) (k : ℕ)
    → blocked l s key ≡ false
    → held_by s k ≤ l.key_limit
    → held_by s k + bit (has_key k key) ≤ l.key_limit
unfolding blocked
unblocked-held l s none k open_slot h = omega (arith, h)
unblocked-held l s (some j) k open_slot h = elim (Bool-cases (j == k)) [
  | inl same ↦
      subst (λ i. held_by s i + bit (j == i) ≤ l.key_limit) ((==_iff j k).0 same) (ground arith)
  | inr other ↦ ground (arith, other, h)
]

pub enter-active : (s : Slots) (key : Option ℕ) → (enter s key).active ≡ s.active + 1
unfolding enter
enter-active s none = refl
enter-active s (some k) = refl

leave-active : (s : Slots) (key : Option ℕ) → (leave s key).active ≡ s.active - 1
unfolding leave
leave-active s none = refl
leave-active s (some k) = refl

enter-Counted :
    (l : Limits) (w : World) (i : ℕ) (c : Caller)
    → nth i w.callers ≡ some c
    → is_testing c.phase ≡ true
    → blocked l w.slots c.key ≡ false
    → Counted l w
    → Counted l
        (record { slots = enter w.slots c.key; callers = put i (at_phase acting c) w.callers })
enter-Counted l w i c found idle_before open_slot v = record {
  active_counts = ground (
    arith,
    v.active_counts,
    enter-active w.slots c.key,
    count-put acts i c (at_phase acting c) w.callers found,
  );
  key_counts = λ k. ground (
    arith,
    v.key_counts k,
    enter-held w.slots c.key k,
    count-put (acts_on k) i c (at_phase acting c) w.callers found,
  );
  active_bound =
      ground (arith, enter-active w.slots c.key, unblocked-active l w.slots c.key open_slot);
  key_bound = λ k. ground (
    arith,
    enter-held w.slots c.key k,
    unblocked-held l w.slots c.key k open_slot (v.key_bound k),
  );
}

end-Counted :
    (l : Limits) (w : World) (i : ℕ) (c : Caller)
    → nth i w.callers ≡ some c
    → is_acting c.phase ≡ true
    → Counted l w
    → Counted l (end_caller w i c)
unfolding end_caller
end-Counted l w i c found acting_before v = record {
  active_counts = ground (
    arith,
    v.active_counts,
    leave-active w.slots c.key,
    count-wake acts (put i (at_phase left c) w.callers) wake-acts,
    count-put acts i c (at_phase left c) w.callers found,
  );
  key_counts = λ k. ground (
    arith,
    v.key_counts k,
    leave-held w.slots c.key k,
    count-wake (acts_on k) (put i (at_phase left c) w.callers) (wake-acts_on k),
    count-put (acts_on k) i c (at_phase left c) w.callers found,
  );
  active_bound = ground (arith, v.active_bound, leave-active w.slots c.key);
  key_bound = λ k. ground (arith, v.key_bound k, leave-held w.slots c.key k);
}

abort-Counted :
    (l : Limits) (w : World) (i : ℕ) (c : Caller)
    → nth i w.callers ≡ some c
    → Counted l w
    → Counted l (record w { callers = put i (abort_caller c) w.callers })
abort-Counted l w i c found v = record {
  active_counts =
      ground (arith, v.active_counts, count-put acts i c (abort_caller c) w.callers found);
  key_counts = λ k.
      ground (arith, v.key_counts k, count-put (acts_on k) i c (abort_caller c) w.callers found);
  active_bound = v.active_bound;
  key_bound = v.key_bound;
}

arrive-Counted :
    (l : Limits) (w : World) (key : Option ℕ) (aborted : Bool)
    → Counted l w
    → Counted l (record w { callers = w.callers ++ new_caller key aborted ∷ [] })
arrive-Counted l w key aborted v = record {
  active_counts =
      omega (arith, v.active_counts, count-snoc acts w.callers (new_caller key aborted));
  key_counts =
      λ k. omega (arith, v.key_counts k, count-snoc (acts_on k) w.callers (new_caller key aborted));
  active_bound = v.active_bound;
  key_bound = v.key_bound;
}

Move-Counted : (l : Limits) (w w' : World) → Move l w w' → Counted l w → Counted l w'
Move-Counted l w w' (stays e) v = subst (Counted l) (sym e) v
Move-Counted l w w' (joins key aborted e) v =
    subst (Counted l) (sym e) (arrive-Counted l w key aborted v)
Move-Counted l w w' (throws i c found before gone e) v =
    subst (Counted l) (sym e)
      (put-Counted l w i c (at_phase thrown c) found (ground (arith, before)) refl v)
Move-Counted l w w' (sleeps i c found before live full e) v =
    subst (Counted l) (sym e)
      (put-Counted l w i c (at_phase asleep c) found (ground (arith, before)) refl v)
Move-Counted l w w' (enters i c found before open_slot e) v =
    subst (Counted l) (sym e) (enter-Counted l w i c found before open_slot v)
Move-Counted l w w' (is_aborted i c found e) v =
    subst (Counted l) (sym e) (abort-Counted l w i c found v)
Move-Counted l w w' (finishes i c found before e) v =
    subst (Counted l) (sym e) (end-Counted l w i c found before v)

run_events-Counted :
    (l : Limits) (w : World) (es : List Event) → Counted l w → Counted l (run_events l w es)
unfolding run_events
run_events-Counted l w [] v = v
run_events-Counted l w (e ∷ es) v =
    run_events-Counted l (step l w e) es (Move-Counted l w (step l w e) (step-Move l w e) v)

idle-Counted : (l : Limits) → Counted l idle
unfolding get
idle-Counted l = record {
  active_counts = refl;
  key_counts = λ k. refl;
  active_bound = omega arith;
  key_bound = λ k. omega arith;
}

-- Whatever callers arrive, abort and end, and in whatever order they are run, no more actions are
-- running than the limit, and no more on one key than the key's limit.
pub acting_bound :
    (l : Limits) (es : List Event) (k : ℕ)
    → let w = run_events l idle es in
      (count acts w.callers ≤ l.limit) × (count (acts_on k) w.callers ≤ l.key_limit)
acting_bound l es k =
    let v = run_events-Counted l idle es (idle-Counted l) in
    (
      subst (λ n. n ≤ l.limit) v.active_counts v.active_bound,
      subst (λ n. n ≤ l.key_limit) (v.key_counts k) (v.key_bound k),
    )
