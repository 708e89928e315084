-- ===== src/Waits/Tests.antt =====
-- One wait through the wait_operations methods of
-- packages/runtime/src/orchestration-records.ts.
use foundry_agent_workspace.Base.{◌≡◌, refl, true, false, some, [], ◌∷◌, ok, err}
use foundry_agent_workspace.Waits.{
  WaitRecord, delivered, cancelled, new_wait, wait, wait_for_call, insert_wait, deliver_wait,
  cancel_waits, constraint,
}
use foundry_agent_workspace.Waits.Delivery.{
  inserts, cancels, delivers, step, steps, deliver_wait_once, insert_wait_idem,
}

waits : Unit {0}
unfolding wait wait_for_call insert_wait deliver_wait cancel_waits step steps
waits = tt

abbrev first : WaitRecord
first = new_wait 1 10 10 1 77 (50 ∷ [])

abbrev second : WaitRecord
second = new_wait 2 10 10 1 77 []

abbrev answered : WaitRecord
answered = record first { state = delivered; result = some 9 }

scenario :
    (insert_wait [] first ≡ ok (first ∷ [], first))
    × (insert_wait (first ∷ []) (new_wait 1 10 10 1 78 []) ≡ err constraint)
    × (deliver_wait (first ∷ []) 1 9 ≡ (answered ∷ [], true))
    × (cancel_waits (first ∷ []) 10 ≡ record first { state = cancelled } ∷ [])
unfolding waits
scenario = (refl, refl, refl, refl)

deliver_wait_once_example :
    (wait (answered ∷ []) 1 ≡ some answered)
    × ((deliver_wait (answered ∷ []) 1 3).1 ≡ false)
    × (wait (deliver_wait (answered ∷ []) 1 3).0 1 ≡ some answered)
unfolding waits
deliver_wait_once_example =
    deliver_wait_once (answered ∷ []) (cancels 10 ∷ delivers 1 4 ∷ inserts second ∷ []) 1 answered 3
      (tt, tt) refl refl

insert_wait_idem_example : insert_wait (first ∷ []) second ≡ ok (first ∷ [], first)
unfolding waits
insert_wait_idem_example = insert_wait_idem [] (first ∷ []) first first second refl refl refl
