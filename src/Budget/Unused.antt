-- ===== src/Budget/Unused.antt =====
-- How the unspent part of the held allocations moves when a run's use moves. The sums are those of
-- `totals` in packages/runtime/src/budget-ledger.ts.
use foundry_agent_workspace.Base.{
  ℕ, ◌+◌, ◌-◌, ◌≤◌, ◌≡◌, ◌≢◌, refl, true, List, [], ◌∷◌, ◌++◌, ◌==◌, some, if◌then◌else◌, arith,
  find, All, Distinct, subst, sum-append,
}
use foundry_agent_workspace.Accounts.{Hold, Reservation}
use foundry_agent_workspace.Budget.Tallies.{unused, used_by, exposure_by}

pub used_by-append :
    (rows : List Reservation) (r : Reservation) (k : ℕ)
    → used_by (rows ++ r ∷ []) k ≡ used_by rows k + exposure_by k r
unfolding used_by
used_by-append rows r k = omega (arith, sum-append (exposure_by k) rows (r ∷ []))

pub unused-append :
    (u : ℕ → ℕ) (hs : List Hold) (h : Hold)
    → unused u (hs ++ h ∷ []) ≡ unused u hs + (if h.held then h.amount - u h.child_task_id else 0)
unfolding unused
unused-append u [] h = omega arith
unused-append u (x ∷ hs) h = omega (arith, unused-append u hs h)

module _ (u v : ℕ → ℕ) where
  pub unused_mono : (hs : List Hold) → ((k : ℕ) → u k ≤ v k) → unused v hs ≤ unused u hs
  unfolding unused
  unused_mono [] le = omega arith
  unused_mono (h ∷ hs) le = ground (arith, unused_mono hs le, le h.child_task_id)

  pub unused_ext : (hs : List Hold) → ((k : ℕ) → v k ≡ u k) → unused v hs ≡ unused u hs
  unfolding unused
  unused_ext [] same = refl
  unused_ext (h ∷ hs) same = ground (arith, unused_ext hs same, same h.child_task_id)

  -- A child that spends `a` more inside its hold takes `a` from what is unused, or more if several
  -- holds name the child.
  pub unused_spend-le :
      (c a : ℕ) (hs : List Hold) (h : Hold)
      → ((k : ℕ) → v k ≡ u k + (if c == k then a else 0))
      → find (λ x. x.child_task_id == c) hs ≡ some h
      → h.held ≡ true
      → u c + a ≤ h.amount
      → unused v hs + a ≤ unused u hs
  unfolding unused
  unused_spend-le c a [] h step e held room = cc
  unused_spend-le c a (x ∷ hs) h step e held room = ground (
    arith,
    unused_spend-le c a hs h step,
    step x.child_task_id,
    unused_mono hs (λ k. ground (arith, step k)),
  )

  unused_absent :
      (c : ℕ) (hs : List Hold)
      → ((k : ℕ) → c ≢ k → v k ≡ u k)
      → All (λ x. x.child_task_id ≢ c) hs
      → unused v hs ≡ unused u hs
  unfolding unused
  unused_absent c [] same a = refl
  unused_absent c (x ∷ hs) same a =
      ground (arith, unused_absent c hs same a.1, same x.child_task_id)

  -- Behind the one hold of a child nothing moves.
  only_hold :
      (c : ℕ) (x : Hold) (hs : List Hold)
      → ((k : ℕ) → c ≢ k → v k ≡ u k)
      → Distinct (λ y. y.child_task_id) (x ∷ hs)
      → x.child_task_id ≡ c
      → unused v hs ≡ unused u hs
  only_hold c x hs same d e =
      unused_absent c hs same (subst (λ k. All (λ y. y.child_task_id ≢ k) hs) e d.0)

  -- With one hold for each child, exactly `a`.
  pub unused_spend :
      (c a : ℕ) (hs : List Hold) (h : Hold)
      → ((k : ℕ) → v k ≡ u k + (if c == k then a else 0))
      → Distinct (λ x. x.child_task_id) hs
      → find (λ x. x.child_task_id == c) hs ≡ some h
      → h.held ≡ true
      → u c + a ≤ h.amount
      → unused v hs + a ≡ unused u hs
  unfolding unused
  unused_spend c a [] h step d e held room = cc
  unused_spend c a (x ∷ hs) h step d e held room = ground (
    arith,
    unused_spend c a hs h step d.1,
    step x.child_task_id,
    only_hold c x hs (λ k n. ground (arith, step k)) d,
  )

  -- A run that gives `d` back returns at most `d` to its one hold.
  pub unused_return-le :
      (c d : ℕ) (hs : List Hold)
      → ((k : ℕ) → u k ≤ v k + (if c == k then d else 0))
      → ((k : ℕ) → c ≢ k → v k ≡ u k)
      → Distinct (λ x. x.child_task_id) hs
      → unused v hs ≤ unused u hs + d
  unfolding unused
  unused_return-le c d [] step same di = omega arith
  unused_return-le c d (x ∷ hs) step same di = ground (
    arith,
    unused_return-le c d hs step same di.1,
    step x.child_task_id,
    same x.child_task_id,
    only_hold c x hs same di,
  )
