-- ===== src/Slots/Counters.antt =====
-- The counters of packages/runtime/src/execution-slots.ts: what entering and leaving do to them.
use foundry_agent_workspace.Base.{
  ℕ, ◌+◌, ◌-◌, ◌≤◌, ◌≡◌, refl, inl, inr, Bool, false, ◌&&◌, Option, none, some, List, [], ◌∷◌, ◌++◌,
  ◌==◌, ==_iff, arith, Bool-cases, Option-cases, map, get, bit, count, get-set_same, get-set_other,
  get-delete_same, get-delete_other, subst,
}
use foundry_agent_workspace.Slots.{
  Slots, Limits, held_by, enter, next_count, leave, Caller, World, is_acting, wake,
}

abbrev pub has_key : ℕ → Option ℕ → Bool
has_key k none = false
has_key k (some j) = j == k

abbrev pub acts : Caller → Bool
acts c = is_acting c.phase

abbrev pub acts_on : ℕ → Caller → Bool
acts_on k c = is_acting c.phase && has_key k c.key

pub record Counted (l : Limits) (w : World) : Type 0 where
  pub active_counts : w.slots.active ≡ count acts w.callers
  pub key_counts : (k : ℕ) → held_by w.slots k ≡ count (acts_on k) w.callers
  pub active_bound : w.slots.active ≤ l.limit
  pub key_bound : (k : ℕ) → held_by w.slots k ≤ l.key_limit

pub enter-held :
    (s : Slots) (key : Option ℕ) (k : ℕ)
    → held_by (enter s key) k ≡ held_by s k + bit (has_key k key)
unfolding enter
enter-held s none k = omega arith
enter-held s (some j) k = elim (Bool-cases (j == k)) [
  | inl same ↦
      subst (λ i. held_by (enter s (some j)) i ≡ held_by s i + bit (j == i)) ((==_iff j k).0 same)
        (ground (arith, get-set_same j (held_by s j + 1) s.per_key))
  | inr other ↦
      ground (arith, other, get-set_other j k (held_by s j + 1) s.per_key (λ e. ground arith))
]

pub leave_same : (s : Slots) (j : ℕ) → held_by (leave s (some j)) j ≡ held_by s j - 1
unfolding leave
leave_same s j = elim (Option-cases (get j s.per_key)) [
  | inl missing ↦ ground (arith, missing, get-delete_same j s.per_key)
  | inr (n, found) ↦
      ground (arith, found, get-delete_same j s.per_key, get-set_same j (n - 1) s.per_key)
]

pub leave-held :
    (s : Slots) (key : Option ℕ) (k : ℕ)
    → held_by (leave s key) k ≡ held_by s k - bit (has_key k key)
unfolding leave
leave-held s none k = omega arith
leave-held s (some j) k = elim (Bool-cases (j == k)) [
  | inl same ↦
      subst (λ i. held_by (leave s (some j)) i ≡ held_by s i - bit (j == i)) ((==_iff j k).0 same)
        (ground (arith, leave_same s j))
  | inr other ↦ ground (
    arith,
    other,
    get-delete_other j k s.per_key (λ e. ground arith),
    get-set_other j k (next_count s j) s.per_key (λ e. ground arith),
  )
]

pub count-wake :
    (p : Caller → Bool) (cs : List Caller)
    → ((c : Caller) → p (wake c) ≡ p c)
    → count p (map wake cs) ≡ count p cs
count-wake p [] same = refl
count-wake p (c ∷ cs) same = ground (arith, same c, count-wake p cs same)

pub count-snoc :
    (p : Caller → Bool) (cs : List Caller) (c : Caller)
    → count p (cs ++ c ∷ []) ≡ count p cs + bit (p c)
count-snoc p [] c = omega arith
count-snoc p (d ∷ cs) c = omega (arith, count-snoc p cs c)

pub wake-acts : (c : Caller) → acts (wake c) ≡ acts c
wake-acts c = ground arith

pub wake-acts_on : (k : ℕ) (c : Caller) → acts_on k (wake c) ≡ acts_on k c
wake-acts_on k c = ground arith
