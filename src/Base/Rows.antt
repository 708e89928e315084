-- ===== src/Base/Rows.antt =====
-- Rows with a key: the keys stay distinct, and at most one row has a given one.
use Prim.Native.Nat.{ℕ, ◌+◌}
use mathlib.Core.Path.{◌≡◌, refl, ap, sym, subst}
use mathlib.Core.Logic.{◌≢◌, inl, inr}
use mathlib.Core.Bool.{Bool, false, ◌&&◌}
use mathlib.Core.Option.{some}
use mathlib.Core.List.{List, [], ◌∷◌, ◌++◌}
use native.Mathlib.Omega.{arith}
use foundry_agent_workspace.Base.Tests.{if◌then◌else◌, Bool-cases, ◌==◌, ==_iff}
use foundry_agent_workspace.Base.Lists.{
  length, filter, any, find, update, sum, All, Distinct, All-append, All-filter,
}

module _ {ℓ} {A : Type ℓ} (key : A → ℕ) where
  pub Distinct-append :
      (xs : List A) (y : A)
      → Distinct key xs
      → All (λ x. key x ≢ key y) xs
      → Distinct key (xs ++ y ∷ [])
  Distinct-append [] y d a = (tt, tt)
  Distinct-append (x ∷ xs) y (h, d) (n, a) = (
    All-append (λ z. key z ≢ key x) xs (y ∷ []) h ((λ e. n (sym e)), tt),
    Distinct-append xs y d a,
  )

  pub Distinct-filter : (p : A → Bool) (xs : List A) → Distinct key xs → Distinct key (filter p xs)
  Distinct-filter p [] d = tt
  Distinct-filter p (x ∷ xs) (h, d) =
      ground (arith, All-filter (λ y. key y ≢ key x) p xs h, Distinct-filter p xs d)

  pub All-of_not_any :
      (k : ℕ) (xs : List A) → any (λ x. key x == k) xs ≡ false → All (λ x. key x ≢ k) xs
  All-of_not_any k [] h = tt
  All-of_not_any k (x ∷ xs) h = ground (arith, All-of_not_any k xs)

  -- An update that keeps the keys keeps them distinct.
  pub All-update :
      (k : ℕ) (p : A → Bool) (g : A → A) (xs : List A)
      → ((x : A) → key (g x) ≡ key x)
      → All (λ x. key x ≢ k) xs
      → All (λ x. key x ≢ k) (update p g xs)
  All-update k p g [] same a = tt
  All-update k p g (x ∷ xs) same a = ground (arith, same x, All-update k p g xs same a.1)

  pub Distinct-update :
      (p : A → Bool) (g : A → A) (xs : List A)
      → ((x : A) → key (g x) ≡ key x)
      → Distinct key xs
      → Distinct key (update p g xs)
  Distinct-update p g [] same d = tt
  Distinct-update p g (x ∷ xs) same (h, d) =
      let e : key (if p x then g x else x) ≡ key x = ground (arith, same x) in
      (
        subst (λ k. All (λ y. key y ≢ k) (update p g xs)) (sym e)
            (All-update (key x) p g xs same h),
        Distinct-update p g xs same d,
      )

  -- One row at most has the key, so an update of that key changes one summand.
  pub update_absent :
      (k : ℕ) (g : A → A) (xs : List A)
      → All (λ x. key x ≢ k) xs
      → update (λ x. key x == k) g xs ≡ xs
  update_absent k g [] a = refl
  update_absent k g (x ∷ xs) a = ground (arith, update_absent k g xs a.1)

  pub sum-update :
      (f : A → ℕ) (k : ℕ) (g : A → A) (xs : List A) (r : A)
      → Distinct key xs
      → find (λ x. key x == k) xs ≡ some r
      → sum f (update (λ x. key x == k) g xs) + f r ≡ sum f xs + f (g r)
  sum-update f k g [] r d e = cc
  sum-update f k g (x ∷ xs) r (h, d) e = elim (Bool-cases (key x == k)) [
    | inl hit ↦
        let absent : All (λ y. key y ≢ k) xs =
          subst (λ k'. All (λ y. key y ≢ k') xs) ((==_iff (key x) k).0 hit) h in
        ground (arith, ap (sum f) (update_absent k g xs absent))
    | inr miss ↦ ground (arith, sum-update f k g xs r d)
  ]

  -- No row is selected when the one with the key fails the rest of the test.
  none_selected :
      (k : ℕ) (t : A → Bool) (xs : List A)
      → All (λ x. key x ≢ k) xs
      → length (filter (λ x. (key x == k) && t x) xs) ≡ 0
  none_selected k t [] a = refl
  none_selected k t (x ∷ xs) a = ground (arith, a.0, none_selected k t xs a.1)

  pub settled_count :
      (k : ℕ) (t : A → Bool) (xs : List A) (r : A)
      → Distinct key xs
      → find (λ x. key x == k) xs ≡ some r
      → t r ≡ false
      → length (filter (λ x. (key x == k) && t x) xs) ≡ 0
  settled_count k t [] r d found settled = absurd (cc)
  settled_count k t (x ∷ xs) r (h, d) found settled = elim (Bool-cases (key x == k)) [
    | inr miss ↦
        ground (arith, miss, settled_count k t xs r d (ground (arith, found, miss)) settled)
    | inl hit ↦
        let own : x ≡ r = ground (arith, found, hit) in
        let still : t x ≡ false = subst (λ y. t y ≡ false) (sym own) settled in
        let absent : All (λ y. key y ≢ k) xs =
          subst (λ j. All (λ y. key y ≢ j) xs) ((==_iff (key x) k).0 hit) h in
        ground (arith, hit, still, none_selected k t xs absent)
  ]
