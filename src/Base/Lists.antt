-- ===== src/Base/Lists.antt =====
-- Lists measured by native numbers and walked by Boolean predicates, as JavaScript's arrays and
-- SQL's rows are.
use Prim.Native.Nat.{ℕ, suc, ◌+◌, ◌≤◌}
use mathlib.Core.Path.{◌≡◌, refl, sym, subst}
use mathlib.Core.Logic.{◌≢◌, inl, inr}
use mathlib.Core.Bool.{Bool, true, false, ◌&&◌, ◌||◌}
use mathlib.Core.Option.{Option, none, some}
use mathlib.Core.List.{List, [], ◌∷◌, ◌++◌, Memᴰ}
use native.Mathlib.Omega.{arith}
use foundry_agent_workspace.Base.Tests.{if◌then◌else◌, Bool-cases}

module _ {ℓ} {A : Type ℓ} where
  abbrev pub length : List A → ℕ
  length [] = 0
  length (x ∷ xs) = suc (length xs)

  -- `filter`, `some`, `every` and `find` of an array.
  abbrev pub filter : (A → Bool) → List A → List A
  filter p [] = []
  filter p (x ∷ xs) = if p x then x ∷ filter p xs else filter p xs

  abbrev pub any : (A → Bool) → List A → Bool
  any p [] = false
  any p (x ∷ xs) = p x || any p xs

  abbrev pub all : (A → Bool) → List A → Bool
  all p [] = true
  all p (x ∷ xs) = p x && all p xs

  abbrev pub find : (A → Bool) → List A → Option A
  find p [] = none
  find p (x ∷ xs) = if p x then some x else find p xs

  -- UPDATE with a WHERE clause: every row that the test selects is rewritten.
  abbrev pub update : (A → Bool) → (A → A) → List A → List A
  update p f [] = []
  update p f (x ∷ xs) = (if p x then f x else x) ∷ update p f xs

  abbrev pub sum : (A → ℕ) → List A → ℕ
  sum f [] = 0
  sum f (x ∷ xs) = f x + sum f xs

  abbrev pub All {κ} : (A → Type κ) → List A → Type κ
  All P [] = Unit
  All P (x ∷ xs) = P x × All P xs

  -- No two rows share a key, as a PRIMARY KEY or UNIQUE column states.
  abbrev pub Distinct : (A → ℕ) → List A → Type 0
  Distinct key [] = Unit
  Distinct key (x ∷ xs) = All (λ y. key y ≢ key x) xs × Distinct key xs

module _ {ℓ} {A : Type ℓ} where
  pub length-append : (xs ys : List A) → length (xs ++ ys) ≡ length xs + length ys
  length-append [] ys = omega arith
  length-append (x ∷ xs) ys = omega (arith, length-append xs ys)

  pub length-filter-le : (p : A → Bool) (xs : List A) → length (filter p xs) ≤ length xs
  length-filter-le p [] = omega arith
  length-filter-le p (x ∷ xs) = ground (arith, length-filter-le p xs)

  pub filter-append :
      (p : A → Bool) (xs ys : List A) → filter p (xs ++ ys) ≡ filter p xs ++ filter p ys
  filter-append p [] ys = refl
  filter-append p (x ∷ xs) ys = ground (arith, filter-append p xs ys)

  pub find-test : (p : A → Bool) (xs : List A) (x : A) → find p xs ≡ some x → p x ≡ true
  find-test p [] x h = cc
  find-test p (y ∷ xs) x h = ground (arith, find-test p xs x)

  pub find-append :
      (p : A → Bool) (xs ys : List A) (x : A) → find p xs ≡ some x → find p (xs ++ ys) ≡ some x
  find-append p [] ys x h = cc
  find-append p (y ∷ xs) ys x h = ground (arith, find-append p xs ys x)

  -- An update that leaves the row found alone, and keeps the test, keeps it found.
  pub find-update_off :
      (p q : A → Bool) (g : A → A) (xs : List A) (x : A)
      → ((y : A) → p (g y) ≡ p y)
      → q x ≡ false
      → find p xs ≡ some x
      → find p (update q g xs) ≡ some x
  find-update_off p q g [] x same off found = absurd (cc)
  find-update_off p q g (y ∷ xs) x same off found = elim (Bool-cases (p y)) [
    | inl hit ↦
        let own : y ≡ x = ground (arith, found, hit) in
        let still : q y ≡ false = subst (λ z. q z ≡ false) (sym own) off in
        ground (arith, found, hit, still)
    | inr miss ↦ ground (arith, found, miss, same y, find-update_off p q g xs x same off)
  ]

  -- A test that selects no row changes none.
  pub update_none :
      (q : A → Bool) (g : A → A) (xs : List A) → length (filter q xs) ≡ 0 → update q g xs ≡ xs
  update_none q g [] none_left = refl
  update_none q g (x ∷ xs) none_left = elim (Bool-cases (q x)) [
    | inl hit ↦ absurd (ground (arith, hit, none_left))
    | inr miss ↦ ground (arith, miss, update_none q g xs (ground (arith, miss, none_left)))
  ]

  pub any_none : (q : A → Bool) (xs : List A) → length (filter q xs) ≡ 0 → any q xs ≡ false
  any_none q [] none_left = refl
  any_none q (x ∷ xs) none_left = elim (Bool-cases (q x)) [
    | inl hit ↦ absurd (ground (arith, hit, none_left))
    | inr miss ↦ ground (arith, miss, any_none q xs (ground (arith, miss, none_left)))
  ]

  pub find-mem : (p : A → Bool) (xs : List A) (x : A) → find p xs ≡ some x → Memᴰ x xs
  find-mem p [] x h = absurd (cc)
  find-mem p (y ∷ xs) x h = elim (Bool-cases (p y)) [
    | inl e ↦ Memᴰ.head (ground arith)
    | inr e ↦ Memᴰ.tail (find-mem p xs x (ground arith))
  ]

  pub any_of_mem : (p : A → Bool) (xs : List A) {x : A} → Memᴰ x xs → p x ≡ true → any p xs ≡ true
  any_of_mem p [] m h = elim m [ ]
  any_of_mem p (y ∷ xs) (Memᴰ.head e) h = ground arith
  any_of_mem p (y ∷ xs) (Memᴰ.tail m) h = ground (arith, any_of_mem p xs m h)

  pub any_witness :
      (p : A → Bool) (xs : List A) → any p xs ≡ true → (x : A) × Memᴰ x xs × (p x ≡ true)
  any_witness p [] h = absurd (cc)
  any_witness p (y ∷ xs) h = elim (Bool-cases (p y)) [
    | inl e ↦ (y, Memᴰ.head refl, e)
    | inr e ↦ let (x, m, e') = any_witness p xs (ground arith) in (x, Memᴰ.tail m, e')
  ]

  pub All-append {κ} : (P : A → Type κ) (xs ys : List A) → All P xs → All P ys → All P (xs ++ ys)
  All-append P [] ys hx hy = hy
  All-append P (x ∷ xs) ys hx hy = (hx.0, All-append P xs ys hx.1 hy)

  pub All-filter {κ} :
      (P : A → Type κ) (p : A → Bool) (xs : List A) → All P xs → All P (filter p xs)
  All-filter P p [] h = tt
  All-filter P p (x ∷ xs) h = ground (arith, All-filter P p xs h.1)

module _ {ℓ} {A : Type ℓ} (f : A → ℕ) where
  pub sum-append : (xs ys : List A) → sum f (xs ++ ys) ≡ sum f xs + sum f ys
  sum-append [] ys = omega arith
  sum-append (x ∷ xs) ys = omega (arith, sum-append xs ys)

  pub sum-filter :
      (p : A → Bool) (xs : List A) → sum f (filter p xs) ≡ sum (λ x. if p x then f x else 0) xs
  sum-filter p [] = refl
  sum-filter p (x ∷ xs) = ground (arith, sum-filter p xs)
