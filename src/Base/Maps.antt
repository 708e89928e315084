-- ===== src/Base/Maps.antt =====
-- JavaScript's Map with numbers as keys, in insertion order, and an array's elements by index.
use Prim.Native.Nat.{ℕ, zero, suc, ◌+◌}
use mathlib.Core.Path.{◌≡◌, refl}
use mathlib.Core.Logic.{◌≢◌}
use mathlib.Core.Bool.{Bool, true, false}
use mathlib.Core.Option.{Option, none, some}
use mathlib.Core.List.{List, [], ◌∷◌}
use native.Mathlib.Omega.{arith}
use foundry_agent_workspace.Base.Tests.{if◌then◌else◌, ◌==◌}
use foundry_agent_workspace.Base.Lists.{All}

module _ {ℓ} {V : Type ℓ} where
  -- `map.get(k)`, `map.set(k, v)` and `map.delete(k)`.
  unfoldable pub get : ℕ → List (ℕ × V) → Option V
  get k [] = none
  get k ((j, v) ∷ m) = if j == k then some v else get k m

  unfoldable pub set : ℕ → V → List (ℕ × V) → List (ℕ × V)
  set k v [] = (k, v) ∷ []
  set k v ((j, w) ∷ m) = if j == k then (j, v) ∷ m else (j, w) ∷ set k v m

  unfoldable pub delete : ℕ → List (ℕ × V) → List (ℕ × V)
  delete k [] = []
  delete k ((j, v) ∷ m) = if j == k then delete k m else (j, v) ∷ delete k m

  pub get-set_same : (k : ℕ) (v : V) (m : List (ℕ × V)) → get k (set k v m) ≡ some v
  unfolding get set
  get-set_same k v [] = ground arith
  get-set_same k v ((j, w) ∷ m) = ground (arith, get-set_same k v m)

  pub get-set_other : (k j : ℕ) (v : V) (m : List (ℕ × V)) → j ≢ k → get j (set k v m) ≡ get j m
  unfolding get set
  get-set_other k j v [] n = ground arith
  get-set_other k j v ((i, w) ∷ m) n = ground (arith, get-set_other k j v m n)

  pub get-delete_same : (k : ℕ) (m : List (ℕ × V)) → get k (delete k m) ≡ none
  unfolding get delete
  get-delete_same k [] = refl
  get-delete_same k ((j, v) ∷ m) = ground (arith, get-delete_same k m)

  pub get-delete_other : (k j : ℕ) (m : List (ℕ × V)) → j ≢ k → get j (delete k m) ≡ get j m
  unfolding get delete
  get-delete_other k j [] n = refl
  get-delete_other k j ((i, w) ∷ m) n = ground (arith, get-delete_other k j m n)

abbrev pub bit : Bool → ℕ
bit true = 1
bit false = 0

module _ {ℓ} {A : Type ℓ} where
  unfoldable pub nth : ℕ → List A → Option A
  nth i [] = none
  nth zero (x ∷ xs) = some x
  nth (suc i) (x ∷ xs) = nth i xs

  unfoldable pub put : ℕ → A → List A → List A
  put i y [] = []
  put zero y (x ∷ xs) = y ∷ xs
  put (suc i) y (x ∷ xs) = x ∷ put i y xs

  abbrev pub count : (A → Bool) → List A → ℕ
  count p [] = 0
  count p (x ∷ xs) = bit (p x) + count p xs

  -- What replacing one element does to a count.
  pub count-put :
      (p : A → Bool) (i : ℕ) (x y : A) (xs : List A)
      → nth i xs ≡ some x
      → count p (put i y xs) + bit (p x) ≡ count p xs + bit (p y)
  unfolding nth put
  count-put p i x y [] h = absurd (cc)
  count-put p zero x y (z ∷ xs) h = ground arith
  count-put p (suc i) x y (z ∷ xs) h = omega (arith, count-put p i x y xs h)

  pub All-put {κ} :
      (P : A → Type κ) (i : ℕ) (y : A) (xs : List A) → P y → All P xs → All P (put i y xs)
  unfolding put
  All-put P i y [] h a = tt
  All-put P zero y (x ∷ xs) h a = (h, a.1)
  All-put P (suc i) y (x ∷ xs) h a = (a.0, All-put P i y xs h a.1)

  pub All-nth {κ} :
      (P : A → Type κ) (i : ℕ) (x : A) (xs : List A) → nth i xs ≡ some x → All P xs → P x
  unfolding nth
  All-nth P i x [] h a = absurd (cc)
  All-nth P zero x (z ∷ xs) h a = ground (arith, a.0)
  All-nth P (suc i) x (z ∷ xs) h a = All-nth P i x xs h a.1
