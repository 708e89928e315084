-- ===== src/Git/Scoped.antt =====
-- What prepareHandoff of packages/runtime/src/git-operations.ts has tested of the paths that it
-- returns: the lists and maps that the tests walk. Scoped/Approval and Scoped/Case
-- hold what follows, Scoped/Bounded is about the patch.
pub mod Approval
pub mod Case
pub mod Bounded
use foundry_agent_workspace.Base.{
  arith, ◌≡◌, ◌≢◌, ◌⊎◌, inl, inr, refl, sym, subst, ap, Bool, true, false, Option, none, some, List,
  [], ◌∷◌, map, Memᴰ, Text, text_eq, text_eq_iff, text_eq_refl, eq_of_text_eq, if◌then◌else◌,
  Bool-cases, All,
}
use foundry_agent_workspace.Git.Texts.{insert_by, sort_by}
use foundry_agent_workspace.Git.Manifests.{get_text, set_text}

pub All-mem {ℓ} : {A : Type 0} (P : A → Type ℓ) (x : A) (xs : List A) → All P xs → Memᴰ x xs → P x
All-mem P x [] a m = elim m [ ]
All-mem P x (y ∷ ys) a (Memᴰ.head e) = subst P (sym e) a.0
All-mem P x (y ∷ ys) a (Memᴰ.tail m) = All-mem P x ys a.1 m

pub All-of_mem :
    {A : Type 0} (P : A → Type 0) (xs : List A) → ((x : A) → Memᴰ x xs → P x) → All P xs
All-of_mem P [] h = tt
All-of_mem P (x ∷ xs) h = (h x (Memᴰ.head refl), All-of_mem P xs (λ y m. h y (Memᴰ.tail m)))

module _ {A : Type 0} (le : A → A → Bool) where
  pub All-insert :
      (P : A → Type 0) (x : A) (xs : List A) → P x → All P xs → All P (insert_by le x xs)
  unfolding insert_by
  All-insert P x [] h a = (h, tt)
  All-insert P x (y ∷ ys) h (b, bs) = ground (arith, All-insert P x ys h bs)

  pub All-sort : (P : A → Type 0) (xs : List A) → All P xs → All P (sort_by le xs)
  unfolding sort_by
  All-sort P [] a = tt
  All-sort P (x ∷ xs) (h, a) = All-insert P x (sort_by le xs) h (All-sort P xs a)

module _ {V : Type 0} where
  pub get_text-set_text :
      (k j : Text) (v : V) (m : List (Text × V))
      → get_text j (set_text k v m) ≡ (if text_eq k j then some v else get_text j m)
  unfolding get_text set_text
  get_text-set_text k j v [] = refl
  get_text-set_text k j v ((i, w) ∷ m) =
      ground (arith, text_eq_iff k j, text_eq_iff i k, text_eq_iff i j, get_text-set_text k j v m)

  -- What a map gives for a key is one of its entries.
  pub mem_of_get_text :
      (k : Text) (v : V) (m : List (Text × V)) → get_text k m ≡ some v → Memᴰ (k, v) m
  unfolding get_text
  mem_of_get_text k v [] e = absurd (cc)
  mem_of_get_text k v ((j, w) ∷ m) e = elim (Bool-cases (text_eq j k)) [
    | inl hit ↦
        let same : j ≡ k = eq_of_text_eq j k hit in
        let value : w ≡ v = ground (arith, e, hit) in Memᴰ.head (λ i. (sym same i, sym value i))
    | inr miss ↦ Memᴰ.tail (mem_of_get_text k v m (ground (arith, e, miss)))
  ]

  -- Every key of a list of pairs has a value.
  pub get_text_of_mem :
      (k : Text) (m : List (Text × V))
      → Memᴰ k (map (λ (e : Text × V). e.0) m)
      → (v : V) × (get_text k m ≡ some v)
  unfolding get_text
  get_text_of_mem k [] h = elim h [ ]
  get_text_of_mem k ((j, w) ∷ m) h = elim (Bool-cases (text_eq j k)) [
    | inl hit ↦ (w, ground (arith, hit))
    | inr miss ↦ elim h [
      | Memᴰ.head e ↦ absurd (ground (arith, e, miss, text_eq_refl j))
      | Memᴰ.tail h' ↦ let (v, found) = get_text_of_mem k m h' in (v, ground (arith, miss, found))
    ]
  ]
