-- ===== src/Git/Scoped/Case.antt =====
-- The test of prepareHandoff in packages/runtime/src/git-operations.ts that no two changed paths
-- differ only by case, and what it means for the paths of a prepared handoff.
use foundry_agent_workspace.Base.{
  arith, ◌≡◌, ◌≢◌, ◌∙◌, ◌⊎◌, inl, inr, refl, sym, subst, ap, true, not, Option, none, some, List,
  [], ◌∷◌, map, Memᴰ, Text, text_eq, text_eq_iff, eq_of_text_eq, Bool-cases, All, lower, ok,
}
use foundry_agent_workspace.Git.{Host, Session}
use foundry_agent_workspace.Git.Texts.{path_le, insert_by, sort_by}
use foundry_agent_workspace.Git.Manifests.{get_text, set_text}
use foundry_agent_workspace.Git.Inspection.{ChangedPath}
use foundry_agent_workspace.Git.Handoff.{
  HandoffInput, PreparedHandoff, check_case, clashes, approved_changes, prepare_handoff, key_of,
  group_paths,
}
use foundry_agent_workspace.Git.Running.{
  Ends, Ends-bind, Ends-step, Ends-pure, Ends-guarded_none, bind-ok, check-ok,
}
use foundry_agent_workspace.Git.Scoped.{
  get_text-set_text, All-mem, All-of_mem, All-insert, All-sort,
}

-- A remembered path is empty or the path itself.
abbrev Agrees : Option Text → Text → Type 0
Agrees none q = Unit
Agrees (some e) q = (e ≡ []) ⊎ (e ≡ q)

not-clashes : (o : Option Text) (q : Text) → not (clashes o q) ≡ true → Agrees o q
not-clashes none q h = tt
not-clashes (some []) q h = inl refl
not-clashes (some (c ∷ e)) q h = inr (ground (arith, h, text_eq_iff (c ∷ e) q))

Agrees-trans : (o : Option Text) (p q : Text) → Agrees o p → Agrees (some p) q → Agrees o q
Agrees-trans none p q h h' = tt
Agrees-trans (some e) p q (inl blank) h' = inl blank
Agrees-trans (some e) p q (inr same) (inl blank) = inl (same ∙ blank)
Agrees-trans (some e) p q (inr same) (inr same') = inr (same ∙ same')

Agrees-set :
    (p q : Text) (seen : List (Text × Text))
    → Agrees (get_text (lower p) seen) p
    → Agrees (get_text (lower q) (set_text (lower p) p seen)) q
    → Agrees (get_text (lower q) seen) q
Agrees-set p q seen h h' =
    let law = get_text-set_text (lower p) (lower q) p seen in
    elim (Bool-cases (text_eq (lower p) (lower q))) [
      | inl hit ↦
          let found : get_text (lower q) (set_text (lower p) p seen) ≡ some p = law ∙ rw hit in
          let keyed : get_text (lower p) seen ≡ get_text (lower q) seen =
            ap (λ k. get_text k seen) (eq_of_text_eq (lower p) (lower q) hit) in
          Agrees-trans (get_text (lower q) seen) p q (subst (λ o. Agrees o p) keyed h)
            (subst (λ o. Agrees o q) found h')
      | inr miss ↦ subst (λ o. Agrees o q) (law ∙ rw miss) h'
    ]

All-imp :
    {A : Type 0} (P Q : A → Type 0) (xs : List A) → ((x : A) → P x → Q x) → All P xs → All Q xs
All-imp P Q [] f a = tt
All-imp P Q (x ∷ xs) f (h, a) = (f x h, All-imp P Q xs f a)

empty_of_lower : (b : Text) → lower b ≡ [] → b ≡ []
unfolding lower
empty_of_lower [] e = refl
empty_of_lower (c ∷ b) e = absurd (cc)

module _ {W : Type 0} where
  first_rest :
      (p : Text) (ps : List Text) (seen : List (Text × Text)) (s t : Session W)
      → check_case seen (p ∷ ps) s ≡ (ok tt, t)
      → Agrees (get_text (lower p) seen) p
        × (u : Session W) × (check_case (set_text (lower p) p seen) ps u ≡ (ok tt, t))
  unfolding check_case
  first_rest p ps seen s t e =
      let (x, u, e1, e2) = bind-ok _ _ s t tt e in
      (not-clashes (get_text (lower p) seen) p (check-ok _ _ _ s u e1), u, e2)

  case_seen :
      (paths : List Text) (seen : List (Text × Text)) (s t : Session W)
      → check_case seen paths s ≡ (ok tt, t)
      → All (λ q. Agrees (get_text (lower q) seen) q) paths
  case_seen [] seen s t e = tt
  case_seen (p ∷ ps) seen s t e =
      let (first, u, rest) = first_rest p ps seen s t e in
      (
        first,
        All-imp (λ q. Agrees (get_text (lower q) (set_text (lower p) p seen)) q)
            (λ q. Agrees (get_text (lower q) seen) q) ps (λ q. Agrees-set p q seen first)
            (case_seen ps (set_text (lower p) p seen) u t rest),
      )

  -- A path and a later one with the same lower case.
  head_case :
      (p b : Text) (ps : List Text) (seen : List (Text × Text)) (s t : Session W)
      → check_case seen (p ∷ ps) s ≡ (ok tt, t)
      → Memᴰ b ps
      → lower p ≡ lower b
      → p ≡ b
  unfolding lower
  head_case p b ps seen s t e m same =
      let (first, u, rest) = first_rest p ps seen s t e in
      let found : get_text (lower b) (set_text (lower p) p seen) ≡ some p =
        get_text-set_text (lower p) (lower b) p seen
        ∙ rw ((text_eq_iff (lower p) (lower b)).1 same) in
      elim (subst (λ o. Agrees o b) found
        (All-mem (λ q. Agrees (get_text (lower q) (set_text (lower p) p seen)) q) b ps
          (case_seen ps (set_text (lower p) p seen) u t rest) m)) [
            | inl blank ↦ blank ∙ sym (empty_of_lower b (sym same ∙ ap lower blank))
            | inr equal ↦ equal
          ]

  case_pairs :
      (paths : List Text) (seen : List (Text × Text)) (s t : Session W) (a b : Text)
      → check_case seen paths s ≡ (ok tt, t)
      → Memᴰ a paths
      → Memᴰ b paths
      → lower a ≡ lower b
      → a ≡ b
  case_pairs [] seen s t a b e ma mb same = elim ma [ ]
  case_pairs (p ∷ ps) seen s t a b e (Memᴰ.head ea) (Memᴰ.head eb) same = ea ∙ sym eb
  case_pairs (p ∷ ps) seen s t a b e (Memᴰ.head ea) (Memᴰ.tail mb) same =
      ea ∙ head_case p b ps seen s t e mb (ap lower (sym ea) ∙ same)
  case_pairs (p ∷ ps) seen s t a b e (Memᴰ.tail ma) (Memᴰ.head eb) same =
      sym (eb ∙ head_case p a ps seen s t e ma (ap lower (sym eb) ∙ sym same))
  case_pairs (p ∷ ps) seen s t a b e (Memᴰ.tail ma) (Memᴰ.tail mb) same =
      let (first, u, rest) = first_rest p ps seen s t e in
      case_pairs ps (set_text (lower p) p seen) u t a b rest ma mb same

-- No two of the paths are equal up to case.
abbrev pub DifferInLower : List Text → Type 0
DifferInLower [] = Unit
DifferInLower (p ∷ ps) = All (λ q. lower q ≢ lower p) ps × DifferInLower ps

abbrev Unrepeated : List Text → Type 0
Unrepeated [] = Unit
Unrepeated (p ∷ ps) = All (λ q. q ≢ p) ps × Unrepeated ps

module _ {V : Type 0} where
  abbrev keys : List (Text × V) → List Text
  keys m = map (λ (e : Text × V). e.0) m

  All-set_text :
      (k j : Text) (v : V) (m : List (Text × V))
      → k ≢ j
      → All (λ q. q ≢ j) (keys m)
      → All (λ q. q ≢ j) (keys (set_text k v m))
  unfolding set_text
  All-set_text k j v [] n a = (n, tt)
  All-set_text k j v ((i, w) ∷ m) n a = elim (Bool-cases (text_eq i k)) [
    | inl hit ↦ rw hit a
    | inr miss ↦ rw miss (a.0, All-set_text k j v m n a.1)
  ]

  Unrepeated-set_text :
      (k : Text) (v : V) (m : List (Text × V))
      → Unrepeated (keys m)
      → Unrepeated (keys (set_text k v m))
  unfolding set_text
  Unrepeated-set_text k v [] d = (tt, tt)
  Unrepeated-set_text k v ((i, w) ∷ m) d = elim (Bool-cases (text_eq i k)) [
    | inl hit ↦ rw hit d
    | inr miss ↦
        let apart : k ≢ i = λ e. ground (arith, miss, text_eq_iff i k, sym e) in
        rw miss (All-set_text k i v m apart d.0, Unrepeated-set_text k v m d.1)
  ]

Unrepeated-group_paths :
    (changed : List ChangedPath) (by_path : List (Text × List ChangedPath))
    → Unrepeated (map key_of by_path)
    → Unrepeated (map key_of (group_paths changed by_path))
unfolding group_paths
Unrepeated-group_paths [] by_path d = d
Unrepeated-group_paths (entry ∷ rest) by_path d =
    Unrepeated-group_paths rest _ (Unrepeated-set_text entry.path _ by_path d)

differ_of_equal :
    (ps : List Text)
    → ((a b : Text) → Memᴰ a ps → Memᴰ b ps → lower a ≡ lower b → a ≡ b)
    → Unrepeated ps
    → DifferInLower ps
differ_of_equal [] f d = tt
differ_of_equal (p ∷ ps) f d = (
  All-of_mem (λ q. lower q ≢ lower p) ps
      (λ q m e. All-mem (λ x. x ≢ p) q ps d.0 m (f q p (Memᴰ.tail m) (Memᴰ.head refl) e)),
  differ_of_equal ps (λ a b ma mb. f a b (Memᴰ.tail ma) (Memᴰ.tail mb)) d.1,
)

DifferInLower-insert :
    (x : Text) (xs : List Text)
    → All (λ q. lower q ≢ lower x) xs
    → DifferInLower xs
    → DifferInLower (insert_by path_le x xs)
unfolding insert_by
DifferInLower-insert x [] a d = (tt, tt)
DifferInLower-insert x (y ∷ ys) a d = elim (Bool-cases (path_le x y)) [
  | inl before ↦ rw before (a, d)
  | inr later ↦ rw later (
    All-insert path_le (λ q. lower q ≢ lower y) x ys (λ e. a.0 (sym e)) d.0,
    DifferInLower-insert x ys a.1 d.1,
  )
]

DifferInLower-sort : (xs : List Text) → DifferInLower xs → DifferInLower (sort_by path_le xs)
unfolding sort_by
DifferInLower-sort [] d = tt
DifferInLower-sort (x ∷ xs) d =
    DifferInLower-insert x (sort_by path_le xs) (All-sort path_le (λ q. lower q ≢ lower x) xs d.0)
      (DifferInLower-sort xs d.1)

module _ {W : Type 0} (h : Host W) where
  Ends-approved_case :
      (p : Text) (input : HandoffInput)
      → Ends (λ v s. DifferInLower (map key_of v.0)) (approved_changes h p input)
  unfolding approved_changes
  Ends-approved_case p input =
      let P = λ (v : List (Text × List ChangedPath) × List (Text × Text)) (s : Session W).
        DifferInLower (map key_of v.0) in
      Ends-bind P _ _ (λ _. Ends-bind P _ _ (λ current. Ends-bind P _ _ (λ _.
        Ends-bind P _ _ (λ changed. Ends-bind P _ _ (λ _. Ends-bind P _ _ (λ _.
          Ends-bind P _ _ (λ _. Ends-step P _ _ (λ _ s u run. Ends-bind P _ _ (λ tracked.
            Ends-bind P _ _ (λ _. Ends-bind P _ _ (λ modes. Ends-bind P _ _ (λ _.
              Ends-bind P _ _ (λ _. Ends-bind P _ _ (λ _. Ends-pure P _ (λ t.
                differ_of_equal (map key_of (group_paths changed []))
                  (λ a b. case_pairs (map key_of (group_paths changed [])) [] s u a b run)
                  (Unrepeated-group_paths changed [] tt))))))))))))))))

  -- A prepared handoff names each file once, also where case does not count: no two of the paths that
  -- it lists are equal up to case.
  pub prepare_handoff_case :
      (p : Text) (input : HandoffInput) (s t : Session W) (prepared : PreparedHandoff)
      → prepare_handoff h p input s ≡ (ok prepared, t)
      → DifferInLower prepared.paths
  unfolding prepare_handoff
  prepare_handoff_case p input s t prepared e =
      let P = λ (v : PreparedHandoff) (s : Session W). DifferInLower v.paths in
      let ends = Ends-guarded_none P _ (
        Ends-step P _ _ (λ approved s u run.
          let differ = (Ends-approved_case p input).at s u approved run in
          Ends-bind P _ _ (λ made. Ends-bind P _ _ (λ rendered. Ends-bind P _ _ (λ identity.
            Ends-pure P _ (λ t. DifferInLower-sort (map key_of approved.0) differ)))))) in
      ends.at s t prepared e
