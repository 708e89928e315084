-- ===== src/Scope/Segments.antt =====
-- Containment of scopes by segments: `covers` of packages/runtime/src/scope.ts compares texts.
use foundry_agent_workspace.Base.{
  ℕ, ◌≡◌, refl, sym, ap, ◌∙◌, ◌⊎◌, inl, inr, ◌↔◌, true, List, [], ◌∷◌, ◌++◌, ◌==◌, arith,
  Bool-cases, Text, split, cons_head, lower, append_assoc, append-nil, ==_iff,
}
use foundry_agent_workspace.Scope.{slash, portable, covers}
use foundry_agent_workspace.Scope.Overlap.{Below, covers_iff}

-- The segments of a path.
abbrev pub segments : Text → List Text
segments path = split slash path

-- The first segments of the path are those of the scope.
abbrev pub Within : (scope path : List Text) → Type 0
Within scope path = (more : List Text) × (path ≡ scope ++ more)

module _ (d : ℕ) where
  split_cons : (s : Text) → (p : Text) × (ps : List Text) × (split d s ≡ p ∷ ps)
  unfolding split
  split_cons [] = ([], [], refl)
  split_cons (c ∷ s) = elim (Bool-cases (c == d)) [
    | inl hit ↦ ([], split d s, rw hit refl)
    | inr miss ↦ let (p, ps, e) = split_cons s in (c ∷ p, ps, rw (miss, e) refl)
  ]

  split-append : (l r : Text) → split d (l ++ d ∷ r) ≡ split d l ++ split d r
  unfolding split
  split-append [] r = ground arith
  split-append (c ∷ l) r = elim (Bool-cases (c == d)) [
    | inl hit ↦ ground (arith, hit, split-append l r)
    | inr miss ↦ let (p, ps, e) = split_cons l in rw (miss, split-append l r, e) refl
  ]

  join : List Text → Text
  join [] = []
  join (p ∷ []) = p
  join (p ∷ (q ∷ ps)) = p ++ (d ∷ join (q ∷ ps))

  join-cons_head : (c : ℕ) (ps : List Text) → join (cons_head c ps) ≡ c ∷ join ps
  unfolding join
  join-cons_head c [] = refl
  join-cons_head c (p ∷ []) = refl
  join-cons_head c (p ∷ (q ∷ ps)) = refl

  join-split : (s : Text) → join (split d s) ≡ s
  unfolding join split
  join-split [] = refl
  join-split (c ∷ s) = elim (Bool-cases (c == d)) [
    | inl hit ↦
        let (p, ps, e) = split_cons s in
        let rest : join (p ∷ ps) ≡ s = ap join (sym e) ∙ join-split s in
        rw (hit, e) (ap (λ t. d ∷ t) rest ∙ ap (λ k. k ∷ s) (sym ((==_iff c d).0 hit)))
    | inr miss ↦ rw miss (join-cons_head c (split d s) ∙ ap (λ t. c ∷ t) (join-split s))
  ]

  join-append :
      (p : Text) (ps : List Text) (q : Text) (qs : List Text)
      → join ((p ∷ ps) ++ (q ∷ qs)) ≡ join (p ∷ ps) ++ (d ∷ join (q ∷ qs))
  unfolding join
  join-append p [] q qs = refl
  join-append p (p' ∷ ps) q qs =
      ap (λ t. p ++ (d ∷ t)) (join-append p' ps q qs)
      ∙ sym (append_assoc p (d ∷ join (p' ∷ ps)) (d ∷ join (q ∷ qs)))

  continued :
      (l r : Text) (more : List Text)
      → split d r ≡ split d l ++ more
      → (r ≡ l) ⊎ ((rest : Text) × (r ≡ l ++ (d ∷ rest)))
  continued l r [] e =
      inl (sym (join-split r) ∙ (ap join (e ∙ append-nil (split d l)) ∙ join-split l))
  continued l r (q ∷ qs) e =
      let (p, ps, first) = split_cons l in
      let whole : join (p ∷ ps) ≡ l = ap join (sym first) ∙ join-split l in
      inr (
        join (q ∷ qs),
        sym (join-split r)
            ∙ (ap join (e ∙ ap (λ xs. xs ++ (q ∷ qs)) first)
                ∙ (join-append p ps q qs ∙ ap (λ t. t ++ (d ∷ join (q ∷ qs))) whole)),
      )

empty_of_lower : (t : Text) → lower t ≡ [] → t ≡ []
unfolding lower
empty_of_lower [] e = refl
empty_of_lower (c ∷ t) e = absurd (cc)

Below-Within :
    (scope : Text) (path : Text)
    → Below (lower scope) path
    → (scope ≡ []) ⊎ Within (segments (lower scope)) (segments path)
Below-Within scope path (inl e) = inl (empty_of_lower scope e)
Below-Within scope path (inr (inl e)) =
    inr ([], ap segments e ∙ sym (append-nil (segments (lower scope))))
Below-Within scope path (inr (inr (rest, e))) =
    inr (segments rest, ap segments e ∙ split-append slash (lower scope) rest)

Within-Below :
    (scope : Text) (path : Text)
    → (scope ≡ []) ⊎ Within (segments (lower scope)) (segments path)
    → Below (lower scope) path
unfolding lower
Within-Below scope path (inl e) = inl (ap lower e)
Within-Below scope path (inr (more, e)) = inr (continued slash (lower scope) path more e)

-- Containment goes by segments: a scope covers a path exactly when it is the whole repository, or the
-- segments of the scope, folded, are the first segments of the path, folded and with portable
-- separators.
pub covers_segments :
    (scope path : Text)
    → (covers scope path ≡ true)
      ↔ ((scope ≡ []) ⊎ Within (segments (lower scope)) (segments (lower (portable path))))
covers_segments scope path = (
  λ h. Below-Within scope (lower (portable path)) ((covers_iff scope path).0 h),
  λ w. (covers_iff scope path).1 (Within-Below scope (lower (portable path)) w),
)
