-- ===== src/Scope/Overlap.antt =====
-- Containment and overlap of scopes: `covers`, `inScope` and `scopesOverlap` of
-- packages/runtime/src/scope.ts.
use foundry_agent_workspace.Base.{
  Result-cases, ℕ, ◌≡◌, ◌≢◌, refl, sym, ap, subst, ◌∙◌, ◌⊎◌, inl, inr, ◌↔◌, true, false, ◌||◌, List,
  [], ◌∷◌, ◌++◌, arith, Bool-cases, any, All, any_witness, any_of_mem, Text, text_eq, starts_with,
  lower, eq_of_text_eq, text_eq_refl, rest_of_starts_with, starts_with-append, append_assoc,
}
use foundry_agent_workspace.Scope.{
  slash, backslash, portable, covers_folded, covers, in_scope, scopes_overlap, normalize_scope_path,
}

-- The folded path `right` is `left`, or lies below it, or `left` is the whole repository.
abbrev pub Below : Text → Text → Type 0
Below left right = (left ≡ []) ⊎ ((right ≡ left) ⊎ ((rest : Text) × (right ≡ left ++ slash ∷ rest)))

covers_folded-Below : (l r : Text) → covers_folded l r ≡ true → Below l r
covers_folded-Below l r h = elim (Bool-cases (text_eq l [])) [
  | inl e ↦ inl (eq_of_text_eq l [] e)
  | inr e ↦ elim (Bool-cases (text_eq r l)) [
    | inl e' ↦ inr (inl (eq_of_text_eq r l e'))
    | inr e' ↦
        let (rest, at) = rest_of_starts_with r (l ++ slash ∷ []) (ground arith) in
        inr (inr (rest, at ∙ append_assoc l (slash ∷ []) rest))
  ]
]

Below-covers_folded : (l r : Text) → Below l r → covers_folded l r ≡ true
Below-covers_folded l r (inl e) = rw e (ground (arith, text_eq_refl []))
Below-covers_folded l r (inr (inl e)) = rw e (ground (arith, text_eq_refl l))
Below-covers_folded l r (inr (inr (rest, e))) =
    let at : starts_with r (l ++ slash ∷ []) ≡ true =
      rw (e ∙ sym (append_assoc l (slash ∷ []) rest)) (starts_with-append (l ++ slash ∷ []) rest) in
    ground (arith, at)

-- Segment-aware containment: a scope covers a candidate exactly when the candidate, folded and with
-- portable separators, is the scope or continues it behind a separator.
pub covers_iff :
    (scope candidate : Text)
    → (covers scope candidate ≡ true) ↔ Below (lower scope) (lower (portable candidate))
unfolding covers
covers_iff scope candidate = (covers_folded-Below _ _, Below-covers_folded _ _)

-- Two ancestors of one path are comparable.
abbrev Comparable : Text → Text → Type 0
Comparable a b =
    (a ≡ b) ⊎ (((r : Text) × (b ≡ a ++ slash ∷ r)) ⊎ ((r : Text) × (a ≡ b ++ slash ∷ r)))

Comparable-cons : (c : ℕ) (a b : Text) → Comparable a b → Comparable (c ∷ a) (c ∷ b)
Comparable-cons c a b (inl e) = inl (ap (◌∷◌ c) e)
Comparable-cons c a b (inr (inl (r, e))) = inr (inl (r, ap (◌∷◌ c) e))
Comparable-cons c a b (inr (inr (r, e))) = inr (inr (r, ap (◌∷◌ c) e))

ancestors_Comparable : (a b x y : Text) → a ++ slash ∷ x ≡ b ++ slash ∷ y → Comparable a b
ancestors_Comparable [] [] x y e = inl refl
ancestors_Comparable [] (d ∷ b) x y e = inr (inl (b, ground arith))
ancestors_Comparable (c ∷ a) [] x y e = inr (inr (a, ground arith))
ancestors_Comparable (c ∷ a) (d ∷ b) x y e =
    let same : c ≡ d = ground arith in
    rw same (Comparable-cons d a b (ancestors_Comparable a b x y (ground arith)))

Comparable-Below : (a b : Text) → Comparable a b → Below a b ⊎ Below b a
Comparable-Below a b (inl e) = inl (inr (inl (sym e)))
Comparable-Below a b (inr (inl d)) = inl (inr (inr d))
Comparable-Below a b (inr (inr d)) = inr (inr (inr d))

Below-comparable : (a b p : Text) → Below a p → Below b p → Below a b ⊎ Below b a
Below-comparable a b p (inl e) kb = inl (inl e)
Below-comparable a b p ka (inl e) = inr (inl e)
Below-comparable a b p (inr (inl e)) kb = inr (subst (Below b) e kb)
Below-comparable a b p ka (inr (inl e)) = inl (subst (Below a) e ka)
Below-comparable a b p (inr (inr (x, e))) (inr (inr (y, e'))) =
    Comparable-Below a b (ancestors_Comparable a b x y (sym e ∙ e'))

-- A text with no backslash is its own portable form, and folding does not add one.
abbrev pub NoBackslash : Text → Type 0
NoBackslash = All (λ c. c ≢ backslash)

pub portable-NoBackslash : (s : Text) → NoBackslash (portable s)
unfolding portable
portable-NoBackslash [] = tt
portable-NoBackslash (c ∷ s) = (ground arith, portable-NoBackslash s)

pub portable_of_NoBackslash : (s : Text) → NoBackslash s → portable s ≡ s
unfolding portable
portable_of_NoBackslash [] n = refl
portable_of_NoBackslash (c ∷ s) n = ground (arith, portable_of_NoBackslash s n.1)

lower-NoBackslash : (s : Text) → NoBackslash s → NoBackslash (lower s)
unfolding lower
lower-NoBackslash [] n = tt
lower-NoBackslash (c ∷ s) n = (ground arith, lower-NoBackslash s n.1)

NoBackslash-of_lower : (s : Text) → NoBackslash (lower s) → NoBackslash s
unfolding lower
NoBackslash-of_lower [] n = tt
NoBackslash-of_lower (c ∷ s) n = (ground arith, NoBackslash-of_lower s n.1)

NoBackslash-prefix : (s t : Text) → NoBackslash (s ++ t) → NoBackslash s
NoBackslash-prefix [] t n = tt
NoBackslash-prefix (c ∷ s) t n = (n.0, NoBackslash-prefix s t n.1)

Below-NoBackslash : (l r : Text) → NoBackslash r → Below l r → NoBackslash l
Below-NoBackslash l r n (inl e) = subst NoBackslash (sym e) tt
Below-NoBackslash l r n (inr (inl e)) = subst NoBackslash e n
Below-NoBackslash l r n (inr (inr (x, e))) =
    NoBackslash-prefix l (slash ∷ x) (subst NoBackslash e n)

-- A scope that covers some path has no backslash, so its own portable form is itself.
covers-portable : (scope path : Text) → covers scope path ≡ true → portable scope ≡ scope
covers-portable scope path h = portable_of_NoBackslash scope (
    NoBackslash-of_lower scope (
      Below-NoBackslash (lower scope) (lower (portable path))
        (lower-NoBackslash (portable path) (portable-NoBackslash path))
        ((covers_iff scope path).0 h)))

covers_comparable :
    (a b path : Text)
    → covers a path ≡ true
    → covers b path ≡ true
    → (covers a b || covers b a) ≡ true
covers_comparable a b path ha hb =
    elim (Below-comparable (lower a) (lower b) (lower (portable path)) ((covers_iff a path).0 ha)
      ((covers_iff b path).0 hb)) [
        | inl k ↦
            let h : covers a b ≡ true =
              (covers_iff a b).1
                (subst (λ t. Below (lower a) (lower t)) (sym (covers-portable b path hb)) k) in
            ground (arith, h)
        | inr k ↦
            let h : covers b a ≡ true =
              (covers_iff b a).1
                (subst (λ t. Below (lower b) (lower t)) (sym (covers-portable a path ha)) k) in
            ground (arith, h)
      ]

covered_overlap :
    (left right : List Text) (path : Text)
    → any (λ a. covers a path) left ≡ true
    → any (λ b. covers b path) right ≡ true
    → scopes_overlap left right ≡ true
unfolding scopes_overlap
covered_overlap left right path hl hr =
    let (a, ma, ca) = any_witness (λ x. covers x path) left hl in
    let (b, mb, cb) = any_witness (λ x. covers x path) right hr in
    any_of_mem (λ x. any (λ y. covers x y || covers y x) right) left ma
      (any_of_mem (λ y. covers a y || covers y a) right mb (covers_comparable a b path ca cb))

-- Scopes that do not overlap share no path: what two assignments with such write scopes may write
-- is disjoint.
pub disjoint_scopes :
    (left right : List Text) (candidate : Text)
    → scopes_overlap left right ≡ false
    → in_scope left candidate ≡ true
    → in_scope right candidate ≡ false
unfolding in_scope
disjoint_scopes left right candidate apart h =
    elim (Result-cases (normalize_scope_path candidate false)) [
      | inl (p, e) ↦ elim (Bool-cases (any (λ b. covers b p) right)) [
        | inl shared ↦
            absurd (ground (arith, e, covered_overlap left right p (ground (arith, e)) shared))
        | inr free ↦ ground (arith, e, free)
      ]
      | inr (f, e) ↦ ground (arith, e)
    ]
