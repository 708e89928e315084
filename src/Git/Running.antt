-- ===== src/Git/Running.antt =====
-- What a run of an action says that has returned, for the blocks of
-- packages/runtime/src/git-operations.ts: the parts of a block, and properties of its value.
use Prim.Native.String.{String}
use foundry_agent_workspace.Base.{
  subst, ◌≡◌, ◌∙◌, refl, sym, ap, Bool, true, false, List, [], ◌∷◌, Result, ok, err, Text, All,
  if◌then◌else◌,
}
use foundry_agent_workspace.Git.{
  Session, Action, Failure, fault, git_operation_error, no_effects, wrapped, pure, raise, continue,
  ◌>>=◌, check, for_each, guarded_none, guarded_mutation,
}
use foundry_agent_workspace.Git.Quiet.{Quiet, Quiet-mark}
use foundry_agent_workspace.Git.Outcomes.{guarded_end}

ok-injective : {A : Type 0} {a b : A} → ◌≡◌ {A = Result Failure A} (ok a) (ok b) → a ≡ b
ok-injective e = cc

unwrapped :
    {W A : Type 0} (q : Result Failure A × Session W) (t : Session W) (b : A)
    → ◌≡◌ {A = Result Failure A × Session W} (wrapped no_effects q.0, q.1) (ok b, t)
    → q ≡ (ok b, t)
unwrapped (ok a, u) t b e = e
unwrapped (err (fault m v), u) t b e = absurd (cc)
unwrapped (err (git_operation_error o m v), u) t b e = absurd (cc)

module _ {W A B : Type 0} where
  -- The parts of a block that has returned.
  pub bind-ok :
      (m : Action W A) (f : A → Action W B) (s t : Session W) (b : B)
      → (m >>= f) s ≡ (ok b, t)
      → (a : A) × (u : Session W) × (m s ≡ (ok a, u)) × (f a u ≡ (ok b, t))
  unfolding ◌>>=◌
  bind-ok m f s t b e = continued (m s) refl e
    where
      continued :
          (q : Result Failure A × Session W)
          → m s ≡ q
          → continue q.0 f q.1 ≡ (ok b, t)
          → (a : A) × (u : Session W) × (m s ≡ (ok a, u)) × (f a u ≡ (ok b, t))
      continued (ok a, u) d e' = (a, u, d, e')
      continued (err x, u) d e' = absurd (cc)

module _ {W A : Type 0} where
  -- An action that leaves all of the world alone leaves the session alone.
  pub Quiet-ok :
      {m : Action W A}
      → Quiet (λ (w : W). w) m
      → (s u : Session W) (a : A) → m s ≡ (ok a, u)
      → u ≡ s
  Quiet-ok {m} q s u a e =
      let same : (m s).1 ≡ s =
        λ i. record { world = q.at s i; mutation_started = Quiet-mark q s i } in
      ap (λ (x : Result Failure A × Session W). x.1) (sym e) ∙ same

  -- A quiet action that has returned returns the same under any mark.
  pub Quiet-again :
      {m : Action W A}
      → Quiet (λ (w : W). w) m
      → (s u : Session W) (a : A) (b : Bool) → m s ≡ (ok a, u)
      → m (record u { mutation_started = b }) ≡ (ok a, record u { mutation_started = b })
  Quiet-again {m} q s u a b e =
      q.blind u b
      ∙ ap (λ (x : Result Failure A × Session W). (x.0, record x.1 { mutation_started = b }))
          (ap m (Quiet-ok q s u a e) ∙ e)

  pub guarded-ok :
      (m : Action W A) (s t : Session W) (a : A)
      → guarded_mutation m s ≡ (ok a, t)
      → (u : Session W) × (m (record s { mutation_started = false }) ≡ (ok a, u))
        × (t ≡ record u { mutation_started = s.mutation_started })
  unfolding guarded_mutation
  guarded-ok m s t a e = finished (m (record s { mutation_started = false })) refl e
    where
      finished :
          (q : Result Failure A × Session W)
          → m (record s { mutation_started = false }) ≡ q
          → guarded_end s q ≡ (ok a, t)
          → (u : Session W) × (m (record s { mutation_started = false }) ≡ (ok a, u))
            × (t ≡ record u { mutation_started = s.mutation_started })
      finished (ok x, u) d e' = (
        u,
        d
            ∙ ap (λ (r : Result Failure A). (r, u))
                (ap (λ (x : Result Failure A × Session W). x.0) e'),
        sym (ap (λ (x : Result Failure A × Session W). x.1) e'),
      )
      finished (err (fault x y), u) d e' = absurd (cc)
      finished (err (git_operation_error o x y), u) d e' = absurd (cc)

-- Whenever the action returns, its value and the session after it are related.
pub record Ends {W A : Type 0} (P : A → Session W → Type 0) (m : Action W A) : Type 0 where
  pub at : (s t : Session W) (a : A) → m s ≡ (ok a, t) → P a t

module _ {W A B : Type 0} (P : B → Session W → Type 0) where
  pub Ends-bind :
      (m : Action W A) (f : A → Action W B) → ((a : A) → Ends P (f a)) → Ends P (m >>= f)
  Ends-bind m f q = record {
    at = λ s t b e. let (a, u, _, e') = bind-ok m f s t b e in (q a).at u t b e';
  }

  -- The rule for a step whose own run says something.
  pub Ends-step :
      (m : Action W A) (f : A → Action W B)
      → ((a : A) (s u : Session W) → m s ≡ (ok a, u) → Ends P (f a))
      → Ends P (m >>= f)
  Ends-step m f q = record {
    at = λ s t b e. let (a, u, e', e'') = bind-ok m f s t b e in (q a s u e').at u t b e'';
  }

module _ {W A : Type 0} (P : A → Session W → Type 0) where
  pub Ends-pure : (a : A) → ((s : Session W) → P a s) → Ends P (pure a)
  unfolding pure
  Ends-pure a q = record {
    at = λ s t b e.
        let eb : a ≡ b = ok-injective (ap (λ (x : Result Failure A × Session W). x.0) e) in
        subst (λ c. P c t) eb (q t);
  }

  pub Ends-if : (b : Bool) (m n : Action W A) → Ends P m → Ends P n → Ends P (if b then m else n)
  Ends-if true m n qm qn = qm
  Ends-if false m n qm qn = qn

  -- A property of the value alone passes the guard.
  pub Ends-guarded_none : (m : Action W A) → Ends P m → Ends P (guarded_none m)
  unfolding guarded_none
  Ends-guarded_none m q = record { at = λ s t b e. q.at s t b (unwrapped (m s) t b e) }

module _ {W : Type 0} where
  -- A loop that has returned has passed every item.
  pub for_each-ok :
      {A : Type 0} (f : A → Action W (Unit {0})) (Q : A → Type 0) (xs : List A) (s t : Session W)
      → ((x : A) (s' u : Session W) → f x s' ≡ (ok tt, u) → Q x)
      → for_each f xs s ≡ (ok tt, t)
      → All Q xs
  unfolding for_each
  for_each-ok f Q [] s t q e = tt
  for_each-ok f Q (x ∷ xs) s t q e =
      let (a, u, e1, e2) = bind-ok (f x) (λ _. for_each f xs) s t tt e in
      (q x s u e1, for_each-ok f Q xs u t q e2)

  pub check-ok :
      (b : Bool) (message : String) (values : List Text) (s t : Session W)
      → check b message values s ≡ (ok tt, t)
      → b ≡ true
  unfolding check raise
  check-ok true message values s t e = refl
  check-ok false message values s t e = absurd (cc)
