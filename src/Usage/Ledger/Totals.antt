-- ===== src/Usage/Ledger/Totals.antt =====
-- The totals of packages/runtime/src/usage-ledger.ts: what `add` keeps, and what the days of a summary
-- have to do with its totals.
use foundry_agent_workspace.Base.{
  is_some, ℕ, suc, ◌+◌, ◌≤◌, ◌≡◌, ◌⊎◌, inl, inr, refl, Bool, true, ◌||◌, none, List, [], ◌∷◌, ◌==◌,
  ltb, All, sum, filter, length, get, set, arith, Bool-cases, if◌then◌else◌,
}
use foundry_agent_workspace.Usage.Ledger.{UsageRequest}
use foundry_agent_workspace.Usage.Ledger.Counting.{
  UsageTotals, totals, add_attempt, add_outcome, add_details, add,
}
use foundry_agent_workspace.Usage.Ledger.Listing.{UsageFilters, meets, insert, ordered, records}
use foundry_agent_workspace.Usage.Ledger.Reports.{
  Summary, or_totals, day_limit, add_day, add_days, empty_summary, summary,
}

-- Each request is counted once, by how it stands, and the tokens add up.
pub record Balanced (t : UsageTotals) : Type 0 where
  pub counted :
      t.requests ≡ t.pending_requests + t.known_requests + t.unknown_requests + t.not_sent_requests
  pub tokens : t.total ≡ t.input + t.output
  pub attempts : t.attempted_requests ≤ t.requests

totals-Balanced : Balanced totals
totals-Balanced = record { counted = refl; tokens = refl; attempts = omega arith }

add-Balanced : (t : UsageTotals) (r : UsageRequest) → Balanced t → Balanced (add t r)
unfolding add add_details add_outcome add_attempt
add-Balanced t r b = record {
  counted = ground (arith, b.counted);
  tokens = ground (arith, b.tokens);
  attempts = ground (arith, b.attempts);
}

add_requests : (t : UsageTotals) (r : UsageRequest) → (add t r).requests ≡ t.requests + 1
unfolding add add_details add_outcome add_attempt
add_requests t r = ground arith

add_total : (t : UsageTotals) (r : UsageRequest) → (add t r).total ≡ t.total + (add totals r).total
unfolding add add_details add_outcome add_attempt
add_total t r = ground arith

abbrev of_days : (UsageTotals → ℕ) → List (ℕ × UsageTotals) → ℕ
of_days measure days = sum (λ d. measure d.1) days

sum-set :
    (measure : UsageTotals → ℕ)
    → measure totals ≡ 0
    → (k : ℕ) (t : UsageTotals) (m : List (ℕ × UsageTotals))
    → of_days measure (set k t m) + measure (or_totals (get k m)) ≡ of_days measure m + measure t
unfolding get set
sum-set measure z k t [] = omega (arith, z)
sum-set measure z k t ((j, u) ∷ m) = elim (Bool-cases (j == k)) [
  | inl hit ↦ ground (arith, hit)
  | inr miss ↦ ground (arith, miss, sum-set measure z k t m)
]

length-set :
    (k : ℕ) (t : UsageTotals) (m : List (ℕ × UsageTotals))
    → length (set k t m) ≡ (if is_some (get k m) then length m else suc (length m))
unfolding get set
length-set k t [] = refl
length-set k t ((j, u) ∷ m) = elim (Bool-cases (j == k)) [
  | inl hit ↦ ground (arith, hit)
  | inr miss ↦ ground (arith, miss, length-set k t m)
]

All-set :
    (k : ℕ) (t : UsageTotals) (m : List (ℕ × UsageTotals))
    → Balanced t
    → All (λ d. Balanced d.1) m
    → All (λ d. Balanced d.1) (set k t m)
unfolding set
All-set k t [] b a = (b, tt)
All-set k t ((j, u) ∷ m) b a = elim (Bool-cases (j == k)) [
  | inl hit ↦ rw hit (b, a.1)
  | inr miss ↦ rw miss (a.0, All-set k t m b a.1)
]

or_totals-Balanced :
    (k : ℕ) (m : List (ℕ × UsageTotals))
    → All (λ d. Balanced d.1) m
    → Balanced (or_totals (get k m))
unfolding get
or_totals-Balanced k [] a = totals-Balanced
or_totals-Balanced k ((j, u) ∷ m) a = elim (Bool-cases (j == k)) [
  | inl hit ↦ rw hit a.0
  | inr miss ↦ rw miss (or_totals-Balanced k m a.1)
]

-- The days sum up to the totals, unless 730 days are there and another one was left out.
abbrev pub Covered : Summary → Type 0
Covered s =
    ((sum (λ d. d.1.requests) s.days ≡ s.all.requests)
      × (sum (λ d. d.1.total) s.days ≡ s.all.total))
    ⊎ ((s.days_truncated ≡ true) × (length s.days ≡ day_limit))

pub record Sound (s : Summary) : Type 0 where
  pub all_balanced : Balanced s.all
  pub days_balanced : All (λ d. Balanced d.1) s.days
  pub bound : length s.days ≤ day_limit
  pub covered : Covered s

Covered-set :
    (s : Summary) (r : UsageRequest) (day : ℕ) (truncated : Bool)
    → Sound s
    → s.days_truncated ≡ truncated
    → (is_some (get day s.days) || ltb (length s.days) day_limit) ≡ true
    → Covered
        (record s { all = add s.all r; days = set day (add (or_totals (get day s.days)) r) s.days })
Covered-set s r day truncated h e room =
    let known = or_totals (get day s.days) in
    let long = length-set day (add known r) s.days in
    elim h.covered [
      | inl (q, t) ↦ inl (
        omega (
          arith,
          q,
          add_requests s.all r,
          add_requests known r,
          sum-set (λ u. u.requests) refl day (add known r) s.days,
        ),
        omega (
          arith,
          t,
          add_total s.all r,
          add_total known r,
          sum-set (λ u. u.total) refl day (add known r) s.days,
        ),
      )
      | inr (cut, full) ↦ inr (cut, ground (arith, long, full, room))
    ]

add_day-Sound :
    (day_of : ℕ → ℕ) (s : Summary) (r : UsageRequest) → Sound s → Sound (add_day day_of s r)
unfolding add_day
add_day-Sound day_of s r h =
    let day = day_of r.created_at in
    let known = or_totals (get day s.days) in
    elim (Bool-cases (is_some (get day s.days) || ltb (length s.days) day_limit)) [
      | inl room ↦ rw room (record {
        all_balanced = add-Balanced s.all r h.all_balanced;
        days_balanced =
            All-set day (add known r) s.days
              (add-Balanced known r (or_totals-Balanced day s.days h.days_balanced))
              h.days_balanced;
        bound = ground (arith, length-set day (add known r) s.days, h.bound, room);
        covered = Covered-set s r day s.days_truncated h refl room;
      })
      | inr full ↦ rw full (record {
        all_balanced = add-Balanced s.all r h.all_balanced;
        days_balanced = h.days_balanced;
        bound = h.bound;
        covered = inr (refl, ground (arith, h.bound, full));
      })
    ]

add_days-Sound :
    (day_of : ℕ → ℕ) (s : Summary) (rs : List UsageRequest) → Sound s → Sound (add_days day_of s rs)
unfolding add_days
add_days-Sound day_of s [] h = h
add_days-Sound day_of s (r ∷ rs) h =
    add_days-Sound day_of (add_day day_of s r) rs (add_day-Sound day_of s r h)

add_day_requests :
    (day_of : ℕ → ℕ) (s : Summary) (r : UsageRequest)
    → (add_day day_of s r).all.requests ≡ s.all.requests + 1
unfolding add_day
add_day_requests day_of s r = ground (arith, add_requests s.all r)

add_days_requests :
    (day_of : ℕ → ℕ) (s : Summary) (rs : List UsageRequest)
    → (add_days day_of s rs).all.requests ≡ s.all.requests + length rs
unfolding add_days
add_days_requests day_of s [] = omega arith
add_days_requests day_of s (r ∷ rs) =
    omega (arith, add_days_requests day_of (add_day day_of s r) rs, add_day_requests day_of s r)

length-insert : (r : UsageRequest) (rs : List UsageRequest) → length (insert r rs) ≡ suc (length rs)
length-insert r [] = refl
length-insert r (s ∷ rs) = ground (arith, length-insert r rs)

length-ordered : (rs : List UsageRequest) → length (ordered rs) ≡ length rs
unfolding ordered
length-ordered [] = refl
length-ordered (r ∷ rs) = omega (arith, length-insert r (ordered rs), length-ordered rs)

length-records :
    (f : UsageFilters) (rows : List UsageRequest)
    → length (records f none rows) ≡ length (filter (meets f) rows)
unfolding records
length-records f rows = length-ordered (filter (meets f) rows)

-- A summary counts each of the requests that the filters let through once. Its totals, and those of each
-- day, are balanced: the requests are the pending, the known, the unknown and the unsent ones, and the
-- tokens the input and the output. There are at most 730 days, and the requests and the tokens of the
-- days sum up to the totals, unless the days are marked as truncated and there are 730 of them.
pub summary-Sound :
    (day_of : ℕ → ℕ) (f : UsageFilters) (rows : List UsageRequest)
    → Sound (summary day_of f rows)
      × ((summary day_of f rows).all.requests ≡ length (filter (meets f) rows))
unfolding summary
summary-Sound day_of f rows =
    let empty-Sound : Sound empty_summary = record {
      all_balanced = totals-Balanced;
      days_balanced = tt;
      bound = omega arith;
      covered = inl (refl, refl);
    } in
    (
      add_days-Sound day_of empty_summary (records f none rows) empty-Sound,
      omega (
        arith,
        add_days_requests day_of empty_summary (records f none rows),
        length-records f rows,
      ),
    )
