-- ===== src/Usage/Ledger/Reports.antt =====
-- The reports of usage: `summary` and `requests` of packages/runtime/src/usage-ledger.ts.
use foundry_agent_workspace.Base.{
  is_some, ℕ, suc, ◌+◌, min, Bool, true, false, ◌&&◌, ◌||◌, Option, none, some, List, [], ◌∷◌, ◌++◌,
  ◌==◌, leb, ltb, if◌then◌else◌, filter, length, get, set, Result, ok, err, ◌>>=◌,
}
use foundry_agent_workspace.Usage.Ledger.{UsageRequest, LedgerError, invalid_cursor}
use foundry_agent_workspace.Usage.Ledger.Counting.{UsageTotals, totals, add}
use foundry_agent_workspace.Usage.Ledger.Listing.{UsageFilters, records}

-- The days seen, the totals so far, and whether a day was left out.
pub record Summary : Type 0 where
  pub all : UsageTotals
  pub days : List (ℕ × UsageTotals)
  pub days_truncated : Bool

abbrev pub or_totals : Option UsageTotals → UsageTotals
or_totals none = totals
or_totals (some t) = t

abbrev pub day_limit : ℕ
day_limit = 730

unfoldable pub add_day : (ℕ → ℕ) → Summary → UsageRequest → Summary
add_day day_of s r =
    let day = day_of r.created_at in
    let known = get day s.days in
    if is_some known || ltb (length s.days) day_limit
    then (record s { all = add s.all r; days = set day (add (or_totals known) r) s.days })
    else (record s { all = add s.all r; days_truncated = true })

unfoldable pub add_days : (ℕ → ℕ) → Summary → List UsageRequest → Summary
add_days day_of s [] = s
add_days day_of s (r ∷ rs) = add_days day_of (add_day day_of s r) rs

abbrev pub empty_summary : Summary
empty_summary = record { all = totals; days = []; days_truncated = false }

-- `day_of` is Intl's date of an instant in the time zone asked for; the days keep the order of the Map,
-- which the reply sorts by date.
unfoldable pub summary : (ℕ → ℕ) → UsageFilters → List UsageRequest → Summary
summary day_of f rows = add_days day_of empty_summary (records f none rows)

unfoldable pub revision : List UsageRequest → ℕ
revision rows = length (filter (λ r. is_some r.finished_at) rows)

-- A cursor's content: `s`, `n` and `cap`.
pub record Cursor : Type 0 where
  pub s : ℕ
  pub n : ℕ
  pub cap : ℕ

pub record UsageRequests : Type 0 where
  pub page : List UsageRequest
  pub next_cursor : Option Cursor

-- `{ n, cap }`
unfoldable pub decode : Option Cursor → ℕ → Result LedgerError (ℕ × Option ℕ)
decode none signature = ok (0, none)
decode (some c) signature = if c.s == signature then ok (c.n, some c.cap) else err invalid_cursor

-- The loop of `requests`: `index` rows passed and `taken` kept.
unfoldable pub collect :
    (n limit index : ℕ) → List UsageRequest → List UsageRequest → List UsageRequest × Bool
collect n limit index taken [] = (taken, false)
collect n limit index taken (row ∷ rows) =
    let keep = leb n index && ltb (length taken) limit in
    let rest = collect n limit (suc index) (if keep then taken ++ row ∷ [] else taken) rows in
    if keep then rest else (if leb limit (length taken) then (taken, true) else rest)

abbrev pub or_default : ℕ → Option ℕ → ℕ
or_default n none = n
or_default n (some m) = m

-- `Math.min(params.limit ?? 50, 100)`
abbrev pub page_limit : Option ℕ → ℕ
page_limit limit = min (or_default 50 limit) 100

abbrev pub page_of : (signature n cap : ℕ) → List UsageRequest × Bool → UsageRequests
page_of signature n cap (page, more) = record {
  page = page;
  next_cursor =
      if more then some (record { s = signature; n = n + length page; cap = cap }) else none;
}

-- `fingerprint` is the digest of the filters and the revision.
unfoldable pub requests :
    (fingerprint : UsageFilters → ℕ → ℕ)
    → UsageFilters
    → Option Cursor
    → Option ℕ
    → List UsageRequest
    → Result LedgerError UsageRequests
requests fingerprint f cursor limit rows = do
  let signature = fingerprint f (revision rows)
  start ← decode cursor signature
  let cap = or_default (length rows) start.1
  ok (
      page_of signature start.0 cap
        (collect start.0 (page_limit limit) 0 [] (records f (some cap) rows)))
