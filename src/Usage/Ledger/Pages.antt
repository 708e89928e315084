-- ===== src/Usage/Ledger/Pages.antt =====
-- Paging through the requests of packages/runtime/src/usage-ledger.ts while new requests begin.
use foundry_agent_workspace.Base.{
  is_some, ℕ, zero, suc, ◌+◌, ◌≤◌, ◌<◌, ◌≡◌, refl, sym, ap, ◌∙◌, inl, inr, true, false, ◌&&◌,
  Option, none, some, List, [], ◌∷◌, ◌++◌, ◌==◌, leb, ltb, All, filter, length, take, drop,
  drop_zero, append-take-drop, take_all, take-append, length-take, length-drop, drop-drop,
  length-append, filter-append, append_assoc, append-nil, arith, Bool-cases, ok, err,
}
use foundry_agent_workspace.Usage.Ledger.{UsageRequest, has_no_end}
use foundry_agent_workspace.Usage.Ledger.Listing.{UsageFilters, records}
use foundry_agent_workspace.Usage.Ledger.Reports.{
  revision, Cursor, UsageRequests, decode, collect, page_limit, page_of, requests,
}

-- From the first row of the page on, with room for `room` rows more.
collect_page :
    (n limit index room : ℕ) (taken rows : List UsageRequest)
    → n ≤ index
    → limit ≡ length taken + room
    → collect n limit index taken rows ≡ (taken ++ take room rows, ltb room (length rows))
unfolding collect take
collect_page n limit index room taken [] h e = ground (arith, append-nil taken)
collect_page n limit index zero taken (row ∷ rows) h e =
    let keep : (leb n index && ltb (length taken) limit) ≡ false = ground (arith, e) in
    let full : leb limit (length taken) ≡ true = ground (arith, e) in
    ground (arith, keep, full, append-nil taken)
collect_page n limit index (suc room) taken (row ∷ rows) h e =
    let rest =
      collect_page n limit (suc index) room (taken ++ row ∷ []) rows (omega (arith, h))
        (omega (arith, e, length-append taken (row ∷ []))) in
    let keep : (leb n index && ltb (length taken) limit) ≡ true = ground (arith, h, e) in
    let tested : ltb room (length rows) ≡ ltb (suc room) (suc (length rows)) = ground arith in
    ground (arith, keep, rest, append_assoc taken (row ∷ []) (take room rows), tested)

-- The rows before the page are passed over.
collect_skips :
    (n limit index gap : ℕ) (rows : List UsageRequest)
    → 1 ≤ limit
    → n ≡ index + gap
    → collect n limit index [] rows ≡ collect n limit n [] (drop gap rows)
unfolding collect drop
collect_skips n limit index gap [] l e = refl
collect_skips n limit index zero (row ∷ rows) l e =
    ap (λ i. collect n limit i [] (row ∷ rows)) (omega (arith, e))
collect_skips n limit index (suc gap) (row ∷ rows) l e =
    let rest = collect_skips n limit (suc index) gap rows l (omega (arith, e)) in
    let keep : (leb n index && ltb 0 limit) ≡ false = ground (arith, e) in
    let room : leb limit 0 ≡ false = ground (arith, l) in ground (arith, keep, room, rest)

collected :
    (n limit : ℕ) (rows : List UsageRequest)
    → 1 ≤ limit
    → collect n limit 0 [] rows ≡ (take limit (drop n rows), ltb limit (length (drop n rows)))
collected n limit rows l =
    collect_skips n limit 0 n rows l (omega arith)
    ∙ collect_page n limit n limit [] (drop n rows) (omega arith) (omega arith)

-- Requests that began later change neither the revision nor the rows below the watermark.
none_finished :
    (later : List UsageRequest)
    → All (λ r. has_no_end r ≡ true) later
    → length (filter (λ r. is_some r.finished_at) later) ≡ 0
none_finished [] h = refl
none_finished (r ∷ later) h = ground (arith, h.0, none_finished later h.1)

revision-append :
    (rows later : List UsageRequest)
    → All (λ r. has_no_end r ≡ true) later
    → revision (rows ++ later) ≡ revision rows
unfolding revision
revision-append rows later h =
    let test = λ (r : UsageRequest). is_some r.finished_at in
    ap (λ rs. length rs) (filter-append test rows later)
    ∙ omega (arith, length-append (filter test rows) (filter test later), none_finished later h)

records-append :
    (f : UsageFilters) (rows later : List UsageRequest)
    → records f (some (length rows)) (rows ++ later) ≡ records f none rows
unfolding records
records-append f rows later = rw (take-append rows later) refl

records-whole :
    (f : UsageFilters) (rows : List UsageRequest)
    → records f (some (length rows)) rows ≡ records f none rows
unfolding records
records-whole f rows = rw (take_all (length rows) rows (omega arith)) refl

module _ (fingerprint : UsageFilters → ℕ → ℕ) (f : UsageFilters) (limit : Option ℕ)
    (rows : List UsageRequest) (later : ℕ → List UsageRequest) where
  abbrev reply : (n : ℕ) → UsageRequests
  reply n = page_of (fingerprint f (revision rows)) n (length rows) (
    take (page_limit limit) (drop n (records f none rows)),
    ltb (page_limit limit) (length (drop n (records f none rows))),
  )

  abbrev cursor_at : ℕ → Cursor
  cursor_at n = record { s = fingerprint f (revision rows); n = n; cap = length rows }

  first_page : 1 ≤ page_limit limit → requests fingerprint f none limit rows ≡ ok (reply 0)
  unfolding requests decode
  first_page l =
      rw (records-whole f rows, collected 0 (page_limit limit) (records f none rows) l) refl

  next_page :
      (k n : ℕ)
      → 1 ≤ page_limit limit
      → All (λ r. has_no_end r ≡ true) (later k)
      → requests fingerprint f (some (cursor_at n)) limit (rows ++ later k) ≡ ok (reply n)
  unfolding requests decode
  next_page k n l h =
      let s = fingerprint f (revision rows) in
      let same : (s == s) ≡ true = ground arith in
      rw (revision-append rows (later k) h, same)
        (rw
          (records-append f rows (later k), collected n (page_limit limit) (records f none rows) l)
          refl)

  -- The requests of all pages from the k-th on, read with at most `fuel` calls: the k-th page is read
  -- when the requests `later k` have begun_rows since the first one.
  unfoldable pub walk : (fuel k : ℕ) → Option Cursor → Option (List UsageRequest)
  walk zero k cursor = none
  walk (suc fuel) k cursor = elim (requests fingerprint f cursor limit (rows ++ later k)) [
    | err e ↦ none
    | ok p ↦ elim p.next_cursor [
      | none ↦ some p.page
      | some c ↦ elim (walk fuel (suc k) (some c)) [
        | none ↦ none
        | some rest ↦ some (p.page ++ rest)
      ]
    ]
  ]

  walk-reply :
      (fuel k n : ℕ) (cursor : Option Cursor)
      → 1 ≤ page_limit limit
      → ((j : ℕ) → All (λ r. has_no_end r ≡ true) (later j))
      → requests fingerprint f cursor limit (rows ++ later k) ≡ ok (reply n)
      → length (drop n (records f none rows)) < fuel
      → walk fuel k cursor ≡ some (drop n (records f none rows))
  unfolding walk
  walk-reply zero k n cursor l h e enough = absurd (omega (arith, enough))
  walk-reply (suc fuel) k n cursor l h e enough =
      let limit' = page_limit limit in
      let all = records f none rows in
      let left = drop n all in
      elim (Bool-cases (ltb limit' (length left))) [
        | inr last ↦ ground (arith, e, last, take_all limit' left (ground (arith, last)))
        | inl more ↦
            let size : length (take limit' left) ≡ limit' =
              length-take limit' left (ground (arith, more)) in
            let short : length (drop (n + limit') all) < fuel =
              ground (arith, more, l, enough, length-drop n all, length-drop (n + limit') all) in
            let rest =
              walk-reply fuel (suc k) (n + limit') (some (cursor_at (n + limit'))) l h
                (next_page (suc k) (n + limit') l (h (suc k))) short in
            let joined : take limit' left ++ drop (n + limit') all ≡ left =
              ap (λ xs. take limit' left ++ xs) (sym (drop-drop limit' n all))
              ∙ append-take-drop limit' left in
            ground (arith, e, more, size, rest, joined)
      ]

-- Reading the pages of `requests` one after another, each with the cursor of the page before, ends, and
-- gives each request that the filters let through at the first page once, in the order of the
-- ledger, whatever the limit, if not 0, also when other requests begin between the pages. One call more than
-- there are such requests is enough.
pub requests_complete :
    (fingerprint : UsageFilters → ℕ → ℕ) (f : UsageFilters) (limit : Option ℕ)
    (rows : List UsageRequest) (later : ℕ → List UsageRequest)
    → 1 ≤ page_limit limit
    → later 0 ≡ []
    → ((j : ℕ) → All (λ r. has_no_end r ≡ true) (later j))
    → walk fingerprint f limit rows later (suc (length (records f none rows))) 0 none
      ≡ some (records f none rows)
requests_complete fingerprint f limit rows later l start h =
    let all = records f none rows in
    let table : rows ++ later 0 ≡ rows = ap (λ xs. rows ++ xs) start ∙ append-nil rows in
    let page =
      ap (λ t. requests fingerprint f none limit t) table
      ∙ first_page fingerprint f limit rows later l in
    walk-reply fingerprint f limit rows later (suc (length all)) 0 0 none l h page
      (omega (arith, length-drop 0 all))
    ∙ ap some (drop_zero all)
