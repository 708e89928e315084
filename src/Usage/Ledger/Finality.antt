-- ===== src/Usage/Ledger/Finality.antt =====
-- The life of a row of provider_requests in packages/runtime/src/usage-ledger.ts, over any sequence of
-- calls: it ends once.
use foundry_agent_workspace.Base.{
  ℕ, ◌⊎◌, Bool, false, not, ◌&&◌, ◌||◌, ◌≡◌, refl, ap, inl, inr, Option, some, List, [], ◌∷◌, ◌++◌,
  ◌==◌, arith, Bool-cases, Option-cases, Result, ok, err, find, any, update, Distinct,
  Distinct-append, Distinct-update, All-of_not_any, find-append, find-update_off, settled_count,
  update_none, any_none,
}
use foundry_agent_workspace.Accounts.{Number, safe_nat}
use foundry_agent_workspace.Usage.Ledger.{
  interrupted, Purpose, UsageRequest, Task, ModelProfile, LedgerError, is_pending, has_request_id,
  UsageEnding, new_request, task_exists, begin_usage, is_attemptable, attempt_usage, is_open,
  finished, finish_usage, has_no_end, recover,
}

pub data Call : Type 0 where
  begins : (id : ℕ) → Option Task → ModelProfile → Number → Purpose → (now : ℕ) → Call
  attempts : (id now : ℕ) → Call
  finishes : (id : ℕ) → UsageEnding → (now : ℕ) → Call
  recovers : (now : ℕ) → Call

abbrev pub begun_rows :
    List UsageRequest → Result LedgerError (List UsageRequest) → List UsageRequest
begun_rows rows (ok next) = next
begun_rows rows (err e) = rows

abbrev pub ended_rows :
    List UsageRequest → Result LedgerError (List UsageRequest × Bool) → List UsageRequest
ended_rows rows (ok p) = p.0
ended_rows rows (err e) = rows

-- A call that throws leaves the table as it was.
unfoldable pub call_step :
    (ℕ → Option ℕ) → (restarted : ℕ) → List UsageRequest → Call → List UsageRequest
call_step title_of restarted rows (begins id task profile reserved purpose now) =
    begun_rows rows (begin_usage title_of rows id task profile reserved purpose now)
call_step title_of restarted rows (attempts id now) = attempt_usage rows id now
call_step title_of restarted rows (finishes id e now) = ended_rows rows (finish_usage rows id e now)
call_step title_of restarted rows (recovers now) = recover restarted rows now

unfoldable pub call_steps :
    (ℕ → Option ℕ) → (restarted : ℕ) → List UsageRequest → List Call → List UsageRequest
call_steps title_of restarted rows [] = rows
call_steps title_of restarted rows (c ∷ cs) =
    call_steps title_of restarted (call_step title_of restarted rows c) cs

abbrev pub DistinctRequests : List UsageRequest → Type 0
DistinctRequests = Distinct (λ (r : UsageRequest). r.request_id)

finished_id :
    (e : UsageEnding) (now : ℕ) (r : UsageRequest) → (finished e now r).request_id ≡ r.request_id
unfolding finished
finished_id e now r = refl

-- How a call of `finishUsage` that returned changed the table.
finish_usage_ok :
    (rows : List UsageRequest) (id : ℕ) (e : UsageEnding) (now : ℕ)
    → (ended_rows rows (finish_usage rows id e now) ≡ rows)
      ⊎ (ended_rows rows (finish_usage rows id e now) ≡ update (is_open id) (finished e now) rows)
unfolding finish_usage
finish_usage_ok rows id e now =
    elim (Bool-cases (not (any (is_open id) rows) || not (is_pending e.outcome))) [
      | inl fine ↦ inr (rw fine refl)
      | inr refused ↦ inl (rw refused refl)
    ]

begin_usage_ok :
    (title_of : ℕ → Option ℕ) (rows : List UsageRequest) (id : ℕ) (task : Option Task)
    (profile : ModelProfile) (reserved : Number) (purpose : Purpose) (now : ℕ)
    → (begun_rows rows (begin_usage title_of rows id task profile reserved purpose now) ≡ rows)
      ⊎ ((x : UsageRequest) × (x.request_id ≡ id)
          × (any (has_request_id id) rows ≡ false)
          × (begun_rows rows (begin_usage title_of rows id task profile reserved purpose now)
              ≡ rows ++ x ∷ []))
unfolding begin_usage
begin_usage_ok title_of rows id task profile reserved purpose now =
    elim (Option-cases (safe_nat reserved)) [
      | inl bad ↦ inl (rw bad refl)
      | inr (n, good) ↦
          elim (Bool-cases (not (any (has_request_id id) rows) && task_exists title_of task)) [
            | inr refused ↦ inl (rw (good, refused) refl)
            | inl fine ↦ inr (
              new_request title_of id task profile n purpose now,
              refl,
              ground (arith, fine),
              rw (good, fine) refl,
            )
          ]
    ]

-- What a call makes of the table: an update of unfinished rows, which keeps their ids, or a new row.
data Change (rows : List UsageRequest) : List UsageRequest → Type 0 where
  kept : Change rows rows
  updated :
      (q : UsageRequest → Bool) (g : UsageRequest → UsageRequest)
      → ((r : UsageRequest) → (g r).request_id ≡ r.request_id)
      → ((r : UsageRequest) → has_no_end r ≡ false → q r ≡ false)
      → Change rows (update q g rows)
  grown :
      (x : UsageRequest)
      → any (has_request_id x.request_id) rows ≡ false
      → Change rows (rows ++ x ∷ [])

call_step-Change :
    (title_of : ℕ → Option ℕ) (restarted : ℕ) (rows : List UsageRequest) (c : Call)
    → Change rows (call_step title_of restarted rows c)
unfolding call_step attempt_usage recover
call_step-Change title_of restarted rows (begins id task profile reserved purpose now) =
    elim (begin_usage_ok title_of rows id task profile reserved purpose now) [
      | inl same ↦ rw same kept
      | inr (x, own, free, next) ↦ rw next (grown x (rw own free))
    ]
call_step-Change title_of restarted rows (attempts id now) =
    updated (is_attemptable id) (λ r. record r { attempted_at = some now }) (λ r. refl)
      (λ r h. ground (arith, h))
call_step-Change title_of restarted rows (finishes id e now) =
    elim (finish_usage_ok rows id e now) [
      | inl same ↦ rw same kept
      | inr next ↦ rw next (
          updated (is_open id) (finished e now) (λ r. finished_id e now r)
            (λ r h. ground (arith, h)))
    ]
call_step-Change title_of restarted rows (recovers now) =
    updated has_no_end
      (λ r. record r { outcome = interrupted; finished_at = some now; reason = some restarted })
      (λ r. refl) (λ r h. h)

Change-finished :
    (rows rows' : List UsageRequest) (id : ℕ) (r : UsageRequest)
    → Change rows rows'
    → find (has_request_id id) rows ≡ some r
    → has_no_end r ≡ false
    → find (has_request_id id) rows' ≡ some r
Change-finished rows _ id r kept found done = found
Change-finished rows _ id r (updated q g same off) found done =
    find-update_off (has_request_id id) q g rows r (λ y. ap (λ k. k == id) (same y)) (off r done)
      found
Change-finished rows _ id r (grown x free) found done =
    find-append (has_request_id id) rows (x ∷ []) r found

Change-Distinct :
    (rows rows' : List UsageRequest)
    → Change rows rows'
    → DistinctRequests rows
    → DistinctRequests rows'
Change-Distinct rows _ kept d = d
Change-Distinct rows _ (updated q g same off) d =
    Distinct-update (λ r. r.request_id) q g rows same d
Change-Distinct rows _ (grown x free) d =
    Distinct-append (λ r. r.request_id) rows x d
      (All-of_not_any (λ r. r.request_id) x.request_id rows free)

call_steps-kept :
    (title_of : ℕ → Option ℕ) (restarted : ℕ) (rows : List UsageRequest) (cs : List Call) (id : ℕ)
    (r : UsageRequest)
    → DistinctRequests rows
    → find (has_request_id id) rows ≡ some r
    → has_no_end r ≡ false
    → (find (has_request_id id) (call_steps title_of restarted rows cs) ≡ some r)
      × DistinctRequests (call_steps title_of restarted rows cs)
unfolding call_steps
call_steps-kept title_of restarted rows [] id r d found done = (found, d)
call_steps-kept title_of restarted rows (c ∷ cs) id r d found done =
    let next = call_step title_of restarted rows c in
    let change = call_step-Change title_of restarted rows c in
    call_steps-kept title_of restarted next cs id r (Change-Distinct rows next change d)
      (Change-finished rows next id r change found done) done

-- A request is settled once. When its row is finished, by `finishUsage` or by the recovery after a
-- restart, whatever calls follow leave the row as it is, with its outcome and its tokens, and
-- `finishUsage` on it answers false and changes nothing.
pub finish_usage_once :
    (title_of : ℕ → Option ℕ) (restarted : ℕ) (rows : List UsageRequest) (cs : List Call) (id : ℕ)
    (r : UsageRequest) (e : UsageEnding) (now : ℕ)
    → DistinctRequests rows
    → find (has_request_id id) rows ≡ some r
    → has_no_end r ≡ false
    → let rows' = call_steps title_of restarted rows cs in
      (find (has_request_id id) rows' ≡ some r) × (finish_usage rows' id e now ≡ ok (rows', false))
unfolding finish_usage
finish_usage_once title_of restarted rows cs id r e now d found done =
    let rows' = call_steps title_of restarted rows cs in
    let after = call_steps-kept title_of restarted rows cs id r d found done in
    let count = settled_count (λ x. x.request_id) id has_no_end rows' r after.1 after.0 done in
    (
      after.0,
      rw
          (
            any_none (is_open id) rows' count,
            update_none (is_open id) (finished e now) rows' count,
            count,
          )
          refl,
    )
