-- ===== src/Usage/Ledger/Listing.antt =====
-- The filters and the order of usage requests: `records` of packages/runtime/src/usage-ledger.ts.
use foundry_agent_workspace.Base.{
  is_some, take, ℕ, Bool, true, false, not, ◌&&◌, ◌||◌, Option, none, some, List, [], ◌∷◌, ◌==◌,
  leb, ltb, if◌then◌else◌, filter,
}
use foundry_agent_workspace.Usage.Ledger.{
  Purpose, conversation, probe, legacy, ApiKind, fake, responses, chat_completions, anthropic,
  UsageRequest,
}

-- The filter `model`: `u:`, or `d:` and `r:` with a name.
pub data ModelFilter : Type 0 where
  unknown_model : ModelFilter
  deployment_model reported_as : ℕ → ModelFilter

pub data EffortFilter : Type 0 where
  unknown_effort default_effort : EffortFilter
  effort_of : ℕ → EffortFilter

-- Filters that UsageFiltersSchema has accepted.
pub record UsageFilters : Type 0 where
  pub from : Option ℕ
  pub to : Option ℕ
  pub include_demo : Bool
  pub task_id : Option ℕ
  pub include_children : Bool
  pub profile_id : Option ℕ
  pub api_kind : Option ApiKind
  pub model : Option ModelFilter
  pub effort : Option EffortFilter
  pub purpose : Option Purpose

-- `column = ?`, which a null never meets.
abbrev pub equals : Option ℕ → ℕ → Bool
equals none n = false
equals (some m) n = m == n

abbrev pub api_rank : ApiKind → ℕ
api_rank fake = 0
api_rank responses = 1
api_rank chat_completions = 2
api_rank anthropic = 3

abbrev pub purpose_rank : Purpose → ℕ
purpose_rank conversation = 0
purpose_rank probe = 1
purpose_rank legacy = 2

abbrev pub api_of : UsageRequest → Option ℕ
api_of r = elim r.api_kind [ none ↦ none | some kind ↦ some (api_rank kind) ]

-- A condition that is pushed only when its filter is set.
abbrev pub when_set {ℓ} : {A : Type ℓ} → Option A → (A → Bool) → Bool
when_set none test = true
when_set (some x) test = test x

abbrev pub meets_model : UsageRequest → ModelFilter → Bool
meets_model r unknown_model = not r.attribution_known
meets_model r (deployment_model name) =
    not (is_some r.reported_model) && equals r.deployment name && r.attribution_known
meets_model r (reported_as name) = equals r.reported_model name

abbrev pub meets_effort : UsageRequest → EffortFilter → Bool
meets_effort r unknown_effort = not r.attribution_known
meets_effort r default_effort = not (is_some r.effort) && r.attribution_known
meets_effort r (effort_of name) = equals r.effort name

unfoldable pub meets : UsageFilters → UsageRequest → Bool
meets f r =
    when_set f.from (λ from. leb from r.created_at)
    && when_set f.to (λ to. ltb r.created_at to)
    && (f.include_demo || not (equals (api_of r) (api_rank fake)))
    && when_set f.task_id (λ id.
      if f.include_children
      then equals r.root_task_id id || equals r.task_id id
      else equals r.task_id id)
    && when_set f.profile_id (λ id. equals r.profile_id id)
    && when_set f.api_kind (λ kind. equals (api_of r) (api_rank kind))
    && when_set f.purpose (λ p. purpose_rank r.purpose == purpose_rank p)
    && when_set f.effort (meets_effort r)
    && when_set f.model (meets_model r)

-- ORDER BY created_at DESC, request_id DESC
abbrev pub comes_first : UsageRequest → UsageRequest → Bool
comes_first r s =
    ltb s.created_at r.created_at || (s.created_at == r.created_at && leb s.request_id r.request_id)

abbrev pub insert : UsageRequest → List UsageRequest → List UsageRequest
insert r [] = r ∷ []
insert r (s ∷ rs) = if comes_first r s then r ∷ s ∷ rs else s ∷ insert r rs

unfoldable pub ordered : List UsageRequest → List UsageRequest
ordered [] = []
ordered (r ∷ rs) = insert r (ordered rs)

-- rowid <= cap
abbrev pub capped : Option ℕ → List UsageRequest → List UsageRequest
capped none rows = rows
capped (some cap) rows = take cap rows

unfoldable pub records : UsageFilters → Option ℕ → List UsageRequest → List UsageRequest
records f cap rows = ordered (filter (meets f) (capped cap rows))
