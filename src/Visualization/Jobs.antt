-- ===== src/Visualization/Jobs.antt =====
-- Jobs and the in-memory job store (app/visualization/jobs.py). A specification stands as its
-- canonical JSON text, a time is in seconds and is an argument. The job that the source changes in
-- place is put back under its id. The keyword arguments of `update` are those that its callers pass.
pub mod States
pub mod Submission
use llm_service.Prelude.{
  ℕ, ◌+◌, String, Bool, true, false, not, ◌&&◌, ◌||◌, Option, none, some, List, [], ◌∷◌, ◌++◌,
  length, filter, contains, ltb, leb, str_eq, if◌then◌else◌, Dict, lookup, insert,
}

pub data JobState : Type 0 where
  pending : JobState
  validating : JobState
  rendering : JobState
  repairing : JobState
  ready : JobState
  failed : JobState
  cancelled : JobState
  expired : JobState

-- state in TERMINAL
unfoldable pub is_terminal : JobState → Bool
is_terminal ready = true
is_terminal failed = true
is_terminal cancelled = true
is_terminal expired = true
is_terminal _ = false

-- state in ACTIVE
unfoldable pub is_active : JobState → Bool
is_active pending = true
is_active validating = true
is_active rendering = true
is_active repairing = true
is_active _ = false

-- _ALLOWED
unfoldable pub can_transition : JobState → JobState → Bool
can_transition pending validating = true
can_transition pending failed = true
can_transition pending cancelled = true
can_transition pending expired = true
can_transition validating rendering = true
can_transition validating repairing = true
can_transition validating failed = true
can_transition validating cancelled = true
can_transition validating expired = true
can_transition rendering ready = true
can_transition rendering repairing = true
can_transition rendering validating = true
can_transition rendering failed = true
can_transition rendering cancelled = true
can_transition rendering expired = true
can_transition repairing validating = true
can_transition repairing failed = true
can_transition repairing cancelled = true
can_transition repairing expired = true
can_transition ready expired = true
can_transition _ _ = false

-- old == new
unfoldable pub same_state : JobState → JobState → Bool
same_state pending pending = true
same_state validating validating = true
same_state rendering rendering = true
same_state repairing repairing = true
same_state ready ready = true
same_state failed failed = true
same_state cancelled cancelled = true
same_state expired expired = true
same_state _ _ = false

pub record JobRecord : Type 0 where
  pub id : String
  pub owner : String
  pub spec : String
  pub state : JobState
  pub attempt : ℕ
  pub max_attempts : ℕ
  pub failure : String
  pub media_key : String
  pub created_at : ℕ
  pub updated_at : ℕ
  pub history : List String

pub record MemoryJobStore : Type 0 where
  pub jobs : Dict JobRecord
  pub queue : List String
  pub claimed : List String
  pub hits : Dict (List ℕ)

unfoldable pub init : MemoryJobStore
init = record { jobs = []; queue = []; claimed = []; hits = [] }

unfoldable pub get : String → MemoryJobStore → Option JobRecord
get job_id store = lookup job_id store.jobs

-- `self.claimed.discard(job_id)`
unfoldable pub discard : String → List String → List String
discard job_id = filter (λ j. not (str_eq j job_id))

unfoldable pub create : JobRecord → MemoryJobStore → MemoryJobStore
create rec store = record store {
  jobs = insert rec.id rec store.jobs;
  claimed = discard rec.id store.claimed;
}

-- `existing.state in (JobState.READY, *ACTIVE)`
unfoldable pub is_usable : JobState → Bool
is_usable ready = true
is_usable s = is_active s

unfoldable pub create_if_absent : JobRecord → MemoryJobStore → (JobRecord × Bool) × MemoryJobStore
create_if_absent rec store = elim (get rec.id store) [
  | none ↦ ((rec, true), create rec store)
  | some existing ↦
      if is_usable existing.state
      then ((existing, false), store)
      else ((rec, true), create rec store)
]

-- the keyword arguments of `update`, `none` for one that is not passed
pub record Fields : Type 0 where
  pub attempt : Option ℕ
  pub failure : Option String
  pub media_key : Option String
  pub history : Option (List String)

abbrev pub no_fields : Fields
no_fields = record { attempt = none; failure = none; media_key = none; history = none }

unfoldable pub default {ℓ} : {A : Type ℓ} → A → Option A → A
default a none = a
default _ (some b) = b

-- for k, v in fields.items(): setattr(rec, k, v)
unfoldable pub set_fields : Fields → JobRecord → JobRecord
set_fields fields rec = record rec {
  attempt = default rec.attempt fields.attempt;
  failure = default rec.failure fields.failure;
  media_key = default rec.media_key fields.media_key;
  history = default rec.history fields.history;
}

unfoldable pub update :
    ℕ → String → JobState → Fields → MemoryJobStore → Option JobRecord × MemoryJobStore
update now job_id new_state fields store = elim (get job_id store) [
  | none ↦ (none, store)
  | some rec ↦
      let changed : JobRecord = record (set_fields fields rec) {
        state = new_state;
        updated_at = now;
      } in
      if same_state rec.state new_state && is_terminal new_state
      then (some rec, store)
      else if not (can_transition rec.state new_state)
      then (none, store)
      else (some changed, record store { jobs = insert job_id changed store.jobs })
]

-- `sum(1 for r in jobs.values() if r.owner == owner and r.state in ACTIVE)`
unfoldable pub active_count : String → MemoryJobStore → ℕ
active_count owner store =
    length (filter (λ (_, r). str_eq r.owner owner && is_active r.state) store.jobs)

-- the calls of the last hour
unfoldable pub recent : ℕ → List ℕ → List ℕ
recent now = filter (λ t. ltb now (t + 3600))

-- `self.hits.get(owner, [])`
unfoldable pub hits_of : String → MemoryJobStore → List ℕ
hits_of owner store = elim (lookup owner store.hits) [ none ↦ [] | some ts ↦ ts ]

unfoldable pub hourly_count : ℕ → String → ℕ → MemoryJobStore → Bool × MemoryJobStore
hourly_count now owner limit store =
    let kept = recent now (hits_of owner store) in
    if leb limit (length kept)
    then (false, record store { hits = insert owner kept store.hits })
    else (true, record store { hits = insert owner (kept ++ (now ∷ [])) store.hits })

unfoldable pub enqueue : String → MemoryJobStore → MemoryJobStore
enqueue job_id store = record store { queue = store.queue ++ (job_id ∷ []) }

unfoldable pub dequeue : MemoryJobStore → Option String × MemoryJobStore
dequeue store = elim store.queue [
  | [] ↦ (none, store)
  | job_id ∷ waiting ↦ (some job_id, record store { queue = waiting })
]

unfoldable pub claim : String → MemoryJobStore → Bool × MemoryJobStore
claim job_id store =
    if contains job_id store.claimed
    then (false, store)
    else (true, record store { claimed = job_id ∷ store.claimed })
