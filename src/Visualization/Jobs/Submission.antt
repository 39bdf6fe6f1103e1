-- ===== src/Visualization/Jobs/Submission.antt =====
-- Submitting a job twice, claiming it, and the hourly quota.
use llm_service.Prelude.{
  ℕ, ◌≤◌, String, Bool, true, false, some, List, [], ◌∷◌, ◌++◌, ◌≡◌, refl, sym, ap, ◌∙◌, length,
  ltb, leb, contains, str_eq_iff, str_eq_refl, if◌then◌else◌, insert, lookup-insert, arith,
  Bool-cases, Option-cases, ◌⊎◌, inl, inr,
}
use llm_service.Visualization.Jobs.{
  JobRecord, MemoryJobStore, get, discard, create, is_usable, create_if_absent, recent, hits_of,
  hourly_count, claim,
}

create_if_absent-found :
    (rec existing : JobRecord) (store : MemoryJobStore)
    → get rec.id store ≡ some existing
    → is_usable existing.state ≡ true
    → create_if_absent rec store ≡ ((existing, false), store)
unfolding create_if_absent
create_if_absent-found rec existing store found usable = rw (create_if_absent, found, usable) refl

create_if_absent-cases :
    (rec : JobRecord) (store : MemoryJobStore)
    → ((existing : JobRecord) × (get rec.id store ≡ some existing)
        × (is_usable existing.state ≡ true)
        × (create_if_absent rec store ≡ ((existing, false), store)))
      ⊎ (create_if_absent rec store ≡ ((rec, true), create rec store))
unfolding create_if_absent create
create_if_absent-cases rec store = elim (Option-cases (get rec.id store)) [
  | inl found ↦ inr (rw (create_if_absent, found) refl)
  | inr (existing, found) ↦ elim (Bool-cases (is_usable existing.state)) [
    | inl usable ↦
        inl (existing, found, usable, create_if_absent-found rec existing store found usable)
    | inr old ↦ inr (rw (create_if_absent, found, old) refl)
  ]
]

get-create : (rec : JobRecord) (store : MemoryJobStore) → get rec.id (create rec store) ≡ some rec
unfolding get create
get-create rec store = rw (lookup-insert rec.id rec.id rec store.jobs, str_eq_refl rec.id) refl

-- A job that is still wanted is made once: when a record with a usable state has been submitted,
-- whatever was there before, submitting any record with the same id gives back the job of the first
-- submission, says that nothing was created, and leaves the store as it is.
create_if_absent-again :
    (rec rec' : JobRecord) (store : MemoryJobStore)
    → is_usable rec.state ≡ true
    → rec'.id ≡ rec.id
    → create_if_absent rec' (create_if_absent rec store).1
      ≡ (((create_if_absent rec store).0.0, false), (create_if_absent rec store).1)
create_if_absent-again rec rec' store usable same = elim (create_if_absent-cases rec store) [
  | inl (existing, found, kept, out) ↦
      rw out (create_if_absent-found rec' existing store (ap (λ k. get k store) same ∙ found) kept)
  | inr out ↦ rw out (
      create_if_absent-found rec' rec (create rec store)
        (ap (λ k. get k (create rec store)) same ∙ get-create rec store) usable)
]

contains-discard : (j : String) (js : List String) → contains j (discard j js) ≡ false
unfolding discard
contains-discard j [] = refl
contains-discard j (i ∷ js) = ground (arith, str_eq_iff i j, str_eq_iff j i, contains-discard j js)

-- Of two claims of a job the second is refused; and after a submission that creates the job, also
-- one that replaces a finished job, the job can be claimed.
claim-once :
    (rec : JobRecord) (store : MemoryJobStore)
    → ((claim rec.id (claim rec.id store).1).0 ≡ false)
      × (((create_if_absent rec store).0.1 ≡ false)
          ⊎ ((claim rec.id (create_if_absent rec store).1).0 ≡ true))
unfolding claim create
claim-once rec store = (
  claim-again,
  elim (create_if_absent-cases rec store) [
    | inl (existing, found, kept, out) ↦ inl (rw out refl)
    | inr out ↦ inr (rw (out, claim, create, contains-discard rec.id store.claimed) refl)
  ],
)
  where
    claim-again : (claim rec.id (claim rec.id store).1).0 ≡ false
    claim-again = elim (Bool-cases (contains rec.id store.claimed)) [
      | inl held ↦ rw (claim, held, claim, held) refl
      | inr free ↦ rw (claim, free, claim, str_eq_refl rec.id) refl
    ]

-- The spec of the quota: the answers to calls made at the given times, when the calls at the times
-- `admitted` were let through: a call passes if fewer than `limit` of the last hour's calls did.
abbrev pub quota : ℕ → List ℕ → List ℕ → List Bool
quota limit admitted [] = []
quota limit admitted (now ∷ times) =
    if ltb (length (recent now admitted)) limit
    then true ∷ quota limit (admitted ++ (now ∷ [])) times
    else false ∷ quota limit admitted times

abbrev pub count_all : String → ℕ → List ℕ → MemoryJobStore → List Bool
count_all owner limit [] store = []
count_all owner limit (now ∷ times) store =
    let (answer, after) = hourly_count now owner limit store in
    answer ∷ count_all owner limit times after

-- The clock does not run backwards from `t` on.
abbrev pub IsClock : ℕ → List ℕ → Type 0
IsClock t [] = Unit
IsClock t (now ∷ times) = (t ≤ now) × IsClock now times

recent-recent : (m now : ℕ) (ts : List ℕ) → m ≤ now → recent now (recent m ts) ≡ recent now ts
unfolding recent
recent-recent m now [] le = refl
recent-recent m now (t ∷ ts) le = ground (arith, recent-recent m now ts le)

recent-append : (now : ℕ) (xs ys : List ℕ) → recent now (xs ++ ys) ≡ recent now xs ++ recent now ys
unfolding recent
recent-append now [] ys = refl
recent-append now (x ∷ xs) ys = ground (arith, recent-append now xs ys)

module _ (now : ℕ) (owner : String) (limit : ℕ) (store : MemoryJobStore) where
  hits_of-insert :
      (kept : List ℕ) → hits_of owner (record store { hits = insert owner kept store.hits }) ≡ kept
  unfolding hits_of
  hits_of-insert kept =
      rw (hits_of, lookup-insert owner owner kept store.hits, str_eq_refl owner) refl

  -- A call that passes, and one that does not.
  hourly_count-passes :
      ltb (length (recent now (hits_of owner store))) limit ≡ true
      → ((hourly_count now owner limit store).0 ≡ true)
        × (hits_of owner (hourly_count now owner limit store).1
            ≡ recent now (hits_of owner store) ++ (now ∷ []))
  unfolding hourly_count
  hourly_count-passes h = rw (hourly_count, full) (refl, hits_of-insert _)
    where
      full : leb limit (length (recent now (hits_of owner store))) ≡ false
      full = ground (arith, h)

  hourly_count-refuses :
      ltb (length (recent now (hits_of owner store))) limit ≡ false
      → ((hourly_count now owner limit store).0 ≡ false)
        × (hits_of owner (hourly_count now owner limit store).1 ≡ recent now (hits_of owner store))
  unfolding hourly_count
  hourly_count-refuses h = rw (hourly_count, full) (refl, hits_of-insert _)
    where
      full : leb limit (length (recent now (hits_of owner store))) ≡ true
      full = ground (arith, h)

count_all-quota :
    (owner : String) (limit t : ℕ) (times admitted : List ℕ) (store : MemoryJobStore)
    → IsClock t times
    → recent t (hits_of owner store) ≡ recent t admitted
    → count_all owner limit times store ≡ quota limit admitted times
count_all-quota owner limit t [] admitted store clock same = refl
count_all-quota owner limit t (now ∷ times) admitted store (le, clock) same =
    elim (Bool-cases (ltb (length (recent now (hits_of owner store))) limit)) [
      | inl h ↦
          let (answer, hits) = hourly_count-passes now owner limit store h in
          rw (answer, sym (ap (λ ts. ltb (length ts) limit) kept) ∙ h)
            (ap (λ bs. true ∷ bs)
              (count_all-quota owner limit now times (admitted ++ (now ∷ [])) _ clock (
                ap (recent now) hits
                ∙ recent-append now _ (now ∷ [])
                ∙ ap (λ ts. ts ++ recent now (now ∷ []))
                    (recent-recent now now _ (omega arith) ∙ kept)
                ∙ sym (recent-append now admitted (now ∷ [])))))
      | inr h ↦
          let (answer, hits) = hourly_count-refuses now owner limit store h in
          rw (answer, sym (ap (λ ts. ltb (length ts) limit) kept) ∙ h)
            (ap (λ bs. false ∷ bs)
              (count_all-quota owner limit now times admitted _ clock
                (ap (recent now) hits ∙ recent-recent now now _ (omega arith) ∙ kept)))
    ]
  where
    kept : recent now (hits_of owner store) ≡ recent now admitted
    kept =
        sym (recent-recent t now (hits_of owner store) le)
        ∙ ap (recent now) same
        ∙ recent-recent t now admitted le

-- An owner's hourly quota: for calls made at any times of a clock that does not run backwards, by an
-- owner without earlier calls, each call passes exactly if fewer than `limit` of the last hour's
-- calls passed.
pub hourly_count-quota :
    (owner : String) (limit t : ℕ) (times : List ℕ) (store : MemoryJobStore)
    → IsClock t times
    → hits_of owner store ≡ []
    → count_all owner limit times store ≡ quota limit [] times
hourly_count-quota owner limit t times store clock none_yet =
    count_all-quota owner limit t times [] store clock (ap (recent t) none_yet)
