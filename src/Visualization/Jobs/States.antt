-- ===== src/Visualization/Jobs/States.antt =====
-- The state machine of the jobs.
use llm_service.Prelude.{
  ℕ, String, Bool, true, false, not, ◌&&◌, none, some, List, [], ◌∷◌, ◌≡◌, refl, sym, ap, ◌∙◌, ◌⊎◌,
  inl, inr, str_eq, str_eq_iff, str_eq_refl, lookup, lookup-insert, arith, Bool-cases, Option-cases,
}
use llm_service.Visualization.Jobs.{
  JobState, ready, is_terminal, can_transition, same_state, JobRecord, MemoryJobStore, get, Fields,
  set_fields, update,
}

-- A call of `update`.
pub record Write : Type 0 where
  pub now : ℕ
  pub job_id : String
  pub new_state : JobState
  pub fields : Fields

abbrev pub write : Write → MemoryJobStore → MemoryJobStore
write w store = (update w.now w.job_id w.new_state w.fields store).1

abbrev pub write_all : List Write → MemoryJobStore → MemoryJobStore
write_all [] store = store
write_all (w ∷ ws) store = write_all ws (write w store)

-- The states a job may pass through.
pub data Moves : JobState → JobState → Type 0 where
  stays : {s : JobState} → Moves s s
  moves : {r s t : JobState} → can_transition r s ≡ true → Moves s t → Moves r t

moving-differs :
    (s t : JobState) → can_transition s t ≡ true → (same_state s t && is_terminal t) ≡ false
unfolding can_transition same_state is_terminal
moving-differs s t can = ground arith

module _ (now : ℕ) (job_id : String) (new_state : JobState) (fields : Fields) where
  abbrev pub changed : JobRecord → JobRecord
  changed rec = record (set_fields fields rec) { state = new_state; updated_at = now }

  pub update-other :
      (store : MemoryJobStore) (j : String)
      → str_eq job_id j ≡ false
      → get j (update now job_id new_state fields store).1 ≡ get j store
  unfolding update get
  update-other store j other = elim (Option-cases (lookup job_id store.jobs)) [
    | inl found ↦ rw (update, get, found) refl
    | inr (rec, found) ↦
        elim (Bool-cases (same_state rec.state new_state && is_terminal new_state)) [
          | inl same ↦ rw (update, get, found, same) refl
          | inr differs ↦ elim (Bool-cases (can_transition rec.state new_state)) [
            | inl can ↦
                rw
                  (
                    update,
                    get,
                    found,
                    differs,
                    can,
                    lookup-insert job_id j (changed rec) store.jobs,
                    other,
                  )
                  refl
            | inr cannot ↦ rw (update, get, found, differs, cannot) refl
          ]
        ]
  ]

  -- `update` of a job that is there: it is refused or a repetition, or a transition allows it.
  pub update-own :
      (store : MemoryJobStore) (rec : JobRecord)
      → lookup job_id store.jobs ≡ some rec
      → ((update now job_id new_state fields store).1 ≡ store)
        ⊎ (can_transition rec.state new_state ≡ true)
          × ((update now job_id new_state fields store).0 ≡ some (changed rec))
          × (get job_id (update now job_id new_state fields store).1 ≡ some (changed rec))
  unfolding update get
  update-own store rec found =
      elim (Bool-cases (same_state rec.state new_state && is_terminal new_state)) [
        | inl same ↦ inl (rw (update, get, found, same) refl)
        | inr differs ↦ elim (Bool-cases (can_transition rec.state new_state)) [
          | inl can ↦ inr (
            can,
            rw (update, get, found, differs, can) refl,
            rw
                (
                  update,
                  get,
                  found,
                  differs,
                  can,
                  lookup-insert job_id job_id (changed rec) store.jobs,
                  str_eq_refl job_id,
                )
                refl,
          )
          | inr cannot ↦ inl (rw (update, get, found, differs, cannot) refl)
        ]
      ]

  -- `update` along an allowed transition
  pub update-does :
      (store : MemoryJobStore) (rec : JobRecord)
      → lookup job_id store.jobs ≡ some rec
      → can_transition rec.state new_state ≡ true
      → ((update now job_id new_state fields store).0 ≡ some (changed rec))
        × (get job_id (update now job_id new_state fields store).1 ≡ some (changed rec))
  unfolding update get
  update-does store rec found can = (
    rw (update, get, found, differs, can) refl,
    rw
        (
          update,
          get,
          found,
          differs,
          can,
          lookup-insert job_id job_id (changed rec) store.jobs,
          str_eq_refl job_id,
        )
        refl,
  )
    where
      differs : (same_state rec.state new_state && is_terminal new_state) ≡ false
      differs = moving-differs rec.state new_state can

  -- `update` against the state machine
  pub update-refused :
      (store : MemoryJobStore) (rec : JobRecord)
      → lookup job_id store.jobs ≡ some rec
      → can_transition rec.state new_state ≡ false
      → is_terminal new_state ≡ false
      → update now job_id new_state fields store ≡ (none, store)
  unfolding update get
  update-refused store rec found cannot active = rw (update, get, found, differs, cannot) refl
    where
      differs : (same_state rec.state new_state && is_terminal new_state) ≡ false
      differs = ground (arith, active)

  -- What `update` leaves of the job `j`: the record as it was, or one that a transition allows.
  pub update-lookup :
      (store : MemoryJobStore) (j : String) (rec : JobRecord)
      → get j store ≡ some rec
      → (get j (update now job_id new_state fields store).1 ≡ some rec)
        ⊎ (can_transition rec.state new_state ≡ true)
          × (get j (update now job_id new_state fields store).1 ≡ some (changed rec))
  unfolding get
  update-lookup store j rec e = elim (Bool-cases (str_eq job_id j)) [
    | inr other ↦ inl (update-other store j other ∙ e)
    | inl same ↦
        let eq : job_id ≡ j = (str_eq_iff job_id j).0 same in
        elim (update-own store rec (ap (λ k. get k store) eq ∙ e)) [
          | inl kept ↦ inl (ap (get j) kept ∙ e)
          | inr (can, _, found) ↦
              inr
                (can, ap (λ k. get k (update now job_id new_state fields store).1) (sym eq) ∙ found)
        ]
  ]

Moves-trans : {r s t : JobState} → Moves r s → Moves s t → Moves r t
Moves-trans stays q = q
Moves-trans (moves e p) q = moves e (Moves-trans p q)

-- Whatever sequence of `update` calls is made, on this job or on others, a job that is in the store
-- stays in it, and its state has moved along allowed transitions only.
pub write_all-Moves :
    (ws : List Write) (store : MemoryJobStore) (j : String) (rec : JobRecord)
    → get j store ≡ some rec
    → (after : JobRecord) × (get j (write_all ws store) ≡ some after) × Moves rec.state after.state
write_all-Moves [] store j rec e = (rec, e, stays)
write_all-Moves (w ∷ ws) store j rec e =
    elim (update-lookup w.now w.job_id w.new_state w.fields store j rec e) [
      | inl kept ↦ write_all-Moves ws (write w store) j rec kept
      | inr (can, found) ↦
          let (after, is, path) = write_all-Moves ws (write w store) j _ found in
          (after, is, moves can path)
    ]

-- The states that no `update` changes.
unfoldable pub is_final : JobState → Bool
is_final s = is_terminal s && not (same_state s ready)

final-stuck : (s t : JobState) → is_final s ≡ true → can_transition s t ≡ true → ⊥
unfolding is_final can_transition same_state is_terminal
final-stuck s t f can = ground arith

-- Whatever sequence of `update` calls is made, a job that has failed, was cancelled or has expired
-- keeps its record unchanged in every field.
pub write_all-final :
    (ws : List Write) (store : MemoryJobStore) (j : String) (rec : JobRecord)
    → get j store ≡ some rec
    → is_final rec.state ≡ true
    → get j (write_all ws store) ≡ some rec
write_all-final [] store j rec e f = e
write_all-final (w ∷ ws) store j rec e f =
    elim (update-lookup w.now w.job_id w.new_state w.fields store j rec e) [
      | inl kept ↦ write_all-final ws (write w store) j rec kept f
      | inr (can, found) ↦ elim (final-stuck rec.state w.new_state f can) [ ]
    ]
