-- ===== src/Bundle/Previous/Bounded.antt =====
-- The store stays within its bounds, and gives back what was recorded last.
use llm_service.Prelude.{
  ℕ, zero, suc, ◌-◌, ◌≤◌, ◌≡◌, refl, ◌≢◌, inl, inr, String, false, ◌||◌, Option, none, some, List,
  [], ◌∷◌, ◌++◌, str_eq, str_eq_iff, str_eq_refl, if◌then◌else◌, ltb, length, take, has_key, All,
  All-append, Dict, IsDict, lookup, erase, lookup-erase, erase-IsDict, length-erase, arith,
  Bool-cases,
}
use llm_service.Bundle.Previous.{
  Entry, Store, init, unique_ids, is_empty, evict, put, record_ids, got, get,
}

abbrev Fits : ℕ → (String × Entry) → Type 0
Fits most item = (1 ≤ length item.1.ids) × (length item.1.ids ≤ most)

-- one entry for a conversation, not too many, each with some ids and not too many
pub record IsValid (s : Store) : Type 0 where
  keyed : IsDict s.items
  few : length s.items ≤ s.max_conversations
  fitting : All (Fits s.max_ids) s.items

lookup-append :
    (k j : String) (e : Entry) (d : Dict Entry)
    → lookup j (d ++ (k, e) ∷ [])
      ≡ (if has_key j d then lookup j d else if str_eq k j then some e else none)
lookup-append k j e [] = refl
lookup-append k j e ((i, w) ∷ d) = ground (arith, lookup-append k j e d)

append-IsDict :
    (k : String) (e : Entry) (d : Dict Entry)
    → IsDict d
    → has_key k d ≡ false
    → IsDict (d ++ (k, e) ∷ [])
append-IsDict k e [] h m = (refl, tt)
append-IsDict k e ((i, w) ∷ d) h m =
    ground (arith, str_eq_iff i k, str_eq_iff k i, lookup-append k i e d, append-IsDict k e d h.1)

has_key-erase : (k : String) (d : Dict Entry) → IsDict d → has_key k (erase k d) ≡ false
has_key-erase k d h = rw (lookup-erase k k d h, str_eq_refl k) refl

evict-IsDict : (most : ℕ) (d : Dict Entry) → IsDict d → IsDict (evict most d)
unfolding evict
evict-IsDict most [] h = tt
evict-IsDict most ((i, w) ∷ d) h = ground (arith, evict-IsDict most d h.1)

length-evict : (most : ℕ) (d : Dict Entry) → length (evict most d) ≤ most
unfolding evict
length-evict most [] = omega arith
length-evict most (x ∷ d) = ground (arith, length-evict most d)

All-evict :
    (P : String × Entry → Type 0) (most : ℕ) (d : Dict Entry) → All P d → All P (evict most d)
unfolding evict
All-evict P most [] h = tt
All-evict P most (x ∷ d) h = ground (arith, All-evict P most d h.1)

All-erase :
    (P : String × Entry → Type 0) (k : String) (d : Dict Entry) → All P d → All P (erase k d)
All-erase P k [] h = tt
All-erase P k ((i, w) ∷ d) h = ground (arith, All-erase P k d h.1)

length-take-le : (n : ℕ) (xs : List String) → length (take n xs) ≤ n
length-take-le zero xs = omega arith
length-take-le (suc n) [] = omega arith
length-take-le (suc n) (x ∷ xs) = omega (arith, length-take-le n xs)

put-IsValid :
    (k : String) (e : Entry) (s : Store) → IsValid s → Fits s.max_ids (k, e) → IsValid (put k e s)
unfolding put
put-IsValid k e s h f = record {
  keyed =
      evict-IsDict s.max_conversations _
        (append-IsDict k e _ (erase-IsDict k s.items h.keyed) (has_key-erase k s.items h.keyed));
  few = length-evict s.max_conversations _;
  fitting =
      All-evict (Fits s.max_ids) s.max_conversations _
        (All-append (Fits s.max_ids) _ _ (All-erase (Fits s.max_ids) k s.items h.fitting) (f, tt));
}

record_ids-IsValid :
    (k : String) (chunk_ids : List String) (now : ℕ) (s : Store)
    → IsValid s
    → IsValid (record_ids k chunk_ids now s)
unfolding record_ids is_empty
record_ids-IsValid k chunk_ids now s h =
    let ids = take s.max_ids (unique_ids [] chunk_ids) in
    elim (Bool-cases (str_eq k "" || is_empty ids)) [
      | inl e ↦ rw e h
      | inr e ↦ rw e (
          put-IsValid k (record { at = now; ids = ids }) s h
            (ground (arith, e), length-take-le s.max_ids (unique_ids [] chunk_ids)))
    ]

got-IsValid :
    (k : String) (now : ℕ) (s : Store) (found : Option Entry)
    → IsValid s
    → IsValid (got k now s found).store
unfolding got
got-IsValid k now s none h = h
got-IsValid k now s (some entry) h = elim (Bool-cases (ltb s.ttl_s (now - entry.at))) [
  | inl e ↦ rw e (record {
    keyed = erase-IsDict k s.items h.keyed;
    few = ground (arith, length-erase k s.items, h.few);
    fitting = All-erase (Fits s.max_ids) k s.items h.fitting;
  })
  | inr e ↦ rw e h
]

-- the stores that calls of `record` and `get` make of a new one
pub data Reach (ttl_s most most_ids : ℕ) : Store → Type 0 where
  created : Reach ttl_s most most_ids (init ttl_s most most_ids)
  recorded :
      {s : Store} (k : String) (chunk_ids : List String) (now : ℕ)
      → Reach ttl_s most most_ids s
      → Reach ttl_s most most_ids (record_ids k chunk_ids now s)
  read :
      {s : Store} (k : String) (now : ℕ)
      → Reach ttl_s most most_ids s
      → Reach ttl_s most most_ids (get k now s).store

pub init-IsValid : (ttl_s most most_ids : ℕ) → IsValid (init ttl_s most most_ids)
unfolding init
init-IsValid ttl_s most most_ids = record { keyed = tt; few = omega arith; fitting = tt }

-- A store that calls of `record` and `get` made of a new one has one entry for a conversation, no
-- more conversations than its limit, and in each entry at least one id and no more than its limit.
pub Reach-IsValid : {ttl_s most most_ids : ℕ} {s : Store} → Reach ttl_s most most_ids s → IsValid s
unfolding get
Reach-IsValid {ttl_s} {most} {most_ids} created = init-IsValid ttl_s most most_ids
Reach-IsValid (recorded {s} k chunk_ids now r) =
    record_ids-IsValid k chunk_ids now s (Reach-IsValid r)
Reach-IsValid (read {s} k now r) = got-IsValid k now s (lookup k s.items) (Reach-IsValid r)

got-young :
    (k : String) (later : ℕ) (s : Store) (e : Entry)
    → later - e.at ≤ s.ttl_s
    → got k later s (some e) ≡ record { ids = e.ids; store = s }
unfolding got
got-young k later s e young = ground (arith, young)

lookup-evict-last :
    (k : String) (e : Entry) (most : ℕ) (d : Dict Entry)
    → 1 ≤ most
    → has_key k d ≡ false
    → lookup k (evict most (d ++ (k, e) ∷ [])) ≡ some e
unfolding evict
lookup-evict-last k e most [] room m = ground (arith, str_eq_refl k, room)
lookup-evict-last k e most ((i, w) ∷ d) room m =
    ground (arith, lookup-append k k e d, str_eq_refl k, lookup-evict-last k e most d room)

lookup-put :
    (k : String) (e : Entry) (s : Store)
    → IsValid s
    → 1 ≤ s.max_conversations
    → lookup k (put k e s).items ≡ some e
unfolding put
lookup-put k e s h room =
    lookup-evict-last k e s.max_conversations (erase k s.items) room
      (has_key-erase k s.items h.keyed)

is_empty-some : (ids : List String) → ids ≢ [] → is_empty ids ≡ false
unfolding is_empty
is_empty-some [] h = elim (h refl) [ ]
is_empty-some (i ∷ is) h = ground arith

put-ttl_s : (k : String) (e : Entry) (s : Store) → (put k e s).ttl_s ≡ s.ttl_s
unfolding put
put-ttl_s k e s = refl

-- what is put is read back, while it is young enough
get-put :
    (k : String) (e : Entry) (later : ℕ) (s : Store)
    → IsValid s
    → 1 ≤ s.max_conversations
    → later - e.at ≤ s.ttl_s
    → get k later (put k e s) ≡ record { ids = e.ids; store = put k e s }
unfolding get
get-put k e later s h room young =
    rw (lookup-put k e s h room) (got-young k later (put k e s) e (rw (put-ttl_s k e s) young))

-- What is recorded for a conversation, where some id is left of it, is read back while it is not
-- older than the time to live: its ids without the empty and the repeated ones, the first of them
-- up to the limit. The reading leaves the store unchanged.
pub get-record_ids :
    (k : String) (chunk_ids : List String) (now later : ℕ) (s : Store)
    → IsValid s
    → 1 ≤ s.max_conversations
    → str_eq k "" ≡ false
    → take s.max_ids (unique_ids [] chunk_ids) ≢ []
    → later - now ≤ s.ttl_s
    → get k later (record_ids k chunk_ids now s) ≡ record {
      ids = take s.max_ids (unique_ids [] chunk_ids);
      store = record_ids k chunk_ids now s;
    }
unfolding record_ids
get-record_ids k chunk_ids now later s h room named present young =
    rw (named, is_empty-some (take s.max_ids (unique_ids [] chunk_ids)) present)
      (get-put k (record { at = now; ids = take s.max_ids (unique_ids [] chunk_ids) }) later s h
        room young)
