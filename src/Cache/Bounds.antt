-- ===== src/Cache/Bounds.antt =====
-- A cache never holds more entries than its maximum, nor a key twice.
use llm_service.Prelude.{
  ℕ, ◌+◌, ◌≤◌, ◌<◌, ◌≡◌, refl, inl, inr, String, true, Option, some, Dict, IsDict, lookup, erase,
  has_key, length, length-erase, length-insert, erase-IsDict, insert-IsDict, Option-cases,
  Bool-cases, ltb, arith, ◌⊎◌, leb, ◌&&◌, not,
}
use llm_service.Cache.{
  CacheEntry, TtlCache, get, set, expired_keys, evict_expired, oldest, evict_lru, write, ttl_of,
}
use llm_service.Cache.Eviction.{oldest-eq-none, oldest-lookup, pop_keys-keeps}

pub record IsValid {V : Type 0} (c : TtlCache V) : Type 0 where
  pub positive : 0 < c.max_size
  pub keys : IsDict c.store
  pub bounded : length c.store ≤ c.max_size

module _ {V : Type 0} where
  pub evict_expired-IsValid :
      (now : ℕ) (c : TtlCache V) → IsValid c → IsValid (evict_expired now c).1
  unfolding evict_expired
  evict_expired-IsValid now c h = ground (arith, pop_keys-keeps (expired_keys now c.store) c h.keys)

  evict_expired-max_size :
      (now : ℕ) (c : TtlCache V) → IsValid c → (evict_expired now c).1.max_size ≡ c.max_size
  unfolding evict_expired
  evict_expired-max_size now c h =
      ground (arith, pop_keys-keeps (expired_keys now c.store) c h.keys)

  length-erase-oldest :
      (d : Dict (CacheEntry V)) (k : String) (e : CacheEntry V)
      → IsDict d
      → oldest d ≡ some (k, e)
      → length (erase k d) + 1 ≡ length d
  length-erase-oldest d k e h found = ground (arith, length-erase k d, oldest-lookup d k e h found)

  -- A valid cache never raises on an eviction, which leaves room for one entry more.
  pub evict_lru-room :
      (now : ℕ) (c : TtlCache V)
      → IsValid c
      → (c' : TtlCache V) × (evict_lru now c ≡ some c')
        × IsValid c'
        × (length c'.store < c'.max_size)
        × (c'.max_size ≡ c.max_size)
  unfolding evict_lru
  evict_lru-room now c h =
      let d = (evict_expired now c).1 in
      let v : IsValid d = evict_expired-IsValid now c h in
      let m : d.max_size ≡ c.max_size = evict_expired-max_size now c h in
      elim (Bool-cases (ltb (length d.store) d.max_size)) [
        | inl room ↦ (d, rw room refl, v, ground arith, m)
        | inr full ↦ elim (Option-cases (oldest d.store)) [
          | inl empty ↦ absurd (ground (arith, oldest-eq-none d.store empty))
          | inr ((k, e), found) ↦
              let fewer : length (erase k d.store) + 1 ≡ length d.store =
                length-erase-oldest d.store k e v.keys found in
              (
                record d { store = erase k d.store; evictions = d.evictions + 1 },
                rw (full, found) refl,
                record {
                  positive = v.positive;
                  keys = erase-IsDict k d.store v.keys;
                  bounded = omega (arith, v.bounded);
                },
                omega (arith, v.bounded),
                m,
              )
        ]
      ]

  write-IsValid :
      (now : ℕ) (key : String) (v : V) (ttl : ℕ) (c : TtlCache V)
      → IsValid c
      → (has_key key c.store ≡ true) ⊎ (length c.store < c.max_size)
      → IsValid (write now key v ttl c)
  unfolding write
  write-IsValid now key v ttl c h room = record {
    positive = h.positive;
    keys = insert-IsDict key _ c.store h.keys;
    bounded = grind (arith, length-insert);
  }

  -- On a valid cache `set` never raises. The cache stays valid: it holds no key twice and no more
  -- entries than its maximum. It keeps its maximum.
  pub set-IsValid :
      (now : ℕ) (key : String) (v : V) (ttl : Option ℕ) (c : TtlCache V)
      → IsValid c
      → (c' : TtlCache V) × (set now key v ttl c ≡ some c')
        × IsValid c'
        × (c'.max_size ≡ c.max_size)
  unfolding set write
  set-IsValid now key v ttl c h =
      elim (Bool-cases (leb c.max_size (length c.store) && not (has_key key c.store))) [
        | inl full ↦
            let (d, evicted, valid, room, same) = evict_lru-room now c h in
            (
              write now key v (ttl_of c ttl) d,
              rw (full, evicted) refl,
              write-IsValid now key v (ttl_of c ttl) d valid (inr room),
              same,
            )
        | inr room ↦ (
          write now key v (ttl_of c ttl) c,
          rw room refl,
          write-IsValid now key v (ttl_of c ttl) c h (ground arith),
          refl,
        )
      ]

  -- A read keeps the cache valid, hit, miss or expiry.
  pub get-IsValid :
      (now : ℕ) (key : String) (c : TtlCache V) → IsValid c → IsValid (get now key c).1
  unfolding get
  get-IsValid now key c h = elim (Option-cases (lookup key c.store)) [
    | inl absent ↦
        rw (absent, get) (record { positive = h.positive; keys = h.keys; bounded = h.bounded })
    | inr (e, found) ↦ grind (arith, erase-IsDict, insert-IsDict, length-erase, length-insert)
  ]
