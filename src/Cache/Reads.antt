-- ===== src/Cache/Reads.antt =====
-- What can be read after a write, a read and an eviction.
use llm_service.Prelude.{
  ℕ, ◌+◌, ◌≤◌, ◌<◌, ◌≡◌, ◌≢◌, inl, inr, ◌⊎◌, String, true, false, Option, none, some, IsDict,
  lookup, has_key, length, lookup-insert, lookup-erase, str_eq, str_eq_iff, str_eq_refl,
  Option-cases, ltb, arith, if◌then◌else◌,
}
use llm_service.Cache.{
  CacheEntry, TtlCache, get, set, expired_keys, evict_expired, older, oldest, evict_lru, touch,
  write, ttl_of,
}
use llm_service.Cache.Eviction.{
  oldest-lookup, oldest-minimal, pop_keys-keeps, lookup-pop_keys, contains-expired_keys,
}
use llm_service.Cache.Bounds.{IsValid}

module _ {V : Type 0} where
  -- what a key is bound to, if that has not expired at `now`
  abbrev pub live : ℕ → String → TtlCache V → Option V
  live now key c = elim (lookup key c.store) [
    | none ↦ none
    | some e ↦ if ltb e.expires_at now then none else some e.value
  ]

  get-live : (now : ℕ) (key : String) (c : TtlCache V) → (get now key c).0 ≡ live now key c
  unfolding get
  get-live now key c = ground arith

  -- A read answers what was live, and changes what no later read can see: of any key, at any later
  -- time.
  pub live-get :
      (now later : ℕ) (key j : String) (c : TtlCache V)
      → IsValid c
      → now ≤ later
      → ((get now key c).0 ≡ live now key c) × (live later j (get now key c).1 ≡ live later j c)
  unfolding get touch
  live-get now later key j c h le = (
    get-live now key c,
    elim (Option-cases (lookup key c.store)) [
      | inl absent ↦ ground arith
      | inr (e, found) ↦ ground (
        arith,
        lookup-insert key j (touch now (c.seq + 1) e) c.store,
        lookup-erase key j c.store h.keys,
        str_eq_iff key j,
      )
    ],
  )

  live-write :
      (now later : ℕ) (key j : String) (v : V) (ttl : ℕ) (c : TtlCache V)
      → live later j (write now key v ttl c) ≡ (
          if str_eq key j then (if ltb (now + ttl) later then none else some v) else live later j c)
  unfolding write
  live-write now later key j v ttl c = grind (arith, lookup-insert)

  -- After a `set` the key is live with the new value until its time to live has passed, and never after.
  pub live-set_self :
      (now later : ℕ) (key : String) (v : V) (ttl : Option ℕ) (c c' : TtlCache V)
      → set now key v ttl c ≡ some c'
      → live later key c' ≡ (if ltb (now + ttl_of c ttl) later then none else some v)
  unfolding set
  live-set_self now later key v ttl c c' h = elim (Option-cases (evict_lru now c)) [
    | inl raised ↦ ground (arith, live-write now later key key v (ttl_of c ttl) c, str_eq_refl key)
    | inr (d, evicted) ↦ ground (
      arith,
      live-write now later key key v (ttl_of c ttl) c,
      live-write now later key key v (ttl_of c ttl) d,
      str_eq_refl key,
    )
  ]

  -- A `set` of a key that is there, or into a cache with room, changes no other key.
  pub live-set_ne :
      (now later : ℕ) (key j : String) (v : V) (ttl : Option ℕ) (c c' : TtlCache V)
      → set now key v ttl c ≡ some c'
      → key ≢ j
      → (has_key key c.store ≡ true) ⊎ (length c.store < c.max_size)
      → live later j c' ≡ live later j c
  unfolding set
  live-set_ne now later key j v ttl c c' h ne room =
      ground (arith, live-write now later key j v (ttl_of c ttl) c, str_eq_iff key j)

  lookup-evict_expired :
      (now : ℕ) (c : TtlCache V) (j : String) (f : CacheEntry V)
      → IsDict c.store
      → lookup j c.store ≡ some f
      → now ≤ f.expires_at
      → lookup j (evict_expired now c).1.store ≡ some f
  unfolding evict_expired
  lookup-evict_expired now c j f h l fresh = ground (
    arith,
    lookup-pop_keys (expired_keys now c.store) c j h,
    contains-expired_keys now c.store j f h l,
  )

  evict_expired-IsDict :
      (now : ℕ) (c : TtlCache V) → IsDict c.store → IsDict (evict_expired now c).1.store
  unfolding evict_expired
  evict_expired-IsDict now c h = (pop_keys-keeps (expired_keys now c.store) c h).0

  -- what an eviction takes away
  evict_lru-lost :
      (now : ℕ) (j i : String) (c d : TtlCache V) (f g : CacheEntry V)
      → IsDict c.store
      → evict_lru now c ≡ some d
      → lookup j c.store ≡ some f
      → lookup j d.store ≡ none
      → now ≤ f.expires_at
      → lookup i c.store ≡ some g
      → now ≤ g.expires_at
      → older g f ≡ false
  unfolding evict_lru
  evict_lru-lost now j i c d f g h evicted lj lost fj li fi =
      let x = (evict_expired now c).1 in
      let hx : IsDict x.store = evict_expired-IsDict now c h in
      let xj : lookup j x.store ≡ some f = lookup-evict_expired now c j f h lj fj in
      let xi : lookup i x.store ≡ some g = lookup-evict_expired now c i g h li fi in
      elim (Option-cases (oldest x.store)) [
        | inl empty ↦ ground arith
        | inr ((k, e), found) ↦ ground (
          arith,
          oldest-lookup x.store k e hx found,
          oldest-minimal x.store k i e g found xi,
          lookup-erase k j x.store hx,
          str_eq_iff k j,
        )
      ]

  -- An entry that a `set` of another key throws out had expired, or the cache was full of entries none
  -- of which, expired ones aside, was less recently used.
  set-lost :
      (now : ℕ) (key j i : String) (v : V) (ttl : Option ℕ) (c c' : TtlCache V) (f g : CacheEntry V)
      → IsValid c
      → set now key v ttl c ≡ some c'
      → key ≢ j
      → lookup j c.store ≡ some f
      → lookup j c'.store ≡ none
      → now ≤ f.expires_at
      → lookup i c.store ≡ some g
      → now ≤ g.expires_at
      → (c.max_size ≤ length c.store) × (older g f ≡ false)
  unfolding set write
  set-lost now key j i v ttl c c' f g h s ne lj lost fj li fi =
      elim (Option-cases (evict_lru now c)) [
        | inl raised ↦ grind (arith, lookup-insert, str_eq_iff key j)
        | inr (d, evicted) ↦ grind (
          arith,
          lookup-insert,
          str_eq_iff key j,
          evict_lru-lost now j i c d f g h.keys evicted lj,
        )
      ]
