-- ===== src/Cache/Eviction.antt =====
-- What the two evictions remove.
use llm_service.Prelude.{
  ℕ, ◌+◌, ◌≤◌, ◌≡◌, refl, ap, inl, inr, String, true, false, none, some, List, [], ◌∷◌, Dict,
  IsDict, lookup, erase, has_key, length, length-erase, lookup-erase, erase-IsDict, Option-cases,
  contains, str_eq_iff, if◌then◌else◌, ltb, arith,
}
use llm_service.Cache.{CacheEntry, TtlCache, expired_keys, pop_keys, older, oldest}

module _ {V : Type 0} where
  pub oldest-eq-none : (d : Dict (CacheEntry V)) → oldest d ≡ none → d ≡ []
  unfolding oldest
  oldest-eq-none [] h = refl
  oldest-eq-none ((k, e) ∷ d) h = ground arith

  -- The oldest entry is one of the store.
  pub oldest-lookup :
      (d : Dict (CacheEntry V)) (k : String) (e : CacheEntry V)
      → IsDict d
      → oldest d ≡ some (k, e)
      → lookup k d ≡ some e
  unfolding oldest
  oldest-lookup [] k e h o = cc
  oldest-lookup ((j, f) ∷ d) k e h o =
      ground (arith, oldest-lookup d k e h.1, str_eq_iff j k, str_eq_iff k k)

  not-older_trans :
      (a b c : CacheEntry V) → older a b ≡ false → older b c ≡ false → older a c ≡ false
  unfolding older
  not-older_trans a b c p q = ground arith

  not-older_refl : (a : CacheEntry V) → older a a ≡ false
  unfolding older
  not-older_refl a = ground arith

  not-older_asymm : (a b : CacheEntry V) → older a b ≡ true → older b a ≡ false
  unfolding older
  not-older_asymm a b p = ground arith

  -- No entry of the store is older than the oldest.
  pub oldest-minimal :
      (d : Dict (CacheEntry V)) (k j : String) (e f : CacheEntry V)
      → oldest d ≡ some (k, e)
      → lookup j d ≡ some f
      → older f e ≡ false
  unfolding oldest
  oldest-minimal [] k j e f o l = cc
  oldest-minimal ((i, g) ∷ d) k j e f o l = elim (Option-cases (oldest d)) [
    | inl empty ↦
        let nil = oldest-eq-none d empty in ground (arith, ap (lookup j) nil, not-older_refl g)
    | inr ((k', e'), found) ↦ ground (
      arith,
      oldest-minimal d k' j e' f found,
      not-older_trans f e' g,
      not-older_asymm e' g,
      not-older_refl g,
    )
  ]

  pub pop_keys-keeps :
      (ks : List String) (c : TtlCache V)
      → IsDict c.store
      → IsDict (pop_keys ks c).store
        × (length (pop_keys ks c).store ≤ length c.store)
        × ((pop_keys ks c).max_size ≡ c.max_size)
        × ((pop_keys ks c).seq ≡ c.seq)
  unfolding pop_keys
  pop_keys-keeps [] c h = (h, omega arith, refl, refl)
  pop_keys-keeps (k ∷ ks) c h = ground (
    arith,
    pop_keys-keeps ks (record c { store = erase k c.store; evictions = c.evictions + 1 }),
    erase-IsDict k c.store h,
    length-erase k c.store,
  )

  -- Keys that are all taken out are gone, and the others are as they were.
  pub lookup-pop_keys :
      (ks : List String) (c : TtlCache V) (j : String)
      → IsDict c.store
      → lookup j (pop_keys ks c).store ≡ (if contains j ks then none else lookup j c.store)
  unfolding pop_keys
  lookup-pop_keys [] c j h = refl
  lookup-pop_keys (k ∷ ks) c j h = ground (
    arith,
    lookup-pop_keys ks (record c { store = erase k c.store; evictions = c.evictions + 1 }) j
        (erase-IsDict k c.store h),
    lookup-erase k j c.store h,
    str_eq_iff k j,
    str_eq_iff j k,
  )

  contains-expired_keys_absent :
      (now : ℕ) (d : Dict (CacheEntry V)) (j : String)
      → has_key j d ≡ false
      → contains j (expired_keys now d) ≡ false
  unfolding expired_keys
  contains-expired_keys_absent now [] j h = refl
  contains-expired_keys_absent now ((k, e) ∷ d) j h =
      ground (arith, contains-expired_keys_absent now d j, str_eq_iff k j, str_eq_iff j k)

  -- The expired keys are those whose entry has expired.
  pub contains-expired_keys :
      (now : ℕ) (d : Dict (CacheEntry V)) (j : String) (e : CacheEntry V)
      → IsDict d
      → lookup j d ≡ some e
      → contains j (expired_keys now d) ≡ ltb e.expires_at now
  unfolding expired_keys
  contains-expired_keys now [] j e h l = cc
  contains-expired_keys now ((k, f) ∷ d) j e h l = ground (
    arith,
    contains-expired_keys now d j e h.1,
    contains-expired_keys_absent now d j,
    str_eq_iff k j,
    str_eq_iff j k,
  )
