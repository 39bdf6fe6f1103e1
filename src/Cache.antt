-- ===== src/Cache.antt =====
-- The TTL and LRU cache (app/utils/cache.py). Time is in whole milliseconds and is an argument, as
-- what `time.time()` returns. The asyncio lock of `get_async` and `set_async` is left out: no step
-- inside either method waits.
pub mod Bounds
pub mod Reads
mod Eviction
mod Tests
use llm_service.Prelude.{
  ℕ, suc, ◌+◌, ◌*◌, String, Bool, true, false, ◌||◌, ◌&&◌, Option, none, some, List, [], ◌∷◌, Dict,
  lookup, insert, erase, has_key, length, is_some, ltb, leb, not, ◌==◌, if◌then◌else◌,
}

pub record CacheEntry (V : Type 0) : Type 0 where
  pub value : V
  pub expires_at : ℕ
  pub access_count : ℕ
  pub last_accessed : ℕ
  pub access_seq : ℕ

pub record TtlCache (V : Type 0) : Type 0 where
  pub store : Dict (CacheEntry V)
  pub max_size : ℕ
  pub default_ttl : ℕ
  pub hits : ℕ
  pub misses : ℕ
  pub evictions : ℕ
  pub seq : ℕ

module _ {V : Type 0} where
  unfoldable pub init : ℕ → ℕ → TtlCache V
  init max_size default_ttl_seconds = record {
    store = [];
    max_size = max_size;
    default_ttl = default_ttl_seconds;
    hits = 0;
    misses = 0;
    evictions = 0;
    seq = 0;
  }

  -- the entry after a hit at `now`
  unfoldable pub touch : ℕ → ℕ → CacheEntry V → CacheEntry V
  touch now seq e = record e {
    access_count = e.access_count + 1;
    last_accessed = now;
    access_seq = seq;
  }

  unfoldable pub get : ℕ → String → TtlCache V → Option V × TtlCache V
  get now key c = elim (lookup key c.store) [
    | none ↦ (none, record c { misses = c.misses + 1 })
    | some e ↦
        if ltb e.expires_at now
        then (
          none,
          record c {
            store = erase key c.store;
            misses = c.misses + 1;
            evictions = c.evictions + 1;
          },
        )
        else (
          some e.value,
          record c {
            store = insert key (touch now (c.seq + 1) e) c.store;
            hits = c.hits + 1;
            seq = c.seq + 1;
          },
        )
  ]

  unfoldable pub contains : ℕ → String → TtlCache V → Bool × TtlCache V
  contains now key c = let (v, c') = get now key c in (is_some v, c')

  unfoldable pub delete : String → TtlCache V → Bool × TtlCache V
  delete key c = (has_key key c.store, record c { store = erase key c.store })

  unfoldable pub clear : TtlCache V → TtlCache V
  clear c = record c { store = []; hits = 0; misses = 0; evictions = 0; seq = 0 }

  unfoldable pub size : TtlCache V → ℕ
  size c = length c.store

  -- [k for k, v in store.items() if v.expires_at < now]
  unfoldable pub expired_keys : ℕ → Dict (CacheEntry V) → List String
  expired_keys now [] = []
  expired_keys now ((k, e) ∷ d) =
      if ltb e.expires_at now then k ∷ expired_keys now d else expired_keys now d

  -- the loop of `evict_expired`
  unfoldable pub pop_keys : List String → TtlCache V → TtlCache V
  pop_keys [] c = c
  pop_keys (k ∷ ks) c =
      pop_keys ks (record c { store = erase k c.store; evictions = c.evictions + 1 })

  unfoldable pub evict_expired : ℕ → TtlCache V → ℕ × TtlCache V
  evict_expired now c = let keys = expired_keys now c.store in (length keys, pop_keys keys c)

  -- (access_seq, last_accessed) of the first is below that of the second
  unfoldable pub older : CacheEntry V → CacheEntry V → Bool
  older a b =
      ltb a.access_seq b.access_seq
      || (a.access_seq == b.access_seq && ltb a.last_accessed b.last_accessed)

  -- `min` over the keys: the first entry below which there is none; `none` is its ValueError.
  unfoldable pub oldest : Dict (CacheEntry V) → Option (String × CacheEntry V)
  oldest [] = none
  oldest ((k, e) ∷ d) = elim (oldest d) [
    | none ↦ some (k, e)
    | some (k', e') ↦ if older e' e then some (k', e') else some (k, e)
  ]

  -- `_evict_lru`; `none` is the ValueError of `min`, which a cache of size 0 raises.
  unfoldable pub evict_lru : ℕ → TtlCache V → Option (TtlCache V)
  evict_lru now c =
      let c' = (evict_expired now c).1 in
      if ltb (length c'.store) c'.max_size then some c' else elim (oldest c'.store) [
        | none ↦ none
        | some (k, e) ↦ some (record c' { store = erase k c'.store; evictions = c'.evictions + 1 })
      ]

  -- the ttl that `set` uses, in milliseconds
  unfoldable pub ttl_of : TtlCache V → Option ℕ → ℕ
  ttl_of c ttl = 1000 * elim ttl [ some t ↦ t | none ↦ c.default_ttl ]

  -- the write at the end of `set`
  unfoldable pub write : ℕ → String → V → ℕ → TtlCache V → TtlCache V
  write now key v ttl c = record c {
    store =
        insert key
          (record {
            value = v;
            expires_at = now + ttl;
            access_count = 1;
            last_accessed = now;
            access_seq = c.seq + 1;
          })
          c.store;
    seq = c.seq + 1;
  }

  unfoldable pub set : ℕ → String → V → Option ℕ → TtlCache V → Option (TtlCache V)
  set now key v ttl c =
      if leb c.max_size (length c.store) && not (has_key key c.store)
      then elim (evict_lru now c) [
        | none ↦ none
        | some c' ↦ some (write now key v (ttl_of c ttl) c')
      ]
      else some (write now key v (ttl_of c ttl) c)

-- The caches of the service: results of web searches, processed message ids, provider quotas.
unfoldable pub create_web_search_cache : {V : Type 0} → TtlCache V
create_web_search_cache = init 1000 60

unfoldable pub create_idempotency_cache : {V : Type 0} → TtlCache V
create_idempotency_cache = init 10_000 300

unfoldable pub create_quota_cache : {V : Type 0} → TtlCache V
create_quota_cache = init 10 5
