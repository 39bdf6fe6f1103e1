-- ===== src/Cache/Tests.antt =====
-- Witnesses for the cache: one of two entries, of which the first is the older.
use llm_service.Prelude.{ℕ, ◌+◌, ◌≡◌, refl, none, some, [], ◌∷◌, ltb, if◌then◌else◌, arith}
use llm_service.Cache.{
  CacheEntry, TtlCache, set, ttl_of, older, write, evict_lru, evict_expired, expired_keys, pop_keys,
  oldest,
}
use llm_service.Cache.Bounds.{IsValid, set-IsValid}
use llm_service.Cache.Reads.{live, live-set_self}

abbrev entry : ℕ → ℕ → CacheEntry ℕ
entry value seq = record {
  value = value;
  expires_at = 60_000;
  access_count = 1;
  last_accessed = 0;
  access_seq = seq;
}

abbrev full : TtlCache ℕ
full = record {
  store = ("a", entry 1 1) ∷ ("b", entry 2 2) ∷ [];
  max_size = 2;
  default_ttl = 60;
  hits = 0;
  misses = 0;
  evictions = 0;
  seq = 2;
}

full-IsValid : IsValid full
full-IsValid = record { positive = omega arith; keys = (refl, (refl, tt)); bounded = omega arith }

set-IsValid_example :
    (c' : TtlCache ℕ) × (set 5000 "c" 3 none full ≡ some c') × IsValid c' × (c'.max_size ≡ 2)
set-IsValid_example = set-IsValid 5000 "c" 3 none full full-IsValid

-- what is left once the older entry has made room
abbrev after : TtlCache ℕ
after = record full {
  store =
      ("b", entry 2 2)
      ∷ (
        "c",
        record {
          value = 3;
          expires_at = 65_000;
          access_count = 1;
          last_accessed = 5000;
          access_seq = 3;
        },
      )
      ∷ [];
  evictions = 1;
  seq = 3;
}

set-after : set 5000 "c" 3 none full ≡ some after
unfolding set evict_lru evict_expired expired_keys pop_keys oldest older write ttl_of
set-after = refl

live-set_self_example :
    live 7000 "c" after ≡ (if ltb (5000 + ttl_of full none) 7000 then none else some 3)
live-set_self_example = live-set_self 5000 7000 "c" 3 none full after set-after
