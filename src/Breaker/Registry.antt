-- ===== src/Breaker/Registry.antt =====
-- The registry keeps its breakers apart.
use llm_service.Prelude.{
  ◌≡◌, refl, String, Option, some, [], ◌∷◌, lookup, lookup-insert, str_eq, str_eq_refl, arith,
  false, Option-cases, inl, inr,
}
use mathlib.Core.Option
use llm_service.Breaker.{CircuitBreakerConfig, reset, get_or_create, reset_all, BreakerMap}

-- A breaker that is asked for is the one that is registered, and asking again, with any
-- configuration, gives the same one and changes nothing; no other name's breaker is touched.
get_or_create-isolated :
    (d : CircuitBreakerConfig) (name other : String) (c c' : Option CircuitBreakerConfig)
    (m : BreakerMap)
    → str_eq name other ≡ false
    → let (b, m') = get_or_create d name c m in
      (lookup name m' ≡ some b)
      × (get_or_create d name c' m' ≡ (b, m'))
      × (lookup other m' ≡ lookup other m)
unfolding get_or_create
get_or_create-isolated d name other c c' m ne = elim (Option-cases (lookup name m)) [
  | inl absent ↦ (
    grind (arith, lookup-insert, str_eq_refl),
    grind (arith, lookup-insert, str_eq_refl),
    grind (arith, lookup-insert),
  )
  | inr (b, here) ↦ (ground arith, ground arith, ground arith)
]

-- After `reset_all` every registered breaker is the reset of the one before, and no name is
-- gained or lost.
pub lookup-reset_all :
    (name : String) (m : BreakerMap) → lookup name (reset_all m) ≡ Option.map reset (lookup name m)
unfolding reset_all
lookup-reset_all name [] = refl
lookup-reset_all name ((k, b) ∷ m) = ground (arith, lookup-reset_all name m)
