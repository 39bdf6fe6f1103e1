-- ===== src/Tools/Selection/Accepted.antt =====
-- What is selected, and that the defaults that are kept are always accepted.
use llm_service.Prelude.{
  ℕ, ◌+◌, ◌-◌, ◌≤◌, ◌≡◌, refl, sym, ◌∙◌, String, true, false, not, ◌&&◌, Option, none, some, List,
  [], ◌∷◌, ◌++◌, map, str_eq, strip, strip-strip, if◌then◌else◌, ltb, length, filter, contains, All,
  Dict, insert, arith, Bool-cases, inl, inr,
}
use mathlib.Core.List.{append-nil, append_assoc}
use llm_service.Tools.{
  Tool, Registry, Found, found, unknown, add, get, is_enabled, is_user_selectable,
}
use llm_service.Tools.Dispatch.{ToolCall}
use llm_service.Tools.Selection.{
  max_selected_tools, normalize_from, normalize_selection, needs_text_only, is_runnable, is_usable,
  pick_defaults, filter_default_tools, Selected, selected_calls, bound, bind_params, add_call,
  call_for, calls_for, is_empty, build_for, build_selected_calls,
}

-- names that are stripped, not empty, and new to those seen before them
abbrev IsFresh : List String → List String → Type 0
IsFresh seen [] = Unit
IsFresh seen (n ∷ ns) =
    (contains n seen ≡ false) × (strip n ≡ n) × (str_eq n "" ≡ false) × IsFresh (n ∷ seen) ns

-- the same names are among both
abbrev IsAmong : List String → List String → Type 0
IsAmong seen more = (m : String) → contains m seen ≡ true → contains m more ≡ true

contains-snoc :
    (m n : String) (xs : List String)
    → contains m (xs ++ n ∷ []) ≡ (if str_eq m n then true else contains m xs)
contains-snoc m n [] = ground arith
contains-snoc m n (x ∷ xs) = ground (arith, contains-snoc m n xs)

IsFresh-among : (seen more ns : List String) → IsAmong more seen → IsFresh seen ns → IsFresh more ns
IsFresh-among seen more [] h k = tt
IsFresh-among seen more (n ∷ ns) h k = (
  ground (arith, h n, k.0),
  k.1,
  k.2,
  IsFresh-among (n ∷ seen) (n ∷ more) ns (λ m. ground (arith, h m)) k.3,
)

normalize_from-fresh :
    (seen ns : List String) → IsFresh seen ns → normalize_from seen ns ≡ seen ++ ns
unfolding normalize_from add
normalize_from-fresh seen [] h = sym (append-nil seen)
normalize_from-fresh seen (n ∷ ns) h =
    let later = normalize_from-fresh (seen ++ n ∷ []) ns (
      IsFresh-among (n ∷ seen) (seen ++ n ∷ []) ns (λ m. ground (arith, contains-snoc m n seen))
        h.3) in
    rw (h.1, h.2, h.0) (later ∙ append_assoc seen (n ∷ []) ns)

IsFresh-snoc :
    (seen xs : List String) (n : String)
    → IsFresh seen xs
    → contains n seen ≡ false
    → contains n xs ≡ false
    → strip n ≡ n
    → str_eq n "" ≡ false
    → IsFresh seen (xs ++ n ∷ [])
IsFresh-snoc seen [] n h a b c d = (a, c, d, tt)
IsFresh-snoc seen (x ∷ xs) n h a b c d =
    (h.0, h.1, h.2, IsFresh-snoc (x ∷ seen) xs n h.3 (ground (arith, a, b)) (ground (arith, b)) c d)

add-IsFresh :
    (name : String) (seen : List String)
    → IsFresh [] seen
    → strip name ≡ name
    → str_eq name "" ≡ false
    → IsFresh [] (add name seen)
unfolding add
add-IsFresh name seen h c d = elim (Bool-cases (contains name seen)) [
  | inl e ↦ rw e h
  | inr e ↦ rw e (IsFresh-snoc [] seen name h refl e c d)
]

normalize_from-IsFresh :
    (seen ns : List String) → IsFresh [] seen → IsFresh [] (normalize_from seen ns)
unfolding normalize_from
normalize_from-IsFresh seen [] h = h
normalize_from-IsFresh seen (n ∷ ns) h = elim (Bool-cases (str_eq (strip n) "")) [
  | inl e ↦ rw e (normalize_from-IsFresh seen ns h)
  | inr e ↦ rw e (
      normalize_from-IsFresh (add (strip n) seen) ns
        (add-IsFresh (strip n) seen h (strip-strip n) e))
]

normalize_selection-IsFresh :
    (selected : Option (List String)) → IsFresh [] (normalize_selection selected)
unfolding normalize_selection
normalize_selection-IsFresh none = tt
normalize_selection-IsFresh (some ns) = normalize_from-IsFresh [] ns tt

-- what the defaults that are kept are
record ArePicked (r : Registry) (seen : List String) (room : ℕ) (kept : List String) : Type 0 where
  fresh : IsFresh seen kept
  few : length kept ≤ room
  usable : All (λ name. is_usable r name ≡ true) kept

pick_defaults-ArePicked :
    (r : Registry) (count : ℕ) (seen names : List String)
    → IsFresh seen names
    → ArePicked r seen (5 - count) (pick_defaults r count names).kept
unfolding pick_defaults max_selected_tools
pick_defaults-ArePicked r count seen [] h = record { fresh = tt; few = omega arith; usable = tt }
pick_defaults-ArePicked r count seen (name ∷ names) h =
    let more = pick_defaults-ArePicked r (count + 1) (name ∷ seen) names h.3 in
    let same =
      pick_defaults-ArePicked r count seen names
        (IsFresh-among (name ∷ seen) seen names (λ m. ground arith) h.3) in
    elim (Bool-cases (is_usable r name && ltb count 5)) [
      | inl e ↦ rw e (record {
        fresh = (h.0, h.1, h.2, more.fresh);
        few = ground (arith, e, more.few);
        usable = (ground (arith, e), more.usable);
      })
      | inr e ↦ rw e same
    ]

-- what makes a tool usable
is_runnable-found :
    (f : Found)
    → is_runnable f ≡ true
    → (tool : Tool) × (f ≡ found tool)
      × (tool.is_available ≡ true)
      × (needs_text_only tool.schema.required ≡ true)
unfolding is_runnable
is_runnable-found (unknown text) h = ground (arith, h)
is_runnable-found (found tool) h = (tool, refl, ground (arith, h), ground (arith, h))

is_usable-is_runnable :
    (r : Registry) (name : String) → is_usable r name ≡ true → is_runnable (get name r) ≡ true
unfolding is_usable
is_usable-is_runnable r name h = ground (arith, h)

is_usable-is_enabled :
    (r : Registry) (name : String) → is_usable r name ≡ true → is_enabled name r ≡ true
unfolding is_usable is_user_selectable
is_usable-is_enabled r name h = ground (arith, h)

bind_params-bound :
    (message : String) (required : List String) (params : Dict String)
    → needs_text_only required ≡ true
    → (all_params : Dict String) × (bind_params message required params ≡ bound all_params)
unfolding bind_params needs_text_only
bind_params-bound message [] params h = (params, refl)
bind_params-bound message (r ∷ rs) params h =
    let rest = bind_params-bound message rs (insert r message params) (ground (arith, h)) in
    (rest.0, ground (arith, h, rest.1))

add_call-selected :
    (name : String) (params : Dict String) {later : Selected} {calls : List ToolCall}
    → later ≡ selected_calls calls
    → (c : ToolCall) × (c.tool_name ≡ name)
      × (add_call name (bound params) later ≡ selected_calls (c ∷ calls))
unfolding add_call
add_call-selected name params e = (
  record { tool_name = name; params = params; parallel = true; required = true },
  refl,
  rw e refl,
)

calls_for-selected :
    (message : String) (r : Registry) (names : List String)
    → All (λ name. is_usable r name ≡ true) names
    → (calls : List ToolCall) × (calls_for message names r ≡ selected_calls calls)
      × (map (λ c. c.tool_name) calls ≡ names)
unfolding calls_for call_for
calls_for-selected message r [] h = ([], refl, refl)
calls_for-selected message r (name ∷ names) h =
    let tool = is_runnable-found (get name r) (is_usable-is_runnable r name h.0) in
    let later = calls_for-selected message r names h.1 in
    let params = bind_params-bound message tool.0.schema.required [] tool.3 in
    let one = add_call-selected name params.0 later.1 in
    (one.0 ∷ later.0, rw (tool.1, tool.2, params.1) one.2, ground (arith, one.1, later.2))

All-enabled :
    (r : Registry) (names : List String)
    → All (λ name. is_usable r name ≡ true) names
    → filter (λ n. not (is_enabled n r)) names ≡ []
All-enabled r [] h = refl
All-enabled r (name ∷ names) h = rw (is_usable-is_enabled r name h.0, All-enabled r names h.1) refl

-- names that are usable and not more than five are accepted
build_for-selected :
    (r : Registry) (names : List String) (message : String)
    → All (λ name. is_usable r name ≡ true) names
    → length names ≤ 5
    → build_for names r message ≡ calls_for message names r
unfolding build_for max_selected_tools is_empty
build_for-selected r names message h k = rw (All-enabled r names h) (ground (arith, k))

normalize_selection-fresh :
    (names : List String) → IsFresh [] names → normalize_selection (some names) ≡ names
unfolding normalize_selection
normalize_selection-fresh names h = normalize_from-fresh [] names h

nonempty_or_All :
    (r : Registry) (names : List String) (message : String)
    → All (λ name. is_usable r name ≡ true) names
    → length names ≤ 5
    → (if is_empty names then selected_calls [] else build_for names r message)
      ≡ calls_for message names r
unfolding is_empty calls_for
nonempty_or_All r [] message h k = refl
nonempty_or_All r (name ∷ names) message h k = build_for-selected r (name ∷ names) message h k

build_selected_calls-fresh :
    (r : Registry) (names : List String) (message : String)
    → ArePicked r [] 5 names
    → build_selected_calls (some names) (some r) message ≡ calls_for message names r
unfolding build_selected_calls
build_selected_calls-fresh r names message h =
    rw (normalize_selection-fresh names h.fresh) (nonempty_or_All r names message h.usable h.few)

-- The default tools that are kept are accepted as a selection: `build_selected_calls` on them raises
-- no error and gives one call for each, in their order, whatever the saved defaults, the registry and
-- the message are.
pub filter_default_tools-accepted :
    (selected : Option (List String)) (r : Registry) (message : String)
    → (calls : List ToolCall) × (build_selected_calls
          (some (filter_default_tools selected (some r)).kept)
          (some r)
          message
        ≡ selected_calls calls)
      × (map (λ c. c.tool_name) calls ≡ (filter_default_tools selected (some r)).kept)
unfolding filter_default_tools
filter_default_tools-accepted selected r message =
    let names = normalize_selection selected in
    let picked = pick_defaults-ArePicked r 0 [] names (normalize_selection-IsFresh selected) in
    let kept = (pick_defaults r 0 names).kept in
    let found = calls_for-selected message r kept picked.usable in
    (found.0, build_selected_calls-fresh r kept message picked ∙ found.1, found.2)
