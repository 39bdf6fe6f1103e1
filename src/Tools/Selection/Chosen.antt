-- ===== src/Tools/Selection/Chosen.antt =====
-- What the calls are that a selection is turned into.
use llm_service.Prelude.{
  ◌≤◌, ◌≡◌, refl, String, Bool, true, false, Option, none, some, List, [], ◌∷◌, map, lookup,
  if◌then◌else◌, length, contains, All, arith,
}
use llm_service.Tools.{Tool, Registry, Found, found, unknown, get, get_from, is_enabled}
use llm_service.Tools.Dispatch.{ToolCall}
use llm_service.Tools.Selection.{
  max_selected_tools, normalize_selection, Selected, selected_calls, invalid_selection, Bound,
  bound, unbound, bind_params, add_call, call_for, calls_for, is_empty, build_for,
  build_selected_calls,
}

-- A call of the user's selection.
abbrev pub IsChosen : Registry → ToolCall → Type 0
IsChosen r c = (is_enabled c.tool_name r ≡ true) × (c.parallel ≡ true) × (c.required ≡ true)

add_call-names :
    (name : String) (b : Bound) (later : Selected) {calls : List ToolCall}
    → add_call name b later ≡ selected_calls calls
    → (c : ToolCall) × (rest : List ToolCall) × (calls ≡ c ∷ rest)
      × (later ≡ selected_calls rest)
      × (c.tool_name ≡ name)
      × (c.parallel ≡ true)
      × (c.required ≡ true)
unfolding add_call
add_call-names name (unbound p) later h = ground (arith, h)
add_call-names name (bound params) (invalid_selection ns reason) h = ground (arith, h)
add_call-names name (bound params) (selected_calls rest) h = (
  record { tool_name = name; params = params; parallel = true; required = true },
  rest,
  ground (arith, h),
  refl,
  refl,
  refl,
  refl,
)

call_for-found :
    (message name : String) (f : Found) (later : Selected) {calls : List ToolCall}
    → call_for message name f later ≡ selected_calls calls
    → (tool : Tool) × (f ≡ found tool)
unfolding call_for
call_for-found message name (unknown text) later h = ground (arith, h)
call_for-found message name (found tool) later h = (tool, refl)

get_from-found :
    (name : String) (on : Bool) (o : Option Tool) (tool : Tool)
    → get_from name on o ≡ found tool
    → (on ≡ true) × (o ≡ some tool)
unfolding get_from
get_from-found name on none tool h = ground (arith, h)
get_from-found name false (some t) tool h = ground (arith, h)
get_from-found name true (some t) tool h = (refl, ground (arith, h))

get-is_enabled :
    (r : Registry) (name : String) (tool : Tool)
    → get name r ≡ found tool
    → is_enabled name r ≡ true
unfolding get is_enabled
get-is_enabled r name tool h =
    let parts = get_from-found name (contains name r.enabled) (lookup name r.tools) tool h in
    rw (parts.0, parts.1) refl

call_for-add_call :
    (message name : String) (tool : Tool) (later : Selected) {calls : List ToolCall}
    → call_for message name (found tool) later ≡ selected_calls calls
    → add_call name (bind_params message tool.schema.required []) later ≡ selected_calls calls
unfolding call_for
call_for-add_call message name tool later h = ground (arith, h)

calls_for-names :
    (message : String) (r : Registry) (names : List String) (calls : List ToolCall)
    → calls_for message names r ≡ selected_calls calls
    → (map (λ c. c.tool_name) calls ≡ names) × All (IsChosen r) calls
unfolding calls_for
calls_for-names message r [] [] h = (refl, tt)
calls_for-names message r [] (c ∷ cs) h = ground (arith, h)
calls_for-names message r (name ∷ names) calls h =
    let f = call_for-found message name (get name r) (calls_for message names r) h in
    let parts =
      add_call-names name (bind_params message f.0.schema.required []) (calls_for message names r)
        (call_for-add_call message name f.0 (calls_for message names r) (rw f.1 at h)) in
    let later = calls_for-names message r names parts.1 parts.3 in
    rw parts.2 (
      ground (arith, parts.4, later.0),
      ((rw parts.4 (get-is_enabled r name f.0 f.1), parts.5, parts.6), later.1),
    )

build_for-names :
    (r : Registry) (names : List String) (message : String) (calls : List ToolCall)
    → build_for names r message ≡ selected_calls calls
    → (calls_for message names r ≡ selected_calls calls) × (length names ≤ 5)
unfolding build_for max_selected_tools
build_for-names r names message calls h = ground (arith, h)

empty_or_built :
    (r : Registry) (names : List String) (message : String) (calls : List ToolCall)
    → (if is_empty names then selected_calls [] else build_for names r message)
      ≡ selected_calls calls
    → (calls_for message names r ≡ selected_calls calls) × (length names ≤ 5)
unfolding is_empty calls_for
empty_or_built r [] message calls h = (h, omega arith)
empty_or_built r (name ∷ names) message calls h = build_for-names r (name ∷ names) message calls h

-- Where a selection is accepted, there is one call for each of its normalized names, in their order,
-- at most five; every call is for an enabled tool, and is parallel and required.
build_selected_calls-names :
    (selected : Option (List String)) (r : Registry) (message : String) {calls : List ToolCall}
    → build_selected_calls selected (some r) message ≡ selected_calls calls
    → (map (λ c. c.tool_name) calls ≡ normalize_selection selected)
      × (length (normalize_selection selected) ≤ 5)
      × All (IsChosen r) calls
unfolding build_selected_calls
build_selected_calls-names selected r message {calls} h =
    let names = normalize_selection selected in
    let built = empty_or_built r names message calls h in
    let found = calls_for-names message r names calls built.0 in (found.0, built.1, found.1)
