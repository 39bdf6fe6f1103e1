-- ===== src/Tools/Selection.antt =====
-- The user's selection of tools (app/tools/selection.py).
pub mod Accepted
pub mod Chosen
use Prim.Native.String.{◌++◌ as append}
use llm_service.Prelude.{
  ℕ, ◌+◌, String, Bool, true, false, not, ◌&&◌, Option, none, some, List, [], ◌∷◌, ◌++◌, map,
  str_eq, strip, if◌then◌else◌, ltb, length, filter, any, contains, drop, Dict, insert,
}
use llm_service.Tools.{
  Tool, Registry, Found, found, unknown, add, get, is_enabled, is_user_selectable,
}
use llm_service.Tools.Dispatch.{ToolCall}

unfoldable pub max_selected_tools : ℕ
max_selected_tools = 5

-- the parameters that mean the user's text
unfoldable pub is_text_param : String → Bool
is_text_param name = contains name ("query" ∷ "prompt" ∷ "text" ∷ "input" ∷ "question" ∷ [])

unfoldable pub normalize_from : List String → List String → List String
normalize_from seen [] = seen
normalize_from seen (raw ∷ rest) =
    let name = strip raw in normalize_from (if str_eq name "" then seen else add name seen) rest

unfoldable pub normalize_selection : Option (List String) → List String
normalize_selection none = []
normalize_selection (some selected) = normalize_from [] selected

-- every required parameter is the user's text
unfoldable pub needs_text_only : List String → Bool
needs_text_only required = not (any (λ r. not (is_text_param r)) required)

-- a name that is not found does not come here: it is not selectable
unfoldable pub is_runnable : Found → Bool
is_runnable (unknown _) = false
is_runnable (found tool) = tool.is_available && needs_text_only tool.schema.required

unfoldable pub is_usable : Registry → String → Bool
is_usable r name = is_user_selectable name r && is_runnable (get name r)

pub record Defaults : Type 0 where
  pub kept : List String
  pub dropped : List String

-- the loop over the names, after so many are kept
unfoldable pub pick_defaults : Registry → ℕ → List String → Defaults
pick_defaults r count [] = record { kept = []; dropped = [] }
pick_defaults r count (name ∷ names) =
    let more = pick_defaults r (count + 1) names in
    let same = pick_defaults r count names in
    if is_usable r name && ltb count max_selected_tools
    then record more { kept = name ∷ more.kept }
    else record same { dropped = name ∷ same.dropped }

-- `registry` is `none` where there is none
unfoldable pub filter_default_tools : Option (List String) → Option Registry → Defaults
filter_default_tools selected none = record { kept = []; dropped = normalize_selection selected }
filter_default_tools selected (some r) = pick_defaults r 0 (normalize_selection selected)

-- `mode` is the value of the mode
unfoldable pub drop_calls_covered_by_mode : List ToolCall → String → List ToolCall
drop_calls_covered_by_mode calls mode =
    if str_eq mode "web_search"
    then filter (λ c. not (str_eq c.tool_name "web_search")) calls
    else calls

-- the calls, or the tools and the reason of an InvalidToolSelectionError
pub data Selected : Type 0 where
  selected_calls : List ToolCall → Selected
  invalid_selection : List String → String → Selected

-- the parameters of a call, or the first required one that the user's text does not give
pub data Bound : Type 0 where
  bound : Dict String → Bound
  unbound : String → Bound

unfoldable pub bind_params : String → List String → Dict String → Bound
bind_params message [] params = bound params
bind_params message (r ∷ rs) params =
    let rest = bind_params message rs (insert r message params) in
    if is_text_param r then rest else unbound r

unfoldable pub add_call : String → Bound → Selected → Selected
add_call name (unbound r) later =
    invalid_selection (name ∷ [])
      (append "it needs a '" (append r "' value that cannot be provided from chat"))
add_call name (bound params) (invalid_selection names reason) = invalid_selection names reason
add_call name (bound params) (selected_calls calls) =
    selected_calls
      (record { tool_name = name; params = params; parallel = true; required = true } ∷ calls)

-- a name that is not found does not come here: all names are enabled
unfoldable pub call_for : String → String → Found → Selected → Selected
call_for message name (unknown text) later = invalid_selection (name ∷ []) text
call_for message name (found tool) later =
    if not tool.is_available
    then invalid_selection (name ∷ []) "it is not configured on this server"
    else add_call name (bind_params message tool.schema.required []) later

unfoldable pub calls_for : String → List String → Registry → Selected
calls_for message [] r = selected_calls []
calls_for message (name ∷ names) r = call_for message name (get name r) (calls_for message names r)

unfoldable pub is_empty : List String → Bool
is_empty [] = true
is_empty (_ ∷ _) = false

unfoldable pub build_for : List String → Registry → String → Selected
build_for names r message =
    let unavailable = filter (λ n. not (is_enabled n r)) names in
    if ltb max_selected_tools (length names)
    then invalid_selection (drop max_selected_tools names) "at most 5 tools can be selected"
    else if not (is_empty unavailable)
    then invalid_selection unavailable "unknown or disabled"
    else calls_for message names r

unfoldable pub build_selected_calls : Option (List String) → Option Registry → String → Selected
build_selected_calls selected none message =
    let names = normalize_selection selected in
    if is_empty names
    then selected_calls []
    else invalid_selection names "tools are not available right now"
build_selected_calls selected (some r) message =
    let names = normalize_selection selected in
    if is_empty names then selected_calls [] else build_for names r message
