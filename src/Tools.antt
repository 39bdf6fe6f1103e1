-- ===== src/Tools.antt =====
-- The tools of the service (app/models/tool.py, app/tools/base.py) and their registry
-- (app/tools/registry.py). A tool is a plug-in: what its methods return for given parameters are
-- the fields of a `Tool`. A JSON value is given by its text; `lower` of the registry's capability
-- filter is a parameter.
pub mod Views
pub mod Execution
pub mod Dispatch
pub mod Selection
mod Tests
use Prim.Native.String.{◌++◌ as append}
use text.Mathlib.Text.{find?}
use llm_service.Prelude.{
  ℕ, String, Bool, true, false, not, ◌&&◌, Option, none, some, List, [], ◌∷◌, ◌++◌, str_eq,
  if◌then◌else◌, is_some, Dict, lookup, has_key, insert, contains, filter, map, sort_texts,
}

pub record ToolSchema : Type 0 where
  pub name : String
  pub description : String
  -- `parameters["required"]`
  pub required : List String
  pub user_selectable : Bool

pub record ToolParams : Type 0 where
  pub tool_name : String
  pub params : Dict String
  pub trace_id : String
  pub user_id : String
  pub conversation_id : String

pub record ToolResult : Type 0 where
  pub tool_name : String
  pub success : Bool
  pub data_json : Option String
  pub error : Option String
  pub latency_ms : ℕ
  pub metadata : Dict String

-- what `validate_params` gives: a result or an exception with its text
pub data Validated : Type 0 where
  valid : Validated
  invalid : Option String → Validated
  validator_raised : String → Validated

-- how `execute` ends if nobody stops it
pub data ToolEnd : Type 0 where
  returned : ToolResult → ToolEnd
  timeout_raised : ToolEnd
  raised : String → ToolEnd

pub record Tool : Type 0 where
  pub name : String
  pub timeout_ms : ℕ
  pub schema : ToolSchema
  pub is_available : Bool
  pub validate_params : ToolParams → Validated
  -- how long `execute` takes, and how it ends
  pub duration : ToolParams → ℕ
  pub execute : ToolParams → ToolEnd

pub record Registry : Type 0 where
  pub tools : Dict Tool
  pub enabled : List String

unfoldable pub init : Registry
init = record { tools = []; enabled = [] }

-- `self._enabled.add(name)`
unfoldable pub add : String → List String → List String
add name names = if contains name names then names else names ++ name ∷ []

-- `self._enabled.discard(name)`
unfoldable pub discard : String → List String → List String
discard name = filter (λ n. not (str_eq name n))

unfoldable pub register : Tool → Bool → Registry → Registry
register tool on r = record {
  tools = insert tool.name tool r.tools;
  enabled = if on then add tool.name r.enabled else r.enabled;
}

-- the tool, or the text of the UnknownToolError
pub data Found : Type 0 where
  found : Tool → Found
  unknown : String → Found

unfoldable pub get_from : String → Bool → Option Tool → Found
get_from name on none =
    unknown (append "Tool '" (append name "' is not registered in ToolRegistry"))
get_from name false (some tool) =
    unknown (append "Tool '" (append name "' is disabled in ToolRegistry"))
get_from name true (some tool) = found tool

unfoldable pub get : String → Registry → Found
get name r = get_from name (contains name r.enabled) (lookup name r.tools)

unfoldable pub is_enabled : String → Registry → Bool
is_enabled name r = has_key name r.tools && contains name r.enabled

unfoldable pub selectable_of : Option Tool → Bool
selectable_of none = false
selectable_of (some tool) = tool.schema.user_selectable

unfoldable pub is_user_selectable : String → Registry → Bool
is_user_selectable name r = is_enabled name r && selectable_of (lookup name r.tools)

unfoldable pub enable : String → Registry → Registry
enable name r = if has_key name r.tools then record r { enabled = add name r.enabled } else r

unfoldable pub disable : String → Registry → Registry
disable name r = record r { enabled = discard name r.enabled }

-- `capability_filter is None or capability_filter.lower() in schema.description.lower()`
unfoldable pub matches : (String → String) → Option String → ToolSchema → Bool
matches lower none schema = true
matches lower (some wanted) schema = is_some (find? (lower schema.description) (lower wanted))

unfoldable pub add_schema :
    (String → String)
    → Option String
    → Option Tool
    → Option (List ToolSchema)
    → Option (List ToolSchema)
add_schema lower wanted none rest = none
add_schema lower wanted (some tool) none = none
add_schema lower wanted (some tool) (some rest) =
    some (if matches lower wanted tool.schema then tool.schema ∷ rest else rest)

-- the schemas of the named tools; `none` for the KeyError of a name that is not registered
unfoldable pub schemas_of :
    (String → String) → Option String → List String → Registry → Option (List ToolSchema)
schemas_of lower wanted [] r = some []
schemas_of lower wanted (name ∷ names) r =
    add_schema lower wanted (lookup name r.tools) (schemas_of lower wanted names r)

unfoldable pub list_tools : (String → String) → Option String → Registry → Option (List ToolSchema)
list_tools lower wanted r = schemas_of lower wanted (sort_texts r.enabled) r

-- the schemas of the enabled tools, in the order in which they were registered
unfoldable pub get_all_schemas_from : List String → Dict Tool → List ToolSchema
get_all_schemas_from enabled [] = []
get_all_schemas_from enabled ((name, tool) ∷ rest) =
    let later = get_all_schemas_from enabled rest in
    if contains name enabled then tool.schema ∷ later else later

unfoldable pub get_all_schemas : Registry → List ToolSchema
get_all_schemas r = get_all_schemas_from r.enabled r.tools
