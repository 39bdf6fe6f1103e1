-- ===== src/Tools/Views.antt =====
-- The registry as a function from names to tools and their activation.
use Prim.Native.String.{◌++◌ as append}
use mathlib.Core.Path.{fun_ext}
use text.Mathlib.TextEquality.{eq_iff}
use llm_service.Prelude.{
  ◌≡◌, refl, ap, ◌∙◌, str_eq_refl, String, Bool, true, false, Option, none, some, List, [], ◌∷◌,
  ◌++◌, str_eq, if◌then◌else◌, arith, is_some, lookup, has_key, lookup-insert, contains, All,
  All-sort_texts, sort_texts,
}
use llm_service.Tools.{
  Tool, Registry, init, add, discard, register, enable, disable, add_schema, schemas_of, list_tools,
  get, get_from, Found, found, unknown,
}

-- the calls that change a registry
pub data Op : Type 0 where
  register_tool : Tool → Bool → Op
  enable_tool : String → Op
  disable_tool : String → Op

unfoldable pub run_op : Op → Registry → Registry
run_op (register_tool tool on) r = register tool on r
run_op (enable_tool name) r = enable name r
run_op (disable_tool name) r = disable name r

unfoldable pub run : List Op → Registry → Registry
run [] r = r
run (op ∷ ops) r = run ops (run_op op r)

-- a tool that is registered, and whether it is enabled
abbrev pub View : Type 0
View = String → Option (Tool × Bool)

abbrev pub view_of : Bool → Option Tool → Option (Tool × Bool)
view_of on none = none
view_of on (some tool) = some (tool, on)

unfoldable pub view : Registry → View
view r name = view_of (contains name r.enabled) (lookup name r.tools)

abbrev was_enabled : Option (Tool × Bool) → Bool
was_enabled none = false
was_enabled (some (tool, on)) = on

abbrev set_enabled : Bool → Option (Tool × Bool) → Option (Tool × Bool)
set_enabled on none = none
set_enabled on (some (tool, was)) = some (tool, on)

-- The same calls on a view: registering a tool enables it or leaves its activation as it was.
unfoldable pub apply : Op → View → View
apply (register_tool tool on) v name =
    if str_eq tool.name name then some (tool, if on then true else was_enabled (v name)) else v name
apply (enable_tool target) v name = if str_eq target name then set_enabled true (v name) else v name
apply (disable_tool target) v name =
    if str_eq target name then set_enabled false (v name) else v name

unfoldable pub replay : List Op → View → View
replay [] v = v
replay (op ∷ ops) v = replay ops (apply op v)

-- every enabled name is registered
abbrev pub IsValid : Registry → Type 0
IsValid r = (name : String) → contains name r.enabled ≡ true → has_key name r.tools ≡ true

contains-append :
    (name : String) (xs ys : List String)
    → contains name (xs ++ ys) ≡ (if contains name xs then true else contains name ys)
contains-append name [] ys = refl
contains-append name (x ∷ xs) ys = ground (arith, contains-append name xs ys)

contains-add :
    (name n : String) (names : List String)
    → contains n (add name names) ≡ (if str_eq name n then true else contains n names)
unfolding add
contains-add name n names =
    ground (arith, eq_iff name n, eq_iff n name, contains-append n names (name ∷ []))

contains-discard :
    (name n : String) (names : List String)
    → contains n (discard name names) ≡ (if str_eq name n then false else contains n names)
unfolding discard
contains-discard name n [] = ground arith
contains-discard name n (m ∷ ms) =
    ground (arith, eq_iff name n, eq_iff n m, eq_iff name m, contains-discard name n ms)

init-IsValid : IsValid init
unfolding init
init-IsValid name h = ground arith

run_op-IsValid : (op : Op) (r : Registry) → IsValid r → IsValid (run_op op r)
unfolding run_op register enable disable
run_op-IsValid (register_tool tool on) r h name = ground (
  arith,
  h name,
  contains-add tool.name name r.enabled,
  lookup-insert tool.name name tool r.tools,
)
run_op-IsValid (enable_tool target) r h name =
    ground (arith, h name, eq_iff target name, contains-add target name r.enabled)
run_op-IsValid (disable_tool target) r h name =
    ground (arith, h name, contains-discard target name r.enabled)

run-IsValid : (ops : List Op) (r : Registry) → IsValid r → IsValid (run ops r)
unfolding run
run-IsValid [] r h = h
run-IsValid (op ∷ ops) r h = run-IsValid ops (run_op op r) (run_op-IsValid op r h)

view-run_op : (op : Op) (r : Registry) → IsValid r → view (run_op op r) ≡ apply op (view r)
unfolding run_op register enable disable view apply
view-run_op (register_tool tool on) r h = fun_ext λ name. ground (
  arith,
  h name,
  eq_iff tool.name name,
  contains-add tool.name name r.enabled,
  lookup-insert tool.name name tool r.tools,
)
view-run_op (enable_tool target) r h =
    fun_ext λ name. ground (arith, h name, eq_iff target name, contains-add target name r.enabled)
view-run_op (disable_tool target) r h =
    fun_ext λ name. ground (arith, h name, contains-discard target name r.enabled)

run-view : (ops : List Op) (r : Registry) → IsValid r → view (run ops r) ≡ replay ops (view r)
unfolding run replay
run-view [] r h = refl
run-view (op ∷ ops) r h =
    rw⁻¹ (view-run_op op r h) (run-view ops (run_op op r) (run_op-IsValid op r h))

-- what the registry answers, from its view
unfoldable pub answer : String → Option (Tool × Bool) → Found
answer name none = unknown (append "Tool '" (append name "' is not registered in ToolRegistry"))
answer name (some (tool, true)) = found tool
answer name (some (tool, false)) =
    unknown (append "Tool '" (append name "' is disabled in ToolRegistry"))

get-answer : (name : String) (r : Registry) → get name r ≡ answer name (view r name)
unfolding get answer view get_from
get-answer name r = ground arith

-- After any calls on a new registry, `get` answers as a function from names to tools and their
-- activation does that went through the same calls: a name never registered is unknown, a tool
-- disabled last is refused, and a tool registered again keeps its activation unless it is enabled.
pub run-refines :
    (ops : List Op) (name : String)
    → get name (run ops init) ≡ answer name (replay ops (λ _. none) name)
unfolding view init
run-refines ops name =
    get-answer name (run ops init) ∙ ap (λ v. answer name (v name)) (run-view ops init init-IsValid)

All-registered :
    (names : List String) (r : Registry)
    → ((name : String) → contains name names ≡ true → has_key name r.tools ≡ true)
    → All (λ name. has_key name r.tools ≡ true) names
All-registered [] r h = tt
All-registered (name ∷ names) r h = (
  h name (ground (arith, str_eq_refl name)),
  All-registered names r (λ n k. h n (ground (arith, k))),
)

schemas_of-total :
    (lower : String → String) (wanted : Option String) (names : List String) (r : Registry)
    → All (λ name. has_key name r.tools ≡ true) names
    → is_some (schemas_of lower wanted names r) ≡ true
unfolding schemas_of add_schema
schemas_of-total lower wanted [] r h = refl
schemas_of-total lower wanted (name ∷ names) r h =
    ground (arith, h.0, schemas_of-total lower wanted names r h.1)

-- `list_tools` raises no KeyError on a registry that was built by its own calls, with a filter or
-- without: every enabled name is registered.
pub list_tools-total :
    (lower : String → String) (wanted : Option String) (ops : List Op)
    → is_some (list_tools lower wanted (run ops init)) ≡ true
unfolding list_tools
list_tools-total lower wanted ops =
    let r = run ops init in
    schemas_of-total lower wanted (sort_texts r.enabled) r
      (All-sort_texts _ r.enabled (All-registered r.enabled r (run-IsValid ops init init-IsValid)))
