-- ===== src/Expose/Lookup.antt =====
-- Which tool a name leads to.
use specmcp.Prelude.{
  subst, String, ◌≡◌, refl, ap, ◌∙◌, Bool, false, ◌==◌, eq_refl, Option, none, some, List, [], ◌∷◌,
  ◌++◌, map, if◌then◌else◌, Bool-cases, inl, inr, arith, elem,
}
use specmcp.Prelude.Dict.{Dict, get, set, get-set}
use specmcp.Model.{SimplifiedOperation}
use specmcp.Expose.{
  OperationOverride, ToolDefinition, index_from, registry_of, lookup, is_hidden, tool_name, tool_of,
  override_for, build_tools, build,
}
use specmcp.Expose.Exposed.{IsExposed, shown_name, tool_name-shown_name, tool_of-IsExposed}

-- The last tool of a list that has the name.
abbrev pub last_named : String → List ToolDefinition → Option ToolDefinition
last_named name [] = none
last_named name (t ∷ ts) = elim (last_named name ts) [
  | some u ↦ some u
  | none ↦ if t.name == name then some t else none
]

abbrev or_else : Option ToolDefinition → Option ToolDefinition → Option ToolDefinition
or_else (some t) o = some t
or_else none o = o

get-index_from :
    (index : Dict ToolDefinition) (ts : List ToolDefinition) (name : String)
    → get (index_from index ts) name ≡ or_else (last_named name ts) (get index name)
unfolding index_from
get-index_from index [] name = refl
get-index_from index (t ∷ ts) name =
    get-index_from (set index t.name t) ts name
    ∙ ap (or_else (last_named name ts)) (get-set index t.name name t)
    ∙ settle (last_named name ts) (t.name == name)
  where
    settle :
        (o : Option ToolDefinition) (b : Bool)
        → or_else o (if b then some t else get index name)
          ≡ or_else
              (elim o [ some u ↦ some u | none ↦ if b then some t else none ])
              (get index name)
    settle o b = ground arith

-- A name leads to the last tool of the list that has it, and to none where no tool has it.
pub lookup_lem :
    (tools : List ToolDefinition) (name : String)
    → lookup (registry_of tools) name ≡ last_named name tools
unfolding lookup registry_of get
lookup_lem tools name = get-index_from [] tools name ∙ settle (last_named name tools)
  where
    settle : (o : Option ToolDefinition) → or_else o none ≡ o
    settle none = refl
    settle (some t) = refl

abbrev pub names : List ToolDefinition → List String
names ts = map (λ (t : ToolDefinition). t.name) ts

last_named-none :
    (name : String) (ts : List ToolDefinition)
    → elem name (names ts) ≡ false
    → last_named name ts ≡ none
last_named-none name [] h = refl
last_named-none name (t ∷ ts) h = ground (arith, last_named-none name ts)

last_named-middle :
    (before : List ToolDefinition) (t : ToolDefinition) (after : List ToolDefinition)
    → elem t.name (names after) ≡ false
    → last_named t.name (before ++ t ∷ after) ≡ some t
last_named-middle [] t after h = rw (last_named-none t.name after h, eq_refl) refl
last_named-middle (u ∷ before) t after h = rw (last_named-middle before t after h) refl

-- A tool is found by its name unless a later tool has that name too.
pub lookup-listed :
    (before : List ToolDefinition) (t : ToolDefinition) (after : List ToolDefinition)
    → elem t.name (names after) ≡ false
    → lookup (registry_of (before ++ t ∷ after)) t.name ≡ some t
lookup-listed before t after h =
    lookup_lem (before ++ t ∷ after) t.name ∙ last_named-middle before t after h

-- The names under which the operations are shown.
abbrev pub shown_names : Option (Dict OperationOverride) → List SimplifiedOperation → List String
shown_names operations [] = []
shown_names operations (sop ∷ sops) =
    let override = override_for operations sop.operation.id in
    let rest = shown_names operations sops in
    if is_hidden override then rest else shown_name override sop ∷ rest

pub names-build_tools :
    (operations : Option (Dict OperationOverride)) (sops : List SimplifiedOperation)
    → names (build_tools operations sops) ≡ shown_names operations sops
unfolding build_tools tool_of
names-build_tools operations [] = refl
names-build_tools operations (sop ∷ sops) =
    elim (Bool-cases (is_hidden (override_for operations sop.operation.id))) [
      | inl hidden ↦ rw (hidden, build_tools) (names-build_tools operations sops)
      | inr seen ↦
          rw (seen, build_tools)
            (rw tool_name-shown_name (
              ap
                (λ (ns : List String).
                  shown_name (override_for operations sop.operation.id) sop ∷ ns)
                (names-build_tools operations sops)))
    ]

build_tools-append :
    (operations : Option (Dict OperationOverride)) (xs ys : List SimplifiedOperation)
    → build_tools operations (xs ++ ys) ≡ build_tools operations xs ++ build_tools operations ys
unfolding build_tools
build_tools-append operations [] ys = refl
build_tools-append operations (x ∷ xs) ys =
    elim (Bool-cases (is_hidden (override_for operations x.operation.id))) [
      | inl hidden ↦ rw (hidden, build_tools) (build_tools-append operations xs ys)
      | inr seen ↦
          rw (seen, build_tools)
            (ap
              (λ (ts : List ToolDefinition).
                tool_of (override_for operations x.operation.id) x ∷ ts)
              (build_tools-append operations xs ys))
    ]

-- An operation that is not hidden is reached under the new name that its override gives, or its own,
-- unless a later operation is shown under that name too: what is found is a tool for this operation
-- with that name, the description that the override gives or its own, and its schema, in which
-- additionalProperties is false where the override is strict.
pub build-lookup :
    (operations : Option (Dict OperationOverride)) (before : List SimplifiedOperation)
    (sop : SimplifiedOperation) (after : List SimplifiedOperation)
    → is_hidden (override_for operations sop.operation.id) ≡ false
    → elem
        (shown_name (override_for operations sop.operation.id) sop)
        (shown_names operations after)
      ≡ false
    → (t : ToolDefinition) × (lookup
          (build operations (before ++ sop ∷ after))
          (shown_name (override_for operations sop.operation.id) sop)
        ≡ some t)
      × IsExposed (override_for operations sop.operation.id) sop t
unfolding build build_tools tool_of
build-lookup operations before sop after seen fresh =
    let override = override_for operations sop.operation.id in
    let tools : build_tools operations (before ++ sop ∷ after)
        ≡ build_tools operations before ++ tool_of override sop ∷ build_tools operations after =
      build_tools-append operations before (sop ∷ after)
      ∙ ap (λ (ts : List ToolDefinition). build_tools operations before ++ ts)
          (rw (seen, build_tools) refl) in
    let name : tool_name override sop.operation.id ≡ shown_name override sop =
      tool_name-shown_name override sop in
    let free : elem (tool_name override sop.operation.id) (names (build_tools operations after))
        ≡ false =
      rw names-build_tools (rw name fresh) in
    let found : lookup (build operations (before ++ sop ∷ after))
          (tool_name override sop.operation.id)
        ≡ some (tool_of override sop) =
      rw tools (
        lookup-listed (build_tools operations before) (tool_of override sop)
          (build_tools operations after) free) in
    (
      tool_of override sop,
      subst (λ n. lookup (build operations (before ++ sop ∷ after)) n ≡ some (tool_of override sop))
          name found,
      tool_of-IsExposed override sop,
    )
