-- ===== src/ControlPlane/Adapters/Routes.antt =====
-- The router (control_plane/adapters/to_kernel/router.py) and the gateway (kernel/gateway.py) over
-- one registry of tools: what is routed can be accessed.
use kitematic.Base.{
  String, ◌≡◌, ◌∙◌, refl, sym, ap, Bool, Option, none, some, List, [], ◌∷◌, In, In-select, inl,
  Outcome, returned,
}
use kitematic.Base.Dict.{lookup, values}
use kitematic.Kernel.Errors.{Error}
use kitematic.Kernel.Contracts.{Intent, ExecutionPath}
use kitematic.Kernel.Tools.{ToolDefinition, ToolRegistry, new_registry, get_tool, match_pattern}
use kitematic.Kernel.Tools.Named.{Change, changes, changes-IsKeyed, none_there, IsKeyed}
use kitematic.Kernel.Tools.Distinct.{changes-listed}
use kitematic.ControlPlane.Adapters.Router.{path_of, by_matches, by_exact, route_intent}

-- The path leads to a tool of the registry and to its server.
abbrev pub LeadsToTool : ToolRegistry → ExecutionPath → Type 0
LeadsToTool registry path =
    (t : ToolDefinition) × (get_tool path.tool registry ≡ some t) × (path.adapter ≡ t.mcp_server)

path_eq :
    (p q : ExecutionPath) → ◌≡◌ {A = Outcome Error ExecutionPath} (returned p) (returned q) → p ≡ q
path_eq p q h = cc

module _ (intent : Intent) (path : ExecutionPath) (registry : ToolRegistry) where
  path_of-LeadsToTool :
      (t : ToolDefinition)
      → get_tool t.tool_id registry ≡ some t
      → ◌≡◌ {A = Outcome Error ExecutionPath} (returned (path_of t intent)) (returned path)
      → LeadsToTool registry path
  path_of-LeadsToTool t there h =
      let same = sym (path_eq _ _ h) in
      (t, ap (λ p. get_tool p.tool registry) same ∙ there, ap (λ p. p.adapter) same)

  by_matches-LeadsToTool :
      (tools : List ToolDefinition)
      → ((t : ToolDefinition) → In t tools → get_tool t.tool_id registry ≡ some t)
      → by_matches intent tools ≡ returned path
      → LeadsToTool registry path
  unfolding by_matches
  by_matches-LeadsToTool [] f h = cc
  by_matches-LeadsToTool (t ∷ []) f h = path_of-LeadsToTool t (f t (inl refl)) h
  by_matches-LeadsToTool (t ∷ u ∷ tools) f h = cc

  by_exact-LeadsToTool :
      (tools : List ToolDefinition) (exact : Option ToolDefinition)
      → ((t : ToolDefinition) → In t tools → get_tool t.tool_id registry ≡ some t)
      → ((t : ToolDefinition) → exact ≡ some t → get_tool t.tool_id registry ≡ some t)
      → by_exact intent tools exact ≡ returned path
      → LeadsToTool registry path
  unfolding by_exact
  by_exact-LeadsToTool tools none f g h = by_matches-LeadsToTool tools f h
  by_exact-LeadsToTool tools (some t) f g h = path_of-LeadsToTool t (g t refl) h

-- Whatever registrations and removals come first, a path that the router gives leads to a tool that
-- is registered, and names this tool's server: an access by the same registry never fails because
-- the tool is not there.
pub route_intent-LeadsToTool :
    (matches : String → String → Bool) (cs : List Change) (intent : Intent) (path : ExecutionPath)
    → route_intent matches intent (changes cs new_registry) ≡ returned path
    → LeadsToTool (changes cs new_registry) path
unfolding route_intent match_pattern get_tool IsKeyed
route_intent-LeadsToTool matches cs intent path h =
    let registry = changes cs new_registry in
    by_exact-LeadsToTool intent path registry _ _
      (λ t i. changes-listed cs t (In-select _ t (values registry.tools) i).0)
      (λ t e.
        let (own, _) = changes-IsKeyed cs new_registry none_there intent.action t e in
        ap (λ k. lookup k registry.tools) own ∙ e)
      h
