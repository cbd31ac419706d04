-- ===== src/ControlPlane/Adapters/Router.antt =====
-- `SimpleIntentRouter` of control_plane/adapters/to_kernel/router.py. `matches` is the regular
-- expression of the registry's `match_pattern`.
use kitematic.Base.{
  String, ◌<>◌, repr_list, Bool, Option, none, some, List, [], ◌∷◌, map, Outcome, returned, raised,
}
use kitematic.Kernel.Errors.{Error, orchestration_failed}
use kitematic.Kernel.Contracts.{Intent, ExecutionPath}
use kitematic.Kernel.Tools.{ToolDefinition, ToolRegistry, get_tool, match_pattern}

abbrev pub path_of : ToolDefinition → Intent → ExecutionPath
path_of t intent = record {
  tool = t.tool_id;
  adapter = t.mcp_server;
  parameters = intent.parameters;
}

unfoldable pub by_matches : Intent → List ToolDefinition → Outcome Error ExecutionPath
by_matches intent [] =
    raised (orchestration_failed ("No tool found for action '" <> intent.action <> "'"))
by_matches intent (t ∷ []) = returned (path_of t intent)
by_matches intent (t ∷ u ∷ tools) = raised (
    orchestration_failed (
      "Ambiguous action '"
      <> intent.action
      <> "' matches multiple tools: "
      <> repr_list (map (λ d. d.tool_id) (t ∷ u ∷ tools))))

unfoldable pub by_exact :
    Intent → List ToolDefinition → Option ToolDefinition → Outcome Error ExecutionPath
unfolding by_matches
by_exact intent matching (some exact) = returned (path_of exact intent)
by_exact intent matching none = by_matches intent matching

unfoldable pub route_intent :
    (matches : String → String → Bool) → Intent → ToolRegistry → Outcome Error ExecutionPath
unfolding by_exact
route_intent matches intent registry =
    by_exact intent (match_pattern matches intent.action registry) (get_tool intent.action registry)
