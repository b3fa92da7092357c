-- ===== src/HostConfig/Tools.antt =====
-- Tool bindings, from profiles and from the environment: host_tool.rs beside
-- crates/etas_cli/src/command/interpreter/host_config.rs.
use etas.Base.{Text, codes, Option, none, some, ◌||◌, if◌then◌else◌}
use etas.Base.{List, [], ◌∷◌, ◌++◌, split_once, is_empty, same_text, map}
use etas.Base.Distinct.{member}
use etas.Diagnostics.{Result, ok, err, ◌>>=◌, ok_or, fail_if}
use etas.Archive.Octal.{trim}
use etas.Manifest.Schema.{RuntimeToolsProfile}
use etas.HostConfig.{
  UsageError, invalid_entry, empty_entry, duplicate_binding, CliToolBinding, http_tool, mcp_tool,
  process_tool,
}
use etas.HostConfig.Texts.{traverse, entries}

abbrev pub tool_binding_name : CliToolBinding → Text
tool_binding_name (http_tool name url) = name
tool_binding_name (mcp_tool name url) = name
tool_binding_name (process_tool name program) = name

abbrev pub tool_binding_endpoint : CliToolBinding → Option Text
tool_binding_endpoint (http_tool name url) = some url
tool_binding_endpoint (mcp_tool name url) = some url
tool_binding_endpoint (process_tool name program) = none

-- `filter_map(tool_binding_program)`
abbrev pub tool_programs : List CliToolBinding → List Text
tool_programs [] = []
tool_programs (http_tool name url ∷ bs) = tool_programs bs
tool_programs (mcp_tool name url ∷ bs) = tool_programs bs
tool_programs (process_tool name program ∷ bs) = program ∷ tool_programs bs

-- Whether a name stands twice; `seen` are the names before.
unfoldable pub check_unique : List Text → List CliToolBinding → Result UsageError (Unit {0})
unfolding same_text
check_unique seen [] = ok tt
check_unique seen (b ∷ bs) =
    let rest = check_unique (tool_binding_name b ∷ seen) bs in
    if member (tool_binding_name b) seen
    then err (duplicate_binding (tool_binding_name b))
    else rest

unfoldable pub validate_unique_tool_bindings :
    List CliToolBinding → Result UsageError (List CliToolBinding)
unfolding check_unique
validate_unique_tool_bindings bindings = check_unique [] bindings >>= λ _. ok bindings

unfoldable pub parse_named_value : (env entry : Text) → Result UsageError (Text × Text)
unfolding split_once trim
parse_named_value env entry = ok_or (split_once 61 entry) (invalid_entry env) >>= λ (name, value).
    fail_if (is_empty (trim name) || is_empty (trim value)) (empty_entry env) >>= λ _.
    ok (trim name, trim value)

unfoldable pub parse_named_values : (value env : Text) → Result UsageError (List (Text × Text))
unfolding traverse entries parse_named_value
parse_named_values value env = traverse (parse_named_value env) (entries value)

-- The bindings of one kind, from a variable that may be absent.
unfoldable pub bindings_of :
    (env : Text)
    → (Text → Text → CliToolBinding)
    → Option Text
    → Result UsageError (List CliToolBinding)
unfolding parse_named_values
bindings_of env bind none = ok []
bindings_of env bind (some value) =
    parse_named_values value env >>= λ pairs. ok (map (λ p. bind p.0 p.1) pairs)

unfoldable pub parse_tool_bindings :
    (http mcp process : Option Text) → Result UsageError (List CliToolBinding)
unfolding bindings_of validate_unique_tool_bindings
parse_tool_bindings http mcp process =
    bindings_of (codes "ETAS_HOST_TOOL_HTTP") http_tool http >>= λ hs.
    bindings_of (codes "ETAS_HOST_TOOL_MCP") mcp_tool mcp >>= λ ms.
    bindings_of (codes "ETAS_HOST_TOOL_PROCESS") process_tool process >>= λ ps.
    validate_unique_tool_bindings (hs ++ ms ++ ps)

unfoldable pub tool_bindings_from_profile :
    RuntimeToolsProfile → Result UsageError (List CliToolBinding)
unfolding validate_unique_tool_bindings
tool_bindings_from_profile profile = validate_unique_tool_bindings (
    map (λ p. http_tool p.0 p.1) profile.http
    ++ map (λ p. mcp_tool p.0 p.1) profile.mcp
    ++ map (λ p. process_tool p.0 p.1) profile.process)

-- An update takes the place of the first binding with its name, or comes last.
unfoldable pub merge_binding : CliToolBinding → List CliToolBinding → List CliToolBinding
unfolding same_text
merge_binding update [] = update ∷ []
merge_binding update (b ∷ bs) =
    let rest = merge_binding update bs in
    if same_text (tool_binding_name b) (tool_binding_name update) then update ∷ bs else b ∷ rest

unfoldable pub merge_tool_bindings : (existing updates : List CliToolBinding) → List CliToolBinding
unfolding merge_binding
merge_tool_bindings existing [] = existing
merge_tool_bindings existing (u ∷ us) = merge_tool_bindings (merge_binding u existing) us
