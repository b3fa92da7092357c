-- ===== src/HostConfig/Bindings.antt =====
-- What `merge_tool_bindings` of crates/etas_cli/src/command/interpreter/host_config.rs does to the
-- binding of each name.
use etas.Base.{Text, same_text, same_text_iff, Option, none, some, Bool, find, List, [], ◌∷◌, ◌≡◌}
use etas.Base.{ap, refl, ◌∙◌, arith, if◌then◌else◌, true, false}
use etas.HostConfig.{CliToolBinding}
use etas.HostConfig.Tools.{tool_binding_name, merge_binding, merge_tool_bindings}

abbrev pub is_named : Text → CliToolBinding → Bool
is_named name b = same_text (tool_binding_name b) name

abbrev pub or_else : Option CliToolBinding → Option CliToolBinding → Option CliToolBinding
or_else (some b) o = some b
or_else none o = o

-- The last of some bindings with a name.
abbrev pub last_named : Text → List CliToolBinding → Option CliToolBinding
last_named name [] = none
last_named name (b ∷ bs) = or_else (last_named name bs) (if is_named name b then some b else none)

find-merge_binding :
    (name : Text) (u : CliToolBinding) (bs : List CliToolBinding)
    → find (is_named name) (merge_binding u bs)
      ≡ (if is_named name u then some u else find (is_named name) bs)
unfolding merge_binding
find-merge_binding name u [] = refl
find-merge_binding name u (b ∷ bs) = ground (
  arith,
  find-merge_binding name u bs,
  same_text_iff (tool_binding_name b) (tool_binding_name u),
  same_text_iff (tool_binding_name b) name,
  same_text_iff (tool_binding_name u) name,
)

or_else-if :
    (x : Option CliToolBinding) (test : Bool) (u : CliToolBinding) (y : Option CliToolBinding)
    → or_else x (if test then some u else y) ≡ or_else (or_else x (if test then some u else none)) y
or_else-if none true u y = refl
or_else-if none false u y = refl
or_else-if (some b) test u y = refl

-- After a merge each name has the last update of that name, or else the binding it had before.
pub find-merge_tool_bindings :
    (name : Text) (existing updates : List CliToolBinding)
    → find (is_named name) (merge_tool_bindings existing updates)
      ≡ or_else (last_named name updates) (find (is_named name) existing)
unfolding merge_tool_bindings
find-merge_tool_bindings name existing [] = refl
find-merge_tool_bindings name existing (u ∷ us) =
    find-merge_tool_bindings name (merge_binding u existing) us
    ∙ (ap (or_else (last_named name us)) (find-merge_binding name u existing)
        ∙ or_else-if (last_named name us) (is_named name u) u (find (is_named name) existing))
