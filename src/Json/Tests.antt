-- ===== src/Json/Tests.antt =====
-- The scan of a message on concrete texts.
use moshu.Common.{◌≡◌, refl, ◌↔◌, true, false}
use moshu.Common.Text.{Text, units}
use moshu.Json.{has_safe_rpc_json_structure}
use moshu.Json.Symbols.{IsSafe}
use moshu.Json.Structure.{has_safe_rpc_json_structure_lem}

abbrev message : Text
message = units "{\"a\":[1,\"]\\\"\"]}"

accepts_message : has_safe_rpc_json_structure message ≡ true
unfolding has_safe_rpc_json_structure
accepts_message = refl

refuses_early_close : has_safe_rpc_json_structure (units "]") ≡ false
unfolding has_safe_rpc_json_structure
refuses_early_close = refl

refuses_open_string : has_safe_rpc_json_structure (units "\"a") ≡ false
unfolding has_safe_rpc_json_structure
refuses_open_string = refl

has_safe_rpc_json_structure_lem_example :
    (has_safe_rpc_json_structure message ≡ true) ↔ IsSafe message
has_safe_rpc_json_structure_lem_example = has_safe_rpc_json_structure_lem message
