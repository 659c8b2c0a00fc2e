-- ===== src/Risk.antt =====
-- packages/action-broker/src/risk.ts: what an action's call says of its risk, and what of the call is
-- shown to the people who are asked to approve it. A text is its list of UTF-16 code units. Whether a
-- command matches the pattern of a number in the list of critical ones is an argument; a reason is
-- named by its pattern, or by the tool.
pub mod Summary
mod Tests
use moshu.Common.{
  ℕ, zero, suc, ◌+◌, ◌-◌, Bool, true, false, ◌&&◌, ◌||◌, ltb, leb, ◌==◌, if◌then◌else◌, Option,
  none, some, List, [], ◌∷◌, ◌++◌, length,
}
use moshu.Common.Text.{Text, units, slice}

pub data ApprovalOperation : Type 0 where
  read search list edit write bash mcp : ApprovalOperation

pub data RiskTier : Type 0 where
  low medium high critical : RiskTier

pub data Reason : Type 0 where
  edits_file writes_file unverified_command external_tool : Reason
  critical_pattern : ℕ → Reason

pub record ActionRisk : Type 0 where
  pub tier : RiskTier
  pub overridable : Bool
  pub reasons : List Reason

pub data RedactedValue : Type 0 where
  shown_text : Text → RedactedValue
  shown_number : ℕ → RedactedValue
  redacted : RedactedValue

abbrev pub RedactedParams : Type 0
RedactedParams = List (Text × RedactedValue)

pub record RedactedActionSummary : Type 0 where
  pub operation : ApprovalOperation
  pub command : Option Text
  pub path : Option Text
  pub mcp_server_id : Option ℕ
  pub mcp_tool_id : Option ℕ
  pub redacted_params : RedactedParams

pub record ActionClassification : Type 0 where
  pub operation : ApprovalOperation
  pub risk : ActionRisk
  pub requires_approval : Bool
  pub summary : RedactedActionSummary

pub data ExecutorToolCall : Type 0 where
  call_read : (path : Text) → ExecutorToolCall
  call_grep call_find : (path : Option Text) → (pattern : Text) → ExecutorToolCall
  call_ls : (path : Option Text) → ExecutorToolCall
  call_edit : (path : Text) → (edits : List (Text × Text)) → ExecutorToolCall
  call_write : (path content : Text) → ExecutorToolCall
  call_bash : (command : Text) → ExecutorToolCall

abbrev pub max_path_summary_length : ℕ
max_path_summary_length = 1024

abbrev pub critical_bash_patterns : List ℕ
critical_bash_patterns = 0 ∷ 1 ∷ 2 ∷ 3 ∷ 4 ∷ 5 ∷ 6 ∷ 7 ∷ 8 ∷ []

abbrev pub shell_approval_preview : Text
shell_approval_preview = units "shell [arguments hidden]"

abbrev pub build_safe_command_preview : Text → Text
build_safe_command_preview command = shell_approval_preview

unfoldable pub truncate : Text → ℕ → Text
unfolding slice
truncate value max =
    if leb (length value) max then value else slice (max - 1) value ++ (0x2026 ∷ [])

-- `new TextEncoder().encode(value).length`: a surrogate without its pair is encoded as U+FFFD.
unfoldable pub byte_length : Text → ℕ
byte_length [] = 0
byte_length (c ∷ []) = if ltb c 0x80 then 1 else if ltb c 0x800 then 2 else 3
byte_length (c ∷ d ∷ s) =
    let rest = byte_length (d ∷ s) in
    let after_pair = byte_length s in
    if ltb c 0x80
    then suc rest
    else if ltb c 0x800
    then rest + 2
    else if leb 0xd800 c && ltb c 0xdc00 && leb 0xdc00 d && ltb d 0xe000
    then after_pair + 4
    else rest + 3

abbrev pub summary_of : ApprovalOperation → Option Text → RedactedParams → RedactedActionSummary
summary_of operation path params = record {
  operation = operation;
  command = none;
  path = path;
  mcp_server_id = none;
  mcp_tool_id = none;
  redacted_params = params;
}

abbrev pub read_only : ApprovalOperation → RedactedActionSummary → ActionClassification
read_only operation summary = record {
  operation = operation;
  risk = record { tier = low; overridable = true; reasons = [] };
  requires_approval = false;
  summary = summary;
}

abbrev pub truncated_path : Option Text → Option Text
truncated_path none = none
truncated_path (some path) = some (truncate path max_path_summary_length)

abbrev pub workspace_change :
    ApprovalOperation → Reason → RedactedActionSummary → ActionClassification
workspace_change operation reason summary = record {
  operation = operation;
  risk = record { tier = medium; overridable = true; reasons = reason ∷ [] };
  requires_approval = true;
  summary = summary;
}

-- The reasons of the patterns that a command matches.
unfoldable pub danger_reasons : (ℕ → Text → Bool) → List ℕ → Text → List Reason
danger_reasons matches [] command = []
danger_reasons matches (p ∷ ps) command =
    let rest = danger_reasons matches ps command in
    if matches p command then critical_pattern p ∷ rest else rest

abbrev pub bash_risk : List Reason → ActionRisk
bash_risk [] = record { tier = high; overridable = false; reasons = unverified_command ∷ [] }
bash_risk (r ∷ rs) = record { tier = critical; overridable = false; reasons = r ∷ rs }

unfoldable pub classify_bash : (ℕ → Text → Bool) → Text → ActionClassification
unfolding danger_reasons
classify_bash matches command = record {
  operation = bash;
  risk = bash_risk (danger_reasons matches critical_bash_patterns command);
  requires_approval = true;
  summary = record {
    operation = bash;
    command = some (build_safe_command_preview command);
    path = none;
    mcp_server_id = none;
    mcp_tool_id = none;
    redacted_params = [];
  };
}

unfoldable pub classify_executor_action :
    (ℕ → Text → Bool) → ExecutorToolCall → ActionClassification
unfolding truncate byte_length classify_bash
classify_executor_action matches (call_read path) =
    read_only read (summary_of read (some (truncate path max_path_summary_length)) [])
classify_executor_action matches (call_grep path pattern) = read_only search (
    summary_of search (truncated_path path)
      ((units "pattern", shown_text (truncate pattern 256)) ∷ []))
classify_executor_action matches (call_find path pattern) = read_only search (
    summary_of search (truncated_path path)
      ((units "pattern", shown_text (truncate pattern 256)) ∷ []))
classify_executor_action matches (call_ls path) =
    read_only list (summary_of list (truncated_path path) [])
classify_executor_action matches (call_edit path edits) = workspace_change edit edits_file (
    summary_of edit (some (truncate path max_path_summary_length))
      ((units "edits", shown_number (length edits)) ∷ []))
classify_executor_action matches (call_write path content) = workspace_change write writes_file (
    summary_of write (some (truncate path max_path_summary_length))
      ((units "contentBytes", shown_number (byte_length content)) ∷ []))
classify_executor_action matches (call_bash command) = classify_bash matches command

-- The arguments of an MCP tool: no object, or an object with its entries, whose values are texts here.
pub data McpArguments : Type 0 where
  no_object : McpArguments
  object : List (Text × Text) → McpArguments

unfoldable pub same_text : Text → Text → Bool
same_text [] [] = true
same_text (a ∷ s) (b ∷ t) = let rest = same_text s t in a == b && rest
same_text _ _ = false

-- An assignment to a key of an object, all of whose values are the same.
unfoldable pub redact_key : Text → RedactedParams → RedactedParams
unfolding same_text
redact_key key [] = (key, redacted) ∷ []
redact_key key ((k, v) ∷ params) =
    let rest = redact_key key params in
    if same_text k key then (k, redacted) ∷ params else (k, v) ∷ rest

-- A text that is assigned to `__proto__` is dropped.
unfoldable pub assign_key : Text → RedactedParams → RedactedParams
unfolding redact_key same_text
assign_key key params = if same_text key (units "__proto__") then params else redact_key key params

-- The loop over the first `n` keys.
unfoldable pub redact_keys : ℕ → List (Text × Text) → RedactedParams → RedactedParams
unfolding assign_key slice
redact_keys zero entries params = params
redact_keys (suc n) [] params = params
redact_keys (suc n) ((key, _) ∷ entries) params =
    redact_keys n entries (assign_key (slice 128 key) params)

unfoldable pub redact_mcp_arguments : McpArguments → RedactedParams
unfolding redact_keys
redact_mcp_arguments no_object = []
redact_mcp_arguments (object entries) = redact_keys 32 entries []

unfoldable pub classify_mcp_action :
    (mcp_server_id stable_tool_id : ℕ) → McpArguments → ActionClassification
unfolding redact_mcp_arguments
classify_mcp_action server_id tool_id arguments = record {
  operation = mcp;
  risk = record { tier = high; overridable = true; reasons = external_tool ∷ [] };
  requires_approval = true;
  summary = record {
    operation = mcp;
    command = none;
    path = none;
    mcp_server_id = some server_id;
    mcp_tool_id = some tool_id;
    redacted_params = redact_mcp_arguments arguments;
  };
}
