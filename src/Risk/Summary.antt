-- ===== src/Risk/Summary.antt =====
-- packages/action-broker/src/risk.ts: which actions must be approved, and what their summaries show.
use moshu.Common.{
  ℕ, zero, suc, ◌≤◌, ◌≡◌, refl, Bool, true, false, Option, none, some, List, [], ◌∷◌, length, map,
  All,
}
use moshu.Common.Text.{Text, slice}
use moshu.Risk.{
  RedactedValue, shown_text, shown_number, redacted, RedactedParams, RedactedActionSummary,
  ActionClassification, ExecutorToolCall, call_read, call_grep, call_find, call_ls, call_edit,
  call_write, call_bash, max_path_summary_length, byte_length, classify_bash,
  classify_executor_action, McpArguments, object, assign_key, redact_keys, redact_mcp_arguments,
  classify_mcp_action,
}

-- A call that the broker classifies.
pub data BrokerCall : Type 0 where
  executor_call : ExecutorToolCall → BrokerCall
  mcp_call : (mcp_server_id stable_tool_id : ℕ) → McpArguments → BrokerCall

abbrev pub classify : (ℕ → Text → Bool) → BrokerCall → ActionClassification
classify matches (executor_call c) = classify_executor_action matches c
classify matches (mcp_call server_id tool_id arguments) =
    classify_mcp_action server_id tool_id arguments

abbrev pub reads_only : BrokerCall → Bool
reads_only (executor_call (call_read _)) = true
reads_only (executor_call (call_grep _ _)) = true
reads_only (executor_call (call_find _ _)) = true
reads_only (executor_call (call_ls _)) = true
reads_only _ = false

abbrev pub is_shell : BrokerCall → Bool
is_shell (executor_call (call_bash _)) = true
is_shell _ = false

-- Calls that differ only in what must not be shown: the text of edits, of a file and of a command, and
-- the values of an MCP tool's arguments.
pub data IsAlike : BrokerCall → BrokerCall → Type 0 where
  edits_alike :
      (path : Text) (edits edits' : List (Text × Text))
      → length edits ≡ length edits'
      → IsAlike (executor_call (call_edit path edits)) (executor_call (call_edit path edits'))
  files_alike :
      (path content content' : Text)
      → byte_length content ≡ byte_length content'
      → IsAlike (executor_call (call_write path content)) (executor_call (call_write path content'))
  commands_alike :
      (command command' : Text)
      → IsAlike (executor_call (call_bash command)) (executor_call (call_bash command'))
  arguments_alike :
      (server_id tool_id : ℕ) (entries entries' : List (Text × Text))
      → map (λ (e : Text × Text). e.0) entries ≡ map (λ (e : Text × Text). e.0) entries'
      → IsAlike
          (mcp_call server_id tool_id (object entries))
          (mcp_call server_id tool_id (object entries'))

-- The loop over keys, without the values.
redact_names : ℕ → List Text → RedactedParams → RedactedParams
redact_names zero names params = params
redact_names (suc n) [] params = params
redact_names (suc n) (key ∷ names) params = redact_names n names (assign_key (slice 128 key) params)

redact_keys-names :
    (n : ℕ) (entries : List (Text × Text)) (params : RedactedParams)
    → redact_keys n entries params ≡ redact_names n (map (λ (e : Text × Text). e.0) entries) params
unfolding redact_keys redact_names
redact_keys-names zero entries params = refl
redact_keys-names (suc n) [] params = refl
redact_keys-names (suc n) ((key, v) ∷ entries) params =
    redact_keys-names n entries (assign_key (slice 128 key) params)

-- Two calls that differ only in the text of their edits (as many of them), in the content of the file
-- they write (as many bytes), in their shell command, or in the values of an MCP tool's arguments have
-- the same summary.
pub summary_hides :
    (matches : ℕ → Text → Bool) (c c' : BrokerCall)
    → IsAlike c c'
    → (classify matches c).summary ≡ (classify matches c').summary
unfolding classify_executor_action classify_bash classify_mcp_action redact_mcp_arguments
summary_hides matches _ _ (edits_alike path edits edits' e) = rw e refl
summary_hides matches _ _ (files_alike path content content' e) = rw e refl
summary_hides matches _ _ (commands_alike command command') = refl
summary_hides matches _ _ (arguments_alike server_id tool_id entries entries' e) =
    rw (redact_keys-names 32 entries [], redact_keys-names 32 entries' [], e) refl

abbrev pub IsShort : ℕ → Option Text → Type 0
IsShort n none = Unit
IsShort n (some s) = length s ≤ n

-- What a parameter of a summary may hold: a text of at most 256 code units, a number, or nothing.
abbrev pub IsParam : Text × RedactedValue → Type 0
IsParam (key, shown_text s) = (length key ≤ 128) × (length s ≤ 256)
IsParam (key, shown_number n) = length key ≤ 128
IsParam (key, redacted) = length key ≤ 128

-- What the summary of an action can hold at most.
pub record IsBounded (s : RedactedActionSummary) : Type 0 where
  pub short_path : IsShort max_path_summary_length s.path
  pub few_params : length s.redacted_params ≤ 32
  pub params : All IsParam s.redacted_params
