-- ===== src/Json.antt =====
-- packages/process-rpc-core/src/json-structure.ts: the scan of a message's text that bounds its
-- nesting before it is parsed. A text is its list of UTF-16 code units.
pub mod Symbols
pub mod Structure
mod Tests
use moshu.Common.{
  ℕ, ◌+◌, ◌-◌, Bool, true, false, not, ◌&&◌, ◌||◌, ltb, ◌==◌, if◌then◌else◌, Option, none, some, [],
  ◌∷◌,
}
use moshu.Common.Text.{Text}

abbrev pub max_rpc_json_depth : ℕ
max_rpc_json_depth = 64

abbrev pub max_rpc_json_containers : ℕ
max_rpc_json_containers = 4096

abbrev pub max_rpc_json_values : ℕ
max_rpc_json_values = 100000

-- The variables of the loop.
pub record Scan : Type 0 where
  pub depth : ℕ
  pub containers : ℕ
  pub values : ℕ
  pub in_string : Bool
  pub escaped : Bool

abbrev pub quote : ℕ
quote = 0x22

abbrev pub backslash : ℕ
backslash = 0x5c

abbrev pub is_opening : ℕ → Bool
is_opening c = c == 0x7b || c == 0x5b

abbrev pub is_closing : ℕ → Bool
is_closing c = c == 0x7d || c == 0x5d

abbrev pub is_comma : ℕ → Bool
is_comma c = c == 0x2c

-- The body of the loop; `none` where it returns `false`. The depth is tested before it would fall
-- below 0.
unfoldable pub scan_in_string : Scan → ℕ → Scan
scan_in_string s c =
    if s.escaped
    then record s { escaped = false }
    else if c == backslash
    then record s { escaped = true }
    else if c == quote
    then record s { in_string = false }
    else s

unfoldable pub scan_opening : Scan → Option Scan
scan_opening s =
    if ltb max_rpc_json_depth (s.depth + 1) || ltb max_rpc_json_containers (s.containers + 1)
    then none
    else some (record s { depth = s.depth + 1; containers = s.containers + 1 })

unfoldable pub scan_closing : Scan → Option Scan
scan_closing s = if s.depth == 0 then none else some (record s { depth = s.depth - 1 })

unfoldable pub scan_comma : Scan → Option Scan
scan_comma s =
    if ltb max_rpc_json_values (s.values + 1)
    then none
    else some (record s { values = s.values + 1 })

unfoldable pub scan_step : Scan → ℕ → Option Scan
unfolding scan_in_string scan_opening scan_closing scan_comma
scan_step s c =
    if s.in_string
    then some (scan_in_string s c)
    else if c == quote
    then some (record s { in_string = true })
    else if is_opening c
    then scan_opening s
    else if is_closing c
    then scan_closing s
    else if is_comma c
    then scan_comma s
    else some s

unfoldable pub scan : Scan → Text → Bool
unfolding scan_step
scan s [] = s.depth == 0 && not s.in_string
scan s (c ∷ text) = elim (scan_step s c) [ none ↦ false | some s' ↦ scan s' text ]

abbrev pub initial_scan : Scan
initial_scan = record { depth = 0; containers = 0; values = 1; in_string = false; escaped = false }

unfoldable pub has_safe_rpc_json_structure : Text → Bool
unfolding scan
has_safe_rpc_json_structure text = scan initial_scan text
