-- ===== src/Truncate.antt =====
-- apps/runtime-box/src/tools/truncate.ts: `truncateHead`, which keeps the first lines of a tool's output
-- within a limit of lines and one of bytes.
pub mod Head
mod Tests
use moshu.Common.{
  ℕ, suc, ◌+◌, Bool, true, false, not, ◌&&◌, ltb, leb, ◌==◌, if◌then◌else◌, Option, none, some,
  List, [], ◌∷◌, ◌++◌, length,
}
use moshu.Common.Text.{Text}

-- The bytes of a code unit, where the one before it may be the first half of a surrogate pair: a pair has
-- four, and half a pair has the three of the character that replaces it.
unfoldable pub unit_bytes : (paired : Bool) → ℕ → ℕ
unit_bytes paired c =
    if ltb c 0x80
    then 1
    else if ltb c 0x800
    then 2
    else if paired && leb 0xdc00 c && leb c 0xdfff
    then 1
    else 3

unfoldable pub bytes_from : (paired : Bool) → Text → ℕ
unfolding unit_bytes
bytes_from paired [] = 0
bytes_from paired (c ∷ s) = unit_bytes paired c + bytes_from (leb 0xd800 c && leb c 0xdbff) s

-- `Buffer.byteLength(s, "utf8")`
unfoldable pub byte_length : Text → ℕ
unfolding bytes_from
byte_length s = bytes_from false s

abbrev pub newline : ℕ
newline = 10

-- `s.split("\n")`
unfoldable pub prepend : ℕ → List Text → List Text
prepend c [] = (c ∷ []) ∷ []
prepend c (line ∷ lines) = (c ∷ line) ∷ lines

unfoldable pub split : Text → List Text
unfolding prepend
split [] = [] ∷ []
split (c ∷ s) = let rest = split s in if c == newline then [] ∷ rest else prepend c rest

-- `lines.join("\n")`
unfoldable pub join : List Text → Text
join [] = []
join (line ∷ []) = line
join (line ∷ next ∷ lines) = line ++ newline ∷ join (next ∷ lines)

unfoldable pub ends_with_newline : Text → Bool
ends_with_newline [] = false
ends_with_newline (c ∷ []) = c == newline
ends_with_newline (c ∷ d ∷ s) = ends_with_newline (d ∷ s)

-- `lines.pop()`
unfoldable pub pop : List Text → List Text
pop [] = []
pop (line ∷ []) = []
pop (line ∷ next ∷ lines) = line ∷ pop (next ∷ lines)

unfoldable pub split_lines_for_counting : Text → List Text
unfolding split pop ends_with_newline
split_lines_for_counting [] = []
split_lines_for_counting (c ∷ s) =
    if ends_with_newline (c ∷ s) then pop (split (c ∷ s)) else split (c ∷ s)

pub data TruncatedBy : Type 0 where
  by_nothing by_lines by_bytes : TruncatedBy

pub record Truncation : Type 0 where
  pub content : Text
  pub truncated : Bool
  pub truncated_by : TruncatedBy
  pub total_lines : ℕ
  pub total_bytes : ℕ
  pub output_lines : ℕ
  pub output_bytes : ℕ
  pub last_line_partial : Bool
  pub first_line_exceeds_limit : Bool
  pub max_lines : ℕ
  pub max_bytes : ℕ

-- The local variables of the loop.
pub record Kept : Type 0 where
  pub output_lines : List Text
  pub output_bytes : ℕ
  pub truncated_by : TruncatedBy

abbrev pub keep_line : Text → ℕ → Kept → Kept
keep_line line line_bytes s = record s {
  output_lines = s.output_lines ++ line ∷ [];
  output_bytes = s.output_bytes + line_bytes;
}

unfoldable pub keep_lines : (max_lines max_bytes index : ℕ) → Kept → List Text → Kept
unfolding byte_length
keep_lines max_lines max_bytes index s [] = s
keep_lines max_lines max_bytes index s (line ∷ lines) =
    let line_bytes = byte_length line + (if ltb 0 index then 1 else 0) in
    let continued =
      keep_lines max_lines max_bytes (suc index) (keep_line line line_bytes s) lines in
    if not (ltb index max_lines)
    then s
    else if ltb max_bytes (s.output_bytes + line_bytes)
    then record s { truncated_by = by_bytes }
    else continued

abbrev pub first_line : List Text → Text
first_line [] = []
first_line (line ∷ _) = line

abbrev pub default_max_lines : ℕ
default_max_lines = 2000

abbrev pub default_max_bytes : ℕ
default_max_bytes = 51200

abbrev pub or_default : Option ℕ → ℕ → ℕ
or_default none n = n
or_default (some m) n = m

abbrev pub no_lines : Kept
no_lines = record { output_lines = []; output_bytes = 0; truncated_by = by_lines }

abbrev pub limit_reached : (max_lines max_bytes : ℕ) → Kept → TruncatedBy
limit_reached max_lines max_bytes s =
    if leb max_lines (length s.output_lines) && leb s.output_bytes max_bytes
    then by_lines
    else s.truncated_by

unfoldable pub truncate_within : (max_lines max_bytes : ℕ) → Text → Truncation
unfolding byte_length split_lines_for_counting keep_lines join
truncate_within max_lines max_bytes content =
    let total_bytes = byte_length content in
    let lines = split_lines_for_counting content in
    let total_lines = length lines in
    let s = keep_lines max_lines max_bytes 0 no_lines lines in
    let output = join s.output_lines in
    if leb total_lines max_lines && leb total_bytes max_bytes
    then record {
      content = content;
      truncated = false;
      truncated_by = by_nothing;
      total_lines = total_lines;
      total_bytes = total_bytes;
      output_lines = total_lines;
      output_bytes = total_bytes;
      last_line_partial = false;
      first_line_exceeds_limit = false;
      max_lines = max_lines;
      max_bytes = max_bytes;
    }
    else if ltb max_bytes (byte_length (first_line lines))
    then record {
      content = [];
      truncated = true;
      truncated_by = by_bytes;
      total_lines = total_lines;
      total_bytes = total_bytes;
      output_lines = 0;
      output_bytes = 0;
      last_line_partial = false;
      first_line_exceeds_limit = true;
      max_lines = max_lines;
      max_bytes = max_bytes;
    }
    else record {
      content = output;
      truncated = true;
      truncated_by = limit_reached max_lines max_bytes s;
      total_lines = total_lines;
      total_bytes = total_bytes;
      output_lines = length s.output_lines;
      output_bytes = byte_length output;
      last_line_partial = false;
      first_line_exceeds_limit = false;
      max_lines = max_lines;
      max_bytes = max_bytes;
    }

unfoldable pub truncate_head : Text → (max_lines max_bytes : Option ℕ) → Truncation
unfolding truncate_within
truncate_head content max_lines max_bytes =
    truncate_within (or_default max_lines default_max_lines)
      (or_default max_bytes default_max_bytes) content
