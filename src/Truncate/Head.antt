-- ===== src/Truncate/Head.antt =====
-- What `truncateHead` keeps.
use moshu.Common.{
  ℕ, suc, ◌+◌, ◌≤◌, ◌<◌, ◌≡◌, refl, ap, ◌∙◌, inl, inr, ◌⊎◌, Bool, true, false, ◌&&◌, ltb, leb,
  if◌then◌else◌, Bool-cases, Option, List, [], ◌∷◌, ◌++◌, length, arith,
}
use moshu.Common.Text.{Text}
use moshu.Truncate.{
  unit_bytes, bytes_from, byte_length, newline, join, split_lines_for_counting, Truncation, Kept,
  keep_line, keep_lines, no_lines, first_line, or_default, default_max_lines, default_max_bytes,
  truncate_within, truncate_head,
}

bytes_from-newline :
    (paired : Bool) (a b : Text)
    → bytes_from paired (a ++ newline ∷ b) ≡ bytes_from paired a + (1 + bytes_from false b)
unfolding bytes_from unit_bytes
bytes_from-newline paired [] b = omega arith
bytes_from-newline paired (c ∷ a) b =
    omega (arith, bytes_from-newline (leb 0xd800 c && leb c 0xdbff) a b)

abbrev separator : List Text → ℕ
separator [] = 0
separator (_ ∷ _) = 1

join-snoc :
    (ls : List Text) (line : Text)
    → byte_length (join (ls ++ line ∷ []))
      ≡ byte_length (join ls) + (byte_length line + separator ls)
unfolding join byte_length bytes_from
join-snoc [] line = omega arith
join-snoc (l ∷ []) line = omega (arith, bytes_from-newline false l line)
join-snoc (l ∷ m ∷ ls) line = omega (
  arith,
  join-snoc (m ∷ ls) line,
  bytes_from-newline false l (join (m ∷ (ls ++ line ∷ []))),
  bytes_from-newline false l (join (m ∷ ls)),
)

length-snoc : (ls : List Text) (line : Text) → length (ls ++ line ∷ []) ≡ suc (length ls)
length-snoc [] line = refl
length-snoc (l ∷ ls) line = omega (arith, length-snoc ls line)

append-snoc :
    (ls : List Text) (line : Text) (rest : List Text)
    → (ls ++ line ∷ []) ++ rest ≡ ls ++ line ∷ rest
append-snoc [] line rest = refl
append-snoc (l ∷ ls) line rest = ap (λ x. l ∷ x) (append-snoc ls line rest)

separator_lem : (ls : List Text) → separator ls ≡ (if ltb 0 (length ls) then 1 else 0)
separator_lem [] = refl
separator_lem (l ∷ ls) = ground arith

-- No further line has a place.
abbrev pub IsFull : (max_lines max_bytes : ℕ) (kept rest : List Text) → Type 0
IsFull max_lines max_bytes kept [] = Unit
IsFull max_lines max_bytes kept (next ∷ _) =
    (max_lines ≤ length kept) ⊎ (max_bytes < byte_length (join (kept ++ next ∷ [])))

-- The first lines of a text that is cut.
IsCut : (max_lines max_bytes : ℕ) (lines kept : List Text) → Type 0
IsCut max_lines max_bytes lines kept =
    (rest : List Text) × (kept ++ rest ≡ lines) × IsFull max_lines max_bytes kept rest

-- The loop counts the bytes of what it keeps and stays within the limits.
IsWithin : (max_lines max_bytes : ℕ) (lines : List Text) → Kept → Type 0
IsWithin max_lines max_bytes lines s =
    (byte_length (join s.output_lines) ≡ s.output_bytes)
    × (s.output_bytes ≤ max_bytes)
    × (length s.output_lines ≤ max_lines)
    × IsCut max_lines max_bytes lines s.output_lines

keep_lines-IsWithin :
    (max_lines max_bytes index : ℕ) (s : Kept) (all lines : List Text)
    → length s.output_lines ≡ index
    → byte_length (join s.output_lines) ≡ s.output_bytes
    → s.output_bytes ≤ max_bytes
    → index ≤ max_lines
    → s.output_lines ++ lines ≡ all
    → IsWithin max_lines max_bytes all (keep_lines max_lines max_bytes index s lines)
unfolding keep_lines IsWithin IsCut
keep_lines-IsWithin ml mb i s all [] len bytes fit few e =
    (bytes, fit, omega (arith, len, few), ([], e, tt))
keep_lines-IsWithin ml mb i s all (line ∷ lines) len bytes fit few e =
    let line_bytes = byte_length line + (if ltb 0 i then 1 else 0) in
    elim (Bool-cases (ltb i ml)) [
      | inr full ↦
          rw full (
            bytes,
            fit,
            omega (arith, len, few),
            (line ∷ lines, e, inl (ground (arith, full, len))),
          )
      | inl room ↦ elim (Bool-cases (ltb mb (s.output_bytes + line_bytes))) [
        | inl large ↦
            rw (room, large)
              (
                bytes,
                fit,
                omega (arith, len, few),
                (
                  line ∷ lines,
                  e,
                  inr (
                      ground (
                        arith,
                        large,
                        join-snoc s.output_lines line,
                        separator_lem s.output_lines,
                        len,
                        bytes,
                      )),
                ),
              )
        | inr small ↦
            rw (room, small)
              (keep_lines-IsWithin ml mb (suc i) (keep_line line line_bytes s) all lines
                (length-snoc s.output_lines line ∙ ap suc len)
                (ground
                  (arith, join-snoc s.output_lines line, separator_lem s.output_lines, len, bytes))
                (ground (arith, small)) (ground (arith, room))
                (append-snoc s.output_lines line lines ∙ e))
      ]
    ]

-- The text as it is, where it is within both limits, or its first lines, where it is not: as many as
-- fit, and none where the first is too long.
abbrev pub IsHead : (max_lines max_bytes : ℕ) → Text → Truncation → Type 0
IsHead max_lines max_bytes content t =
    (t.truncated ≡ false × t.content ≡ content)
    ⊎ (t.truncated ≡ true
        × ((max_lines < length (split_lines_for_counting content))
            ⊎ (max_bytes < byte_length content))
        × (kept : List Text) × (t.content ≡ join kept)
        × (t.output_lines ≡ length kept)
        × (rest : List Text) × (kept ++ rest ≡ split_lines_for_counting content)
        × IsFull max_lines max_bytes kept rest)

abbrev IsBounded : (max_lines max_bytes : ℕ) → Text → Truncation → Type 0
IsBounded max_lines max_bytes content t =
    (byte_length t.content ≡ t.output_bytes)
    × (t.output_bytes ≤ max_bytes)
    × (t.output_lines ≤ max_lines)
    × IsHead max_lines max_bytes content t

-- A first line that alone exceeds the limit.
first_line-IsFull :
    (max_lines max_bytes : ℕ) (lines : List Text)
    → max_bytes < byte_length (first_line lines)
    → IsFull max_lines max_bytes [] lines
unfolding join
first_line-IsFull ml mb [] h = tt
first_line-IsFull ml mb (line ∷ lines) h = inr h

exceeds :
    (ml mb lines bytes : ℕ) → (leb lines ml && leb bytes mb) ≡ false → (ml < lines) ⊎ (mb < bytes)
exceeds ml mb lines bytes h = ground arith

truncate_within-IsBounded :
    (ml mb : ℕ) (content : Text) → IsBounded ml mb content (truncate_within ml mb content)
unfolding truncate_within IsWithin IsCut
truncate_within-IsBounded ml mb content =
    let lines = split_lines_for_counting content in
    elim (Bool-cases (leb (length lines) ml && leb (byte_length content) mb)) [
      | inl small ↦ rw small (refl, ground (arith, small), ground (arith, small), inl (refl, refl))
      | inr large ↦
          let over = exceeds ml mb (length lines) (byte_length content) large in
          elim (Bool-cases (ltb mb (byte_length (first_line lines)))) [
            | inl long ↦
                rw (large, long)
                  (
                    refl,
                    omega arith,
                    omega arith,
                    inr (
                      refl,
                      over,
                      [],
                      refl,
                      refl,
                      lines,
                      refl,
                      first_line-IsFull ml mb lines (ground (arith, long)),
                    ),
                  )
            | inr short ↦
                let (bytes, fit, few, (rest, e, full)) =
                  keep_lines-IsWithin ml mb 0 no_lines lines lines refl refl (omega arith)
                    (omega arith) refl in
                let s = keep_lines ml mb 0 no_lines lines in
                rw (large, short)
                  (
                    refl,
                    omega (arith, bytes, fit),
                    few,
                    inr (refl, over, s.output_lines, refl, refl, rest, e, full),
                  )
          ]
    ]

-- What `truncateHead` returns: it has as many bytes as it says, and no more bytes or lines than the limits
-- given or, where none is given, 51200 bytes and 2000 lines. It is the text itself, where that is within
-- the limits, or as many of its first lines as fit.
pub truncate_head_lem :
    (content : Text) (max_lines max_bytes : Option ℕ)
    → let t = truncate_head content max_lines max_bytes in
      (byte_length t.content ≡ t.output_bytes)
      × (t.output_bytes ≤ or_default max_bytes default_max_bytes)
      × (t.output_lines ≤ or_default max_lines default_max_lines)
      × IsHead
          (or_default max_lines default_max_lines)
          (or_default max_bytes default_max_bytes)
          content
          t
unfolding truncate_head
truncate_head_lem content max_lines max_bytes =
    truncate_within-IsBounded (or_default max_lines default_max_lines)
      (or_default max_bytes default_max_bytes) content
