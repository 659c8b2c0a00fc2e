-- ===== src/Json/Symbols.antt =====
-- An independent description of a text that is safe to parse: the brackets and commas that stand
-- outside of strings, their order forgotten but for what is open at each point.
use moshu.Common.{
  ℕ, zero, suc, ◌+◌, ◌≤◌, ◌≡◌, Bool, true, false, ◌==◌, if◌then◌else◌, List, [], ◌∷◌,
}
use moshu.Common.Text.{Text}
use moshu.Json.{
  max_rpc_json_depth, max_rpc_json_containers, max_rpc_json_values, quote, backslash, is_opening,
  is_closing, is_comma,
}

pub data Symbol : Type 0 where
  opening closing comma : Symbol

-- Where a reader of the text stands.
pub data Place : Type 0 where
  outside inside after_backslash : Place

unfoldable pub move : Place → ℕ → Place
move outside c = if c == quote then inside else outside
move inside c = if c == backslash then after_backslash else if c == quote then outside else inside
move after_backslash c = inside

abbrev pub add_if : Bool → Symbol → List Symbol → List Symbol
add_if true s rest = s ∷ rest
add_if false s rest = rest

unfoldable pub symbol : Place → ℕ → List Symbol → List Symbol
symbol outside c rest =
    if c == quote
    then rest
    else add_if (is_opening c) opening
        (add_if (is_closing c) closing (add_if (is_comma c) comma rest))
symbol inside c rest = rest
symbol after_backslash c rest = rest

unfoldable pub symbols : Place → Text → List Symbol
symbols p [] = []
symbols p (c ∷ text) = symbol p c (symbols (move p c) text)

unfoldable pub last_place : Place → Text → Place
last_place p [] = p
last_place p (c ∷ text) = last_place (move p c) text

abbrev pub count_opening : List Symbol → ℕ
count_opening [] = 0
count_opening (opening ∷ s) = suc (count_opening s)
count_opening (closing ∷ s) = count_opening s
count_opening (comma ∷ s) = count_opening s

abbrev pub count_closing : List Symbol → ℕ
count_closing [] = 0
count_closing (opening ∷ s) = count_closing s
count_closing (closing ∷ s) = suc (count_closing s)
count_closing (comma ∷ s) = count_closing s

abbrev pub count_comma : List Symbol → ℕ
count_comma [] = 0
count_comma (opening ∷ s) = count_comma s
count_comma (closing ∷ s) = count_comma s
count_comma (comma ∷ s) = suc (count_comma s)

abbrev pub take {ℓ} : {A : Type ℓ} → ℕ → List A → List A
take zero xs = []
take (suc n) [] = []
take (suc n) (x ∷ xs) = x ∷ take n xs

-- At each point at least 0 and at most 64 brackets are open, beside `d` that were open before; at
-- the end none is.
pub record IsNested (d : ℕ) (s : List Symbol) : Type 0 where
  pub closes : (n : ℕ) → count_closing (take n s) ≤ d + count_opening (take n s)
  pub shallow :
      (n : ℕ) → d + count_opening (take n s) ≤ count_closing (take n s) + max_rpc_json_depth
  pub balanced : d + count_opening s ≡ count_closing s

pub record IsSafe (text : Text) : Type 0 where
  pub nested : IsNested 0 (symbols outside text)
  pub few_containers : count_opening (symbols outside text) ≤ max_rpc_json_containers
  pub few_values : 1 + count_comma (symbols outside text) ≤ max_rpc_json_values
  pub complete : last_place outside text ≡ outside
