-- ===== src/Truncate/Tests.antt =====
-- `truncateHead` on small texts.
use moshu.Common.{true, [], ◌∷◌, ◌≤◌, ◌≡◌, refl, some, none}
use moshu.Common.Text.{Text, units}
use moshu.Truncate.{byte_length, truncate_head}
use moshu.Truncate.Head.{IsHead, truncate_head_lem}

abbrev text : Text
text = units "one\ntwo\nthree\n"

abbrev face : Text
face = 0xd83d ∷ 0xde00 ∷ 0xde00 ∷ []

face-bytes : byte_length face ≡ 7
unfolding byte_length
face-bytes = refl

two_lines : (truncate_head text (some 2) none).content ≡ units "one\ntwo"
unfolding truncate_head
two_lines = refl

nine_bytes : (truncate_head text none (some 9)).content ≡ units "one\ntwo"
unfolding truncate_head
nine_bytes = refl

two_bytes : (truncate_head text none (some 2)).first_line_exceeds_limit ≡ true
unfolding truncate_head
two_bytes = refl

truncate_head_lem_example :
    (byte_length (truncate_head text none (some 9)).content
      ≡ (truncate_head text none (some 9)).output_bytes)
    × ((truncate_head text none (some 9)).output_bytes ≤ 9)
    × ((truncate_head text none (some 9)).output_lines ≤ 2000)
    × IsHead 2000 9 text (truncate_head text none (some 9))
truncate_head_lem_example = truncate_head_lem text none (some 9)
