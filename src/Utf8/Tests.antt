-- ===== src/Utf8/Tests.antt =====
-- Characters of one to four bytes, and a text that is cut short.
use egui.Prelude.{◌≡◌, refl, arith, none, some, [], ◌∷◌, ◌++◌}
use egui.Prelude.Int.{pos, negsuc}
use egui.Utf8.{get_char, get_rest, compute, strlen, count_all, skip, bad_char}
use egui.Utf8.Encode.{encode, tail_bytes}
use egui.Utf8.Decode.{get_char-encode}
use egui.Utf8.Count.{text, fitting, visible, strlen-visible}

-- The euro sign is three bytes.
encode_euro : encode 8364 ≡ 226 ∷ 130 ∷ 172 ∷ []
unfolding encode tail_bytes
encode_euro = refl

-- A byte of the inside of a character, and a character that another one cuts short
bad_first : get_char (130 ∷ 172 ∷ []) ≡ some bad_char
unfolding get_char compute get_rest
bad_first = refl

bad_second : get_char (226 ∷ 65 ∷ []) ≡ some bad_char
unfolding get_char compute get_rest
bad_second = refl

-- The end of a text that stops inside a character is stepped over.
runs_over : strlen (some (226 ∷ 0 ∷ [])) (negsuc 0) ≡ none
unfolding strlen count_all skip
runs_over = refl

get_char-encode_example : get_char (encode 128512 ++ 65 ∷ []) ≡ some 128512
get_char-encode_example = get_char-encode 128512 (65 ∷ []) (omega arith)

strlen-visible_example :
    strlen (some (text (8364 ∷ 65 ∷ []) [])) (pos 3) ≡ some (visible (pos 3) (8364 ∷ 65 ∷ []))
strlen-visible_example = strlen-visible (pos 3) (8364 ∷ 65 ∷ []) [] (omega arith)

visible_one : visible (pos 3) (8364 ∷ 65 ∷ []) ≡ 1
unfolding visible fitting encode tail_bytes
visible_one = refl
