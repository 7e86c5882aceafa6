-- ===== src/Codec/Tests.antt =====
-- src/codegen.zig: the round trips at concrete arguments.
use wayring.Base.{length, ok, ℕ, ◌≡◌, refl, false, some, List, [], ◌∷◌, ◌++◌, arith}
use wayring.Wire.{little, string, has_nul}
use wayring.Codec.{variable_size, write_string}
use wayring.Codec.Roundtrip.{string-write_string}

abbrev text : List ℕ
text = b'o' ∷ b'k' ∷ []

text_clean : has_nul text ≡ false
unfolding has_nul
text_clean = refl

string-write_string_example :
    string little (write_string little (some text) ++ (8 ∷ [])) ≡ (ok (some text), 8 ∷ [])
string-write_string_example = string-write_string little text (8 ∷ []) text_clean (omega arith)

text_size : variable_size (length text) 1 ≡ ok 8
unfolding variable_size
text_size = refl
