-- ===== src/Models/Hex.antt =====
-- `bytes.hex`, as planrace/taskgen_v2.py and planrace/auth_v2.py use it.
use Prim.Native.String.{◌++◌ as concat}
use planrace_subnet.Prelude.{ℕ, ◌/◌, ◌%◌, String, List, [], ◌∷◌, get_or}

abbrev pub hex_digits : List String
hex_digits =
    "0" ∷ "1" ∷ "2" ∷ "3" ∷ "4" ∷ "5" ∷ "6" ∷ "7" ∷ "8" ∷ "9" ∷ "a" ∷ "b" ∷ "c" ∷ "d" ∷ "e" ∷ "f"
    ∷ []

-- `bytes.hex`
unfoldable pub to_hex : List ℕ → String
to_hex [] = ""
to_hex (b ∷ bs) =
    concat (get_or hex_digits (b / 16) "") (concat (get_or hex_digits (b % 16) "") (to_hex bs))
