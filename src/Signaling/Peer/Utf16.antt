-- ===== src/Signaling/Peer/Utf16.antt =====
-- The UTF-16 code units of a text.
use Prim.Native.Char.{code}
use Prim.Native.String.{[] as end, ◌∷◌ as ◌then_text◌}
use rtcforge.Prelude.{ℕ, ◌+◌, ◌-◌, ◌/◌, ◌%◌, List, [], ◌∷◌, ◌++◌, String, ltb, if◌then◌else◌}

-- Those of the character with the code point `c`.
unfoldable pub units_of : ℕ → List ℕ
units_of c =
    if ltb c 65536 then c ∷ [] else (55296 + (c - 65536) / 1024) ∷ (56320 + (c - 65536) % 1024) ∷ []

unfoldable pub utf16 : String → List ℕ
unfolding units_of
utf16 end = []
utf16 (c then_text s) = units_of (code c) ++ utf16 s
