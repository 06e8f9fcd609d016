-- ===== src/Core/HashRing/Cyrb53.antt =====
-- HashRing.ts: the 53-bit hash, on unsigned 32-bit values.
use native.Mathlib.Nat.{pow-suc}
use rtcforge.Prelude.{
  ℕ, zero, suc, ◌+◌, ◌*◌, ◌/◌, ◌%◌, ◌^◌, ◌<◌, Bool, true, false, ◌&&◌, List, [], ◌∷◌, ◌≡◌, ◌↔◌,
  arith, Key, ◌===◌, number_key, eq_of_same, same_of_eq,
}

-- `^` on values of `bits` bits.
unfoldable pub xor : ℕ → ℕ → ℕ → ℕ
xor zero a b = 0
xor (suc bits) a b = (a + b) % 2 + 2 * xor bits (a / 2) (b / 2)

abbrev pub word : ℕ
word = 4294967296

-- `Math.imul`
abbrev pub imul : ℕ → ℕ → ℕ
imul a b = a * b % word

-- The loop over the code units.
unfoldable pub absorb_units : List ℕ → ℕ → ℕ → ℕ × ℕ
unfolding xor
absorb_units [] h1 h2 = (h1, h2)
absorb_units (ch ∷ units) h1 h2 =
    absorb_units units (imul (xor 32 h1 ch) 2654435761) (imul (xor 32 h2 ch) 1597334677)

-- `cyrb53` with the seed 0.
unfoldable pub cyrb53 : List ℕ → ℕ
unfolding absorb_units
cyrb53 units =
    let (a, b) = absorb_units units 3735928559 1103547991 in
    let h1 = imul (xor 32 a (a / 65536)) 2246822507 in
    let h1' = xor 32 h1 (imul (xor 32 b (b / 8192)) 3266489909) in
    let h2 = imul (xor 32 b (b / 65536)) 2246822507 in
    let h2' = xor 32 h2 (imul (xor 32 h1' (h1' / 8192)) 3266489909) in word * (h2' % 2097152) + h1'

-- Texts are compared unit by unit.
unfoldable pub same_units : List ℕ → List ℕ → Bool
same_units [] [] = true
same_units (a ∷ as') (b ∷ bs) = a === b && same_units as' bs
same_units _ _ = false

pub same_units_iff : (a b : List ℕ) → (same_units a b ≡ true) ↔ (a ≡ b)
unfolding same_units
same_units_iff [] [] = ground arith
same_units_iff [] (b ∷ bs) = ground arith
same_units_iff (a ∷ as') [] = ground arith
same_units_iff (a ∷ as') (b ∷ bs) =
    ground (arith, same_units_iff as' bs, eq_of_same a b, same_of_eq a b)

instance abbrev pub units_key : Key (List ℕ)
units_key = record { same = same_units; same_iff = same_units_iff }

xor-lt : (bits a b : ℕ) → xor bits a b < 2 ^ bits
unfolding xor
xor-lt zero a b = omega arith
xor-lt (suc bits) a b =
    let ih = xor-lt bits (a / 2) (b / 2) in
    let low : (a + b) % 2 < 2 = omega arith in omega (arith, pow-suc 2 bits)

low_word : (a b : ℕ) → xor 32 a b < 4294967296
low_word a b = xor-lt 32 a b

joined : (h l : ℕ) → l < 4294967296 → word * (h % 2097152) + l < 9007199254740992
joined h l low = omega arith

-- The hash is a number of 53 bits: every value of it is a floating-point number without rounding.
pub cyrb53-lt : (units : List ℕ) → cyrb53 units < 2 ^ 53
unfolding cyrb53
cyrb53-lt units = joined _ _ (low_word _ _)
