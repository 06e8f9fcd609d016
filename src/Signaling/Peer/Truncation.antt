-- ===== src/Signaling/Peer/Truncation.antt =====
-- `truncateUtf8` of packages/signaling/src/Peer.ts. A text is the list of its UTF-16 code units.
use mathlib.Core.List.{append-nil, append_assoc}
use rtcforge.Prelude.{
  ℕ, zero, suc, ◌+◌, ◌≤◌, Bool, true, false, ◌&&◌, List, [], ◌∷◌, ◌++◌, ◌≡◌, ◌≢◌, refl, sym, ap,
  ◌∙◌, inl, inr, arith, leb, ltb, if◌then◌else◌, length, Bool-cases, leb→le, le→leb,
}

abbrev pub is_high : ℕ → Bool
is_high u = leb 55296 u && leb u 56319

abbrev pub is_low : ℕ → Bool
is_low u = leb 56320 u && leb u 57343

-- The bytes of a code unit that is no half of a pair; a lone half is written as U+FFFD.
abbrev pub unit_bytes : ℕ → ℕ
unit_bytes u = if ltb u 128 then 1 else if ltb u 2048 then 2 else 3

-- `Buffer.byteLength(s, 'utf8')`
unfoldable pub byte_length : List ℕ → ℕ
byte_length [] = 0
byte_length (u ∷ []) = unit_bytes u
byte_length (u ∷ v ∷ rest) =
    let pair = 4 + byte_length rest in
    let single = unit_bytes u + byte_length (v ∷ rest) in
    if is_high u && is_low v then pair else single

-- `out.slice(0, -1)`
unfoldable pub drop_last : List ℕ → List ℕ
drop_last [] = []
drop_last (u ∷ []) = []
drop_last (u ∷ v ∷ rest) = u ∷ drop_last (v ∷ rest)

-- The loop: `fuel` is the length of the text, and a text of no units fits.
unfoldable pub shrink : ℕ → ℕ → List ℕ → List ℕ
unfolding byte_length drop_last
shrink zero max_bytes out = out
shrink (suc fuel) max_bytes out =
    let shorter = shrink fuel max_bytes (drop_last out) in
    if ltb max_bytes (byte_length out) then shorter else out

-- Without a high surrogate at the end.
unfoldable pub drop_high : List ℕ → List ℕ
drop_high [] = []
drop_high (u ∷ []) = if is_high u then [] else u ∷ []
drop_high (u ∷ v ∷ rest) = u ∷ drop_high (v ∷ rest)

unfoldable pub truncate_utf8 : ℕ → List ℕ → List ℕ
unfolding shrink drop_high byte_length
truncate_utf8 max_bytes s =
    let shortened = drop_high (shrink (length s) max_bytes s) in
    if leb (byte_length s) max_bytes then s else shortened

-- `xs` is where `ys` begins.
abbrev pub Begins : List ℕ → List ℕ → Type 0
Begins xs ys = (rest : List ℕ) × (xs ++ rest ≡ ys)

Begins-refl : (xs : List ℕ) → Begins xs xs
Begins-refl xs = ([], append-nil xs)

Begins-trans : (xs ys zs : List ℕ) → Begins xs ys → Begins ys zs → Begins xs zs
Begins-trans xs ys zs (r, e) (t, f) = (r ++ t, sym (append_assoc xs r t) ∙ ap (λ l. l ++ t) e ∙ f)

Begins-cons : (u : ℕ) (xs ys : List ℕ) → Begins xs ys → Begins (u ∷ xs) (u ∷ ys)
Begins-cons u xs ys (r, e) = (r, ap (◌∷◌ u) e)

drop_last-Begins : (s : List ℕ) → Begins (drop_last s) s
unfolding drop_last
drop_last-Begins [] = ([], refl)
drop_last-Begins (u ∷ []) = (u ∷ [], refl)
drop_last-Begins (u ∷ v ∷ rest) =
    Begins-cons u (drop_last (v ∷ rest)) (v ∷ rest) (drop_last-Begins (v ∷ rest))

drop_high-Begins : (s : List ℕ) → Begins (drop_high s) s
unfolding drop_high
drop_high-Begins [] = ([], refl)
drop_high-Begins (u ∷ []) = elim (Bool-cases (is_high u)) [
  | inl high ↦ rw high (u ∷ [], refl)
  | inr other ↦ rw other ([], refl)
]
drop_high-Begins (u ∷ v ∷ rest) =
    Begins-cons u (drop_high (v ∷ rest)) (v ∷ rest) (drop_high-Begins (v ∷ rest))

shrink-Begins : (fuel max_bytes : ℕ) (s : List ℕ) → Begins (shrink fuel max_bytes s) s
unfolding shrink
shrink-Begins zero max_bytes s = Begins-refl s
shrink-Begins (suc fuel) max_bytes s = elim (Bool-cases (ltb max_bytes (byte_length s))) [
  | inl long ↦ rw long (
      Begins-trans (shrink fuel max_bytes (drop_last s)) (drop_last s) s
        (shrink-Begins fuel max_bytes (drop_last s)) (drop_last-Begins s))
  | inr fits ↦ rw fits (Begins-refl s)
]

byte_length-drop_high-le : (s : List ℕ) → byte_length (drop_high s) ≤ byte_length s
unfolding byte_length drop_high
byte_length-drop_high-le [] = omega arith
byte_length-drop_high-le (u ∷ []) = ground arith
byte_length-drop_high-le (u ∷ v ∷ []) = ground arith
byte_length-drop_high-le (u ∷ v ∷ w ∷ rest) =
    let pair = byte_length-drop_high-le (w ∷ rest) in
    let single = byte_length-drop_high-le (v ∷ w ∷ rest) in
    elim (Bool-cases (is_high u && is_low v)) [
      | inl yes' ↦ rw yes' (omega (arith, pair))
      | inr no' ↦ rw no' (omega (arith, single))
    ]

length-drop_last : (u : ℕ) (s : List ℕ) → length (drop_last (u ∷ s)) ≡ length s
unfolding drop_last
length-drop_last u [] = refl
length-drop_last u (v ∷ s) = ap suc (length-drop_last v s)

-- The loop ends by its test: a text of `fuel` units is shrunk until it fits.
shrink-fits :
    (fuel max_bytes : ℕ) (s : List ℕ)
    → length s ≤ fuel
    → byte_length (shrink fuel max_bytes s) ≤ max_bytes
unfolding shrink byte_length
shrink-fits zero max_bytes [] h = omega arith
shrink-fits zero max_bytes (u ∷ s) h = absurd (omega arith)
shrink-fits (suc fuel) max_bytes [] h = ground arith
shrink-fits (suc fuel) max_bytes (u ∷ s) h =
    let shorter =
      shrink-fits fuel max_bytes (drop_last (u ∷ s)) (omega (arith, length-drop_last u s)) in
    elim (Bool-cases (ltb max_bytes (byte_length (u ∷ s)))) [
      | inl long ↦ rw long shorter
      | inr fits ↦ rw fits (ground arith)
    ]

false≢true : false ≢ true
false≢true e = cc

-- A close reason that was truncated fits the limit and is the beginning of the reason; one that fits is
-- left as it is.
pub truncate_utf8_fits :
    (max_bytes : ℕ) (s : List ℕ)
    → (byte_length (truncate_utf8 max_bytes s) ≤ max_bytes)
      × Begins (truncate_utf8 max_bytes s) s
      × (byte_length s ≤ max_bytes → truncate_utf8 max_bytes s ≡ s)
unfolding truncate_utf8
truncate_utf8_fits max_bytes s =
    let shrunk = shrink (length s) max_bytes s in
    let short = shrink-fits (length s) max_bytes s (omega arith) in
    let less = byte_length-drop_high-le shrunk in
    let begins =
      Begins-trans (drop_high shrunk) shrunk s (drop_high-Begins shrunk)
        (shrink-Begins (length s) max_bytes s) in
    elim (Bool-cases (leb (byte_length s) max_bytes)) [
      | inl fits ↦ rw fits (leb→le (byte_length s) max_bytes fits, Begins-refl s, λ h. refl)
      | inr long ↦ rw long (
        omega arith,
        begins,
        λ h. absurd (false≢true (sym long ∙ le→leb (byte_length s) max_bytes h)),
      )
    ]
