-- ===== src/Sdk/FileTransfer/Sanitize.antt =====
-- packages/sdk/src/filetransfer/sanitize.ts: a remote file name reduced to a base name. A name is the
-- list of its UTF-16 code units.
pub mod Safety
use rtcforge.Prelude.{
  ℕ, zero, suc, ◌+◌, ◌≤◌, ◌<◌, Bool, true, false, not, ◌&&◌, ◌||◌, List, [], ◌∷◌, ◌++◌, ◌≡◌, refl,
  arith, ltb, leb, ◌==◌, if◌then◌else◌, length, take, filter_by, All, All-filter_by, Bool-cases,
  inl, inr, min, length-take, replicate,
}

abbrev pub is_separator : ℕ → Bool
is_separator c = c == b'/' || c == 92

-- The class `UNSAFE`: control characters and `< > : " | ? *`.
abbrev pub is_unsafe : ℕ → Bool
is_unsafe c =
    leb c 31 || (c == 60 || c == 62 || c == 58 || c == 34 || c == 124 || c == 63 || c == 42)

-- What `trim` removes: white space and line terminators.
abbrev pub is_space : ℕ → Bool
is_space c =
    (leb 9 c && leb c 13)
    || (c == 32 || c == 160 || c == 5760 || leb 8192 c && leb c 8202 || c == 8232 || c == 8233)
    || (c == 8239 || c == 8287 || c == 12288 || c == 65279)

-- `name.split(/[/\\]/).pop()`: what follows the last separator.
unfoldable pub last_segment : List ℕ → List ℕ → List ℕ
last_segment segment [] = segment
last_segment segment (c ∷ cs) = last_segment (if is_separator c then [] else segment ++ (c ∷ [])) cs

-- `replace(/^\.+/, '')` and the left half of `trim`.
unfoldable pub drop_while : (ℕ → Bool) → List ℕ → List ℕ
drop_while test [] = []
drop_while test (c ∷ cs) = if test c then drop_while test cs else c ∷ cs

-- The right half of `trim`: a character that the test holds of goes if nothing is left behind it.
unfoldable pub cons_trimmed : (ℕ → Bool) → ℕ → List ℕ → List ℕ
cons_trimmed test c [] = if test c then [] else c ∷ []
cons_trimmed test c (r ∷ rs) = c ∷ r ∷ rs

unfoldable pub drop_while_end : (ℕ → Bool) → List ℕ → List ℕ
unfolding cons_trimmed
drop_while_end test [] = []
drop_while_end test (c ∷ cs) = cons_trimmed test c (drop_while_end test cs)

unfoldable pub trim : List ℕ → List ℕ
unfolding drop_while drop_while_end
trim cs = drop_while_end is_space (drop_while is_space cs)

-- "download"
abbrev pub fallback : List ℕ
fallback = b'd' ∷ b'o' ∷ b'w' ∷ b'n' ∷ b'l' ∷ b'o' ∷ b'a' ∷ b'd' ∷ []

-- `base.replace(UNSAFE, '').replace(/^\.+/, '').trim()`
unfoldable pub clean : List ℕ → List ℕ
unfolding drop_while trim
clean base = trim (drop_while (λ c. c == b'.') (filter_by (λ c. not (is_unsafe c)) base))

unfoldable pub sanitize_file_name : List ℕ → List ℕ
unfolding last_segment clean
sanitize_file_name name =
    let cleaned = clean (last_segment [] name) in
    if ltb 0 (length cleaned) then take 255 cleaned else fallback

-- A character that may stand in a safe name.
abbrev pub IsSafe : ℕ → Type 0
IsSafe c = (is_separator c ≡ false) × (is_unsafe c ≡ false)
