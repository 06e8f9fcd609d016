-- ===== src/Sdk/FileTransfer/MemorySink/Bytes.antt =====
-- Copying bytes into a buffer, as `TypedArray.set` does, and reading them back.
use rtcforge.Prelude.{
  ℕ, zero, suc, ◌+◌, ◌-◌, ◌≤◌, ◌<◌, List, [], ◌∷◌, ◌≡◌, refl, ap, ◌∙◌, ◌⊎◌, arith, length,
  get_elem?, take, drop,
}

-- Bytes that would fall behind the end of the buffer are dropped.
unfoldable pub put_bytes : ℕ → List ℕ → List ℕ → List ℕ
put_bytes offset bytes [] = []
put_bytes zero [] (x ∷ xs) = x ∷ xs
put_bytes zero (b ∷ bs) (x ∷ xs) = b ∷ put_bytes zero bs xs
put_bytes (suc n) bytes (x ∷ xs) = x ∷ put_bytes n bytes xs

pub length-put_bytes :
    (offset : ℕ) (bytes xs : List ℕ) → length (put_bytes offset bytes xs) ≡ length xs
unfolding put_bytes
length-put_bytes zero [] [] = refl
length-put_bytes zero (b ∷ bs) [] = refl
length-put_bytes (suc n) bytes [] = refl
length-put_bytes zero [] (x ∷ xs) = refl
length-put_bytes zero (b ∷ bs) (x ∷ xs) = ap suc (length-put_bytes zero bs xs)
length-put_bytes (suc n) bytes (x ∷ xs) = ap suc (length-put_bytes n bytes xs)

-- A byte inside the written range.
pub get_elem?-put_bytes_inside :
    (offset : ℕ) (bytes xs : List ℕ) (j : ℕ)
    → offset ≤ j
    → j < offset + length bytes
    → j < length xs
    → get_elem? (put_bytes offset bytes xs) j ≡ get_elem? bytes (j - offset)
unfolding put_bytes
get_elem?-put_bytes_inside offset bytes [] j h k l = absurd (omega arith)
get_elem?-put_bytes_inside zero [] (x ∷ xs) j h k l = absurd (omega arith)
get_elem?-put_bytes_inside zero (b ∷ bs) (x ∷ xs) zero h k l = refl
get_elem?-put_bytes_inside zero (b ∷ bs) (x ∷ xs) (suc j) h k l =
    get_elem?-put_bytes_inside zero bs xs j (omega arith) (omega arith) (omega arith)
    ∙ ap (get_elem? bs) (omega arith)
    ∙ (let e : suc j ≡ suc j - 0 = omega arith in ap (get_elem? (b ∷ bs)) e)
get_elem?-put_bytes_inside (suc n) bytes (x ∷ xs) zero h k l = absurd (omega arith)
get_elem?-put_bytes_inside (suc n) bytes (x ∷ xs) (suc j) h k l =
    get_elem?-put_bytes_inside n bytes xs j (omega arith) (omega arith) (omega arith)
    ∙ ap (get_elem? bytes) (omega arith)

-- A byte outside it.
pub get_elem?-put_bytes_outside :
    (offset : ℕ) (bytes xs : List ℕ) (j : ℕ)
    → (j < offset) ⊎ (offset + length bytes ≤ j)
    → get_elem? (put_bytes offset bytes xs) j ≡ get_elem? xs j
unfolding put_bytes
get_elem?-put_bytes_outside zero [] [] j h = refl
get_elem?-put_bytes_outside zero (b ∷ bs) [] j h = refl
get_elem?-put_bytes_outside (suc n) bytes [] j h = refl
get_elem?-put_bytes_outside zero [] (x ∷ xs) j h = refl
get_elem?-put_bytes_outside zero (b ∷ bs) (x ∷ xs) zero h = absurd (omega arith)
get_elem?-put_bytes_outside zero (b ∷ bs) (x ∷ xs) (suc j) h =
    get_elem?-put_bytes_outside zero bs xs j (omega arith)
get_elem?-put_bytes_outside (suc n) bytes (x ∷ xs) zero h = refl
get_elem?-put_bytes_outside (suc n) bytes (x ∷ xs) (suc j) h =
    get_elem?-put_bytes_outside n bytes xs j (omega arith)

-- A buffer is determined by what is read from it.
pub eq_of_get_elem? :
    (xs ys : List ℕ)
    → length xs ≡ length ys
    → ((j : ℕ) → j < length ys → get_elem? xs j ≡ get_elem? ys j)
    → xs ≡ ys
eq_of_get_elem? [] [] e h = refl
eq_of_get_elem? [] (y ∷ ys) e h = absurd (omega arith)
eq_of_get_elem? (x ∷ xs) [] e h = absurd (omega arith)
eq_of_get_elem? (x ∷ xs) (y ∷ ys) e h =
    let rest = eq_of_get_elem? xs ys (omega arith) (λ j l. h (suc j) (omega arith)) in
    ground (arith, h 0 (omega arith), rest)

-- A slice of a file reads as the file does.
pub get_elem?-take-drop :
    (n len : ℕ) (xs : List ℕ) (j : ℕ)
    → j < len
    → get_elem? (take len (drop n xs)) j ≡ get_elem? xs (n + j)
get_elem?-take-drop zero zero xs j h = absurd (omega arith)
get_elem?-take-drop zero (suc len) [] j h = refl
get_elem?-take-drop zero (suc len) (x ∷ xs) zero h = refl
get_elem?-take-drop zero (suc len) (x ∷ xs) (suc j) h =
    get_elem?-take-drop zero len xs j (omega arith)
    ∙ ap (get_elem? xs) (omega arith)
    ∙ (let e : suc j ≡ 0 + suc j = omega arith in ap (get_elem? (x ∷ xs)) e)
get_elem?-take-drop (suc n) zero xs j h = absurd (omega arith)
get_elem?-take-drop (suc n) (suc len) [] j h = refl
get_elem?-take-drop (suc n) (suc len) (x ∷ xs) j h =
    get_elem?-take-drop n (suc len) xs j h
    ∙ (let e : suc (n + j) ≡ suc n + j = omega arith in ap (get_elem? (x ∷ xs)) e)
