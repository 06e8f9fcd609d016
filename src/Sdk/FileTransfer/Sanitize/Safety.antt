-- ===== src/Sdk/FileTransfer/Sanitize/Safety.antt =====
-- What a sanitized file name can hold, and what it can still begin with.
use mathlib.Core.List.{append_assoc}
use rtcforge.Prelude.{
  ℕ, zero, suc, ◌≤◌, ◌<◌, Bool, false, not, List, [], ◌∷◌, ◌++◌, ◌≡◌, refl, ap, ◌∙◌, arith, ltb,
  lt→ltb, ◌==◌, if◌then◌else◌, length, take, filter_by, All, All-append, Bool-cases, inl, inr,
  length-take, replicate,
}
use rtcforge.Sdk.FileTransfer.Sanitize.{
  is_separator, is_unsafe, is_space, last_segment, drop_while, cons_trimmed, drop_while_end, trim,
  clean, fallback, sanitize_file_name, IsSafe,
}

abbrev NoSeparator : ℕ → Type 0
NoSeparator c = is_separator c ≡ false

last_segment-NoSeparator :
    (segment cs : List ℕ) → All NoSeparator segment → All NoSeparator (last_segment segment cs)
unfolding last_segment
last_segment-NoSeparator segment [] h = h
last_segment-NoSeparator segment (c ∷ cs) h = elim (Bool-cases (is_separator c)) [
  | inl e ↦ rw e (last_segment-NoSeparator [] cs tt)
  | inr e ↦ rw e (
      last_segment-NoSeparator (segment ++ (c ∷ [])) cs
        (All-append NoSeparator segment (c ∷ []) h (e, tt)))
]

filter_by-IsSafe :
    (cs : List ℕ) → All NoSeparator cs → All IsSafe (filter_by (λ c. not (is_unsafe c)) cs)
filter_by-IsSafe [] h = tt
filter_by-IsSafe (c ∷ cs) h = elim (Bool-cases (is_unsafe c)) [
  | inl e ↦ rw e (filter_by-IsSafe cs h.1)
  | inr e ↦ rw e ((h.0, e), filter_by-IsSafe cs h.1)
]

module _ (P : ℕ → Type 0) (test : ℕ → Bool) where
  drop_while-All : (cs : List ℕ) → All P cs → All P (drop_while test cs)
  unfolding drop_while
  drop_while-All [] h = tt
  drop_while-All (c ∷ cs) h = elim (Bool-cases (test c)) [
    | inl e ↦ rw e (drop_while-All cs h.1)
    | inr e ↦ rw e h
  ]

  cons_trimmed-All : (c : ℕ) (cs : List ℕ) → P c → All P cs → All P (cons_trimmed test c cs)
  unfolding cons_trimmed
  cons_trimmed-All c [] p h = elim (Bool-cases (test c)) [ inl e ↦ rw e tt | inr e ↦ rw e (p, tt) ]
  cons_trimmed-All c (r ∷ rs) p h = (p, h)

  drop_while_end-All : (cs : List ℕ) → All P cs → All P (drop_while_end test cs)
  unfolding drop_while_end
  drop_while_end-All [] h = tt
  drop_while_end-All (c ∷ cs) h = cons_trimmed-All c _ h.0 (drop_while_end-All cs h.1)

take-All : (P : ℕ → Type 0) (n : ℕ) (cs : List ℕ) → All P cs → All P (take n cs)
take-All P zero cs h = tt
take-All P (suc n) [] h = tt
take-All P (suc n) (c ∷ cs) h = (h.0, take-All P n cs h.1)

clean-IsSafe : (base : List ℕ) → All NoSeparator base → All IsSafe (clean base)
unfolding clean trim
clean-IsSafe base h = drop_while_end-All IsSafe is_space _ (
    drop_while-All IsSafe is_space _
      (drop_while-All IsSafe (λ c. c == b'.') _ (filter_by-IsSafe base h)))

or_fallback-IsSafe :
    (cs : List ℕ)
    → All IsSafe cs
    → let out = if ltb 0 (length cs) then take 255 cs else fallback in
      All IsSafe out × (0 < length out) × (length out ≤ 255)
or_fallback-IsSafe [] h =
    let ok : (false ≡ false) × (false ≡ false) = (refl, refl) in
    ((ok, (ok, (ok, (ok, (ok, (ok, (ok, (ok, tt)))))))), omega arith, omega arith)
or_fallback-IsSafe (c ∷ cs) h =
    rw (lt→ltb 0 (length (c ∷ cs)) (omega arith))
      (take-All IsSafe 255 (c ∷ cs) h, omega arith, omega (arith, length-take 255 (c ∷ cs)))

-- Whatever the name, the result is not empty, has at most 255 characters, and none of them is a path
-- separator, a control character or one of the reserved characters.
pub sanitize_file_name-IsSafe :
    (name : List ℕ)
    → All IsSafe (sanitize_file_name name)
      × (0 < length (sanitize_file_name name))
      × (length (sanitize_file_name name) ≤ 255)
unfolding sanitize_file_name
sanitize_file_name-IsSafe name =
    or_fallback-IsSafe _ (clean-IsSafe _ (last_segment-NoSeparator [] name tt))

abbrev padded : ℕ → List ℕ
padded n = replicate n 32 ++ (b'.' ∷ b'.' ∷ [])

last_segment-padded :
    (n : ℕ) (segment : List ℕ) → last_segment segment (padded n) ≡ segment ++ padded n
unfolding last_segment
last_segment-padded zero segment = append_assoc segment (b'.' ∷ []) (b'.' ∷ [])
last_segment-padded (suc n) segment =
    last_segment-padded n (segment ++ (32 ∷ [])) ∙ append_assoc segment (32 ∷ []) (padded n)

filter_padded : (n : ℕ) → filter_by (λ c. not (is_unsafe c)) (padded n) ≡ padded n
filter_padded zero = refl
filter_padded (suc n) = ap (◌∷◌ 32) (filter_padded n)

drop_padded : (n : ℕ) → drop_while is_space (padded n) ≡ b'.' ∷ b'.' ∷ []
unfolding drop_while
drop_padded zero = refl
drop_padded (suc n) = drop_padded n

clean-padded : (n : ℕ) → clean (padded (suc n)) ≡ b'.' ∷ b'.' ∷ []
unfolding clean drop_while_end
clean-padded n =
    ap (λ cs. trim (drop_while (λ c. c == b'.') cs)) (filter_padded (suc n))
    ∙ ap (drop_while_end is_space) (drop_padded (suc n))

-- A name that is one or more blanks and two dots comes out as the two dots, the parent directory: the
-- leading dots are stripped before the blanks are.
pub sanitize_file_name_parent :
    (n : ℕ) → sanitize_file_name (replicate (suc n) 32 ++ (b'.' ∷ b'.' ∷ [])) ≡ b'.' ∷ b'.' ∷ []
unfolding sanitize_file_name
sanitize_file_name_parent n = rw (ap clean (last_segment-padded (suc n) []), clean-padded n)
