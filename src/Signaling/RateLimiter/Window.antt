-- ===== src/Signaling/RateLimiter/Window.antt =====
-- The rolling window holds over any run of the rate limiter.
use mathlib.Core.List.{append_assoc}
use rtcforge.Prelude.{
  ℕ, zero, suc, ◌+◌, ◌≤◌, ◌<◌, false, List, [], ◌∷◌, ◌++◌, some, ◌≡◌, refl, sym, ap, ◌∙◌, inl, inr,
  arith, leb, if◌then◌else◌, length, length-append, get_elem?, All, All-append, Bool-cases, leb→le,
  ◌⊎◌,
}
use rtcforge.Signaling.RateLimiter.{RateLimiter, drop_expired, allow, allow_all}

-- Two allowed events that are `most` apart in the log are a window apart in time: no window holds more
-- than `most`.
abbrev pub IsSpaced : ℕ → ℕ → List ℕ → Type 0
IsSpaced most window log =
    (i a b : ℕ) → get_elem? log i ≡ some a → get_elem? log (i + most) ≡ some b → a + window ≤ b

-- The calls come in the order of time, none before `since`.
abbrev pub IsOrdered : ℕ → List ℕ → Type 0
IsOrdered since [] = Unit
IsOrdered since (now ∷ times) = (since ≤ now) × IsOrdered now times

abbrev Expired : ℕ → ℕ → ℕ → Type 0
Expired window now hit = hit + window ≤ now

expired : ℕ → ℕ → List ℕ → List ℕ
expired window now [] = []
expired window now (hit ∷ hits) =
    if leb (hit + window) now then hit ∷ expired window now hits else []

expired-append :
    (window now : ℕ) (hits : List ℕ)
    → expired window now hits ++ drop_expired window now hits ≡ hits
unfolding expired drop_expired
expired-append window now [] = refl
expired-append window now (hit ∷ hits) = elim (Bool-cases (leb (hit + window) now)) [
  | inl e ↦ rw e (ap (◌∷◌ hit) (expired-append window now hits))
  | inr e ↦ rw e
]

expired-All : (window now : ℕ) (hits : List ℕ) → All (Expired window now) (expired window now hits)
unfolding expired
expired-All window now [] = tt
expired-All window now (hit ∷ hits) = elim (Bool-cases (leb (hit + window) now)) [
  | inl e ↦ rw e (leb→le _ _ e, expired-All window now hits)
  | inr e ↦ rw e tt
]

later :
    (window now now' : ℕ) (hits : List ℕ)
    → now ≤ now'
    → All (Expired window now) hits
    → All (Expired window now') hits
later window now now' [] h k = tt
later window now now' (hit ∷ hits) h k = (omega arith, later window now now' hits h k.1)

All-get_elem? :
    (window now i a : ℕ) (xs ys : List ℕ)
    → All (Expired window now) xs
    → i < length xs
    → get_elem? (xs ++ ys) i ≡ some a
    → a + window ≤ now
All-get_elem? window now i a [] ys h l e = absurd (omega arith)
All-get_elem? window now zero a (x ∷ xs) ys h l e = ground arith
All-get_elem? window now (suc i) a (x ∷ xs) ys h l e =
    All-get_elem? window now i a xs ys h.1 (omega arith) e

-- Reading the log with one more entry.
get_elem?-snoc :
    (xs : List ℕ) (x i b : ℕ)
    → get_elem? (xs ++ (x ∷ [])) i ≡ some b
    → ((get_elem? xs i ≡ some b) × (i < length xs)) ⊎ ((i ≡ length xs) × (b ≡ x))
get_elem?-snoc [] x zero b e = inr (refl, ground arith)
get_elem?-snoc [] x (suc i) b e = absurd (ground arith)
get_elem?-snoc (y ∷ ys) x zero b e = inl (e, omega arith)
get_elem?-snoc (y ∷ ys) x (suc i) b e = elim (get_elem?-snoc ys x i b e) [
  | inl (old, l) ↦ inl (old, omega arith)
  | inr (last, same) ↦ inr (omega arith, same)
]

-- The log is what has expired and then the hits that are kept.
record Inv (l : RateLimiter) (log : List ℕ) (now : ℕ) : Type 0 where
  gone : List ℕ
  whole : log ≡ gone ++ l.hits
  expired_gone : All (Expired l.window_ms now) gone
  spaced : IsSpaced l.max_per_window l.window_ms log

IsSpaced-snoc :
    (most window now : ℕ) (gone live : List ℕ)
    → All (Expired window now) gone
    → length live < most
    → IsSpaced most window (gone ++ live)
    → IsSpaced most window ((gone ++ live) ++ (now ∷ []))
IsSpaced-snoc most window now gone live h room s i a b ea eb =
    elim (get_elem?-snoc (gone ++ live) now (i + most) b eb) [
      | inl (old, l) ↦ elim (get_elem?-snoc (gone ++ live) now i a ea) [
        | inl (old', l') ↦ s i a b old' old
        | inr (last, same) ↦ absurd (omega arith)
      ]
      | inr (last, same) ↦ elim (get_elem?-snoc (gone ++ live) now i a ea) [
        | inl (old', l') ↦
            rw same (
              All-get_elem? window now i a gone live h (omega (arith, length-append gone live))
                old')
        | inr (last', same') ↦ absurd (omega arith)
      ]
    ]

allow-Inv :
    (l : RateLimiter) (log : List ℕ) (since now : ℕ)
    → since ≤ now
    → Inv l log since
    → Inv (allow now l).0 (if (allow now l).1 then log ++ (now ∷ []) else log) now
unfolding allow
allow-Inv l log since now h v =
    let live = drop_expired l.window_ms now l.hits in
    let gone = v.gone ++ expired l.window_ms now l.hits in
    let all_gone =
      All-append (Expired l.window_ms now) v.gone (expired l.window_ms now l.hits)
        (later l.window_ms since now v.gone h v.expired_gone)
        (expired-All l.window_ms now l.hits) in
    let split : log ≡ gone ++ live =
      v.whole
      ∙ ap (◌++◌ v.gone) (sym (expired-append l.window_ms now l.hits))
      ∙ sym (append_assoc v.gone (expired l.window_ms now l.hits) live) in
    elim (Bool-cases (leb l.max_per_window (length live))) [
      | inl full ↦
          rw full
            (record { gone = gone; whole = split; expired_gone = all_gone; spaced = v.spaced })
      | inr room ↦ rw room (record {
        gone = gone;
        whole = ap (λ xs. xs ++ (now ∷ [])) split ∙ append_assoc gone live (now ∷ []);
        expired_gone = all_gone;
        spaced = rw split (
            IsSpaced-snoc l.max_per_window l.window_ms now gone live all_gone (ground arith)
              (rw (sym split) (v.spaced)));
      })
    ]

allow_keeps :
    (now : ℕ) (l : RateLimiter)
    → ((allow now l).0.max_per_window ≡ l.max_per_window)
      × ((allow now l).0.window_ms ≡ l.window_ms)
unfolding allow
allow_keeps now l = ground arith

allow_all-IsSpaced :
    (most window : ℕ) (times : List ℕ) (l : RateLimiter) (log : List ℕ) (since : ℕ)
    → l.max_per_window ≡ most
    → l.window_ms ≡ window
    → IsOrdered since times
    → Inv l log since
    → IsSpaced most window (allow_all times l log).1
unfolding allow_all
allow_all-IsSpaced most window [] l log since em ew o v = rw (← em, ← ew) v.spaced
allow_all-IsSpaced most window (now ∷ times) l log since em ew o v =
    let (same_most, same_window) = allow_keeps now l in
    allow_all-IsSpaced most window times (allow now l).0 _ now (same_most ∙ em) (same_window ∙ ew)
      o.1 (allow-Inv l log since now o.0 v)

-- In any run of calls in the order of time that starts with no hits, no rolling window of `window_ms`
-- holds more than `max_per_window` allowed events.
pub allow_all_window :
    (most window : ℕ) (times : List ℕ)
    → IsOrdered 0 times
    → IsSpaced most window
        (allow_all times (record { hits = []; max_per_window = most; window_ms = window }) []).1
allow_all_window most window times o =
    allow_all-IsSpaced most window times _ [] 0 refl refl o
      (record { gone = []; whole = refl; expired_gone = tt; spaced = λ i a b e. absurd (cc) })

-- An event is refused only if `max_per_window` hits are still in the window.
pub allow_refused :
    (now : ℕ) (l : RateLimiter)
    → (allow now l).1 ≡ false
    → (l.max_per_window ≤ length (allow now l).0.hits)
      × ((allow now l).0.hits ≡ drop_expired l.window_ms now l.hits)
unfolding allow
allow_refused now l h = ground arith
