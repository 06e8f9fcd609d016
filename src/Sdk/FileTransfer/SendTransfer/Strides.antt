-- ===== src/Sdk/FileTransfer/SendTransfer/Strides.antt =====
-- SendTransfer.ts, `_worker`: the sequence numbers that a loop `for (seq = index; ...; seq += stride)`
-- visits.
use rtcforge.Prelude.{
  ℕ, zero, suc, ◌+◌, ◌-◌, ◌≤◌, ◌<◌, ltb, ltb→lt, false, Bool-cases, inl, inr, ◌≡◌, refl, subst, sym,
  arith, number_key,
}

-- A worker that began at `index` stands at the number given: it is done with those it has passed.
pub data Behind (stride index : ℕ) (Done : ℕ → Type 0) : ℕ → Type 0 where
  begins : Behind stride index Done index
  steps :
      {seq : ℕ} → Behind stride index Done seq → Done seq → Behind stride index Done (seq + stride)

-- The worker from `index` visits the number.
pub data Visits (stride index : ℕ) : ℕ → Type 0 where
  first : Visits stride index index
  later : {seq : ℕ} → Visits stride index seq → Visits stride index (seq + stride)

pub passed_more :
    {stride index : ℕ} {Done Done' : ℕ → Type 0} {seq : ℕ}
    → ((n : ℕ) → Done n → Done' n)
    → Behind stride index Done seq
    → Behind stride index Done' seq
passed_more more begins = Behind.begins
passed_more more (steps b d) = Behind.steps (passed_more more b) (more _ d)

visits-le : {stride index seq : ℕ} → Visits stride index seq → index ≤ seq
visits-le first = omega arith
visits-le (later v) = omega (arith, visits-le v)

behind-Visits :
    {stride index : ℕ} {Done : ℕ → Type 0} {seq : ℕ}
    → Behind stride index Done seq
    → Visits stride index seq
behind-Visits begins = Visits.first
behind-Visits (steps b d) = Visits.later (behind-Visits b)

visits-eq :
    {stride index a b : ℕ}
    → Visits stride index a
    → Visits stride index b
    → b ≤ a
    → a < b + stride
    → a ≡ b
visits-eq first first le lt = refl
visits-eq first (later v) le lt = absurd (omega (arith, visits-le v, le, lt))
visits-eq (later u) first le lt = absurd (omega (arith, visits-le u, lt))
visits-eq (later u) (later v) le lt =
    omega (arith, visits-eq u v (omega (arith, le)) (omega (arith, lt)))

-- Every number that the worker visits is done, once the worker is past it.
pub visited-Done :
    {stride index seq : ℕ} {Done : ℕ → Type 0} {at : ℕ}
    → Behind stride index Done at
    → Visits stride index seq
    → seq < at
    → Done seq
visited-Done begins v lt = absurd (omega (arith, visits-le v, lt))
visited-Done {seq = seq} {Done} (steps {seq = q} b d) v lt = elim (Bool-cases (ltb seq q)) [
  | inl before ↦ visited-Done b v (ltb→lt seq q before)
  | inr after ↦ subst Done (sym (visits-eq v (behind-Visits b) (ground (arith, after)) lt)) d
]

-- Each number is visited by one of the workers.
pub visited :
    (fuel stride seq : ℕ)
    → 0 < stride
    → seq < fuel
    → (index : ℕ) × ((index < stride) × Visits stride index seq)
visited zero stride seq some' lt = absurd (omega (arith, lt))
visited (suc fuel) stride seq some' lt = elim (Bool-cases (ltb seq stride)) [
  | inl small ↦ (seq, (ltb→lt seq stride small, Visits.first))
  | inr large ↦
      let (index, (within, v)) =
        visited fuel stride (seq - stride) some' (ground (arith, large, lt, some')) in
      (index, (within, subst (Visits stride index) (back large) (Visits.later v)))
]
  where
    back : ltb seq stride ≡ false → (seq - stride) + stride ≡ seq
    back large = ground (arith, large)
