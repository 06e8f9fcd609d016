-- ===== src/Sdk/FileTransfer/SendTransfer/Covered.antt =====
-- The workers of a run, and the chunks that each has already handed to its channel or may skip.
use rtcforge.Prelude.{
  ℕ, zero, suc, ◌+◌, ◌≤◌, ◌<◌, ◌==◌, ==_iff, true, false, Bool-cases, List, [], ◌∷◌, Option, none,
  some, inl, inr, ◌≡◌, refl, sym, ap, subst, ◌∙◌, arith, if_lem, get_elem?, number_key,
}
use rtcforge.Sdk.FileTransfer.Framing.{encode_frame}
use rtcforge.Sdk.FileTransfer.SendTransfer.Defs.{
  DataChannel, Phase, opening, parked, passing, reading, digesting, draining, finished, broken,
  Worker, release, release_all, new_workers,
}
use rtcforge.Sdk.FileTransfer.SendTransfer.Workers.{replace_worker, all_finished}
use rtcforge.Sdk.FileTransfer.SendTransfer.Strides.{Behind, passed_more}

-- What the transport keeps of the frames that it took: `Carried seq c` where the channel c took a
-- frame of the chunk. It forgets none of them.
pub record Ledger {C : Type 0} (dc : DataChannel C) (Later : C → C → Type 0) : Type 1 where
  pub Carried : ℕ → C → Type 0
  pub takes :
      (seq : ℕ) (bytes : List ℕ) (c : C)
      → dc.is_open c ≡ true
      → (dc.send_bytes (encode_frame seq bytes) c).1 ≡ false
      → Carried seq (dc.send_bytes (encode_frame seq bytes) c).0
  pub keeps :
      (seq : ℕ) (bytes : List ℕ) (c : C) → Carried seq c → Carried seq (dc.send_bytes bytes c).0
  pub lasts : (seq : ℕ) (c d : C) → Later c d → Carried seq c → Carried seq d

-- A worker stands where all that it has passed is done.
pub record IsOnCourse (stride total : ℕ) (Done : ℕ → Type 0) (index : ℕ) (w : Worker) : Type 0 where
  pub own : w.index ≡ index
  pub behind : Behind stride index Done w.seq
  pub ended : w.phase ≡ finished → total ≤ w.seq

-- The workers stand in the order of their indices, one for each channel.
pub data Manned (stride total : ℕ) (Done : ℕ → Type 0) : ℕ → List Worker → Type 0 where
  none_left : Manned stride total Done stride []
  manned :
      {index : ℕ} {w : Worker} {ws : List Worker}
      → IsOnCourse stride total Done index w
      → Manned stride total Done (suc index) ws
      → Manned stride total Done index (w ∷ ws)

abbrev worker_or : Worker → Option Worker → Worker
worker_or v none = v
worker_or v (some w) = w

first-finished : (w : Worker) (ws : List Worker) → all_finished (w ∷ ws) ≡ true → w.phase ≡ finished
unfolding all_finished
first-finished w ws h = ground (arith, h)

later-finished :
    (w : Worker) (ws : List Worker) → all_finished (w ∷ ws) ≡ true → all_finished ws ≡ true
unfolding all_finished
later-finished w ws h = ground (arith, h)

module _ {stride total : ℕ} where
  pub crew_with_more :
      {Done Done' : ℕ → Type 0} {index : ℕ} {ws : List Worker}
      → ((n : ℕ) → Done n → Done' n)
      → Manned stride total Done index ws
      → Manned stride total Done' index ws
  crew_with_more more none_left = Manned.none_left
  crew_with_more more (manned h m) =
      Manned.manned (record { own = h.own; behind = passed_more more h.behind; ended = h.ended })
        (crew_with_more more m)

  module _ {Done : ℕ → Type 0} where
    new_workers-Manned :
        (n index : ℕ) → index + n ≡ stride → Manned stride total Done index (new_workers index n)
    unfolding new_workers
    new_workers-Manned zero index e =
        subst (λ k. Manned stride total Done k []) (sym (omega (arith, e))) Manned.none_left
    new_workers-Manned (suc n) index e =
        Manned.manned
          (record {
            own = refl;
            behind = Behind.begins;
            ended = λ no'. absurd (ground (arith, no'));
          })
          (new_workers-Manned n (suc index) (omega (arith, e)))

    pub all-Manned : (n : ℕ) → n ≡ stride → Manned stride total Done 0 (new_workers 0 n)
    all-Manned n e = new_workers-Manned n 0 (omega (arith, e))

    release-IsOnCourse :
        (index i seq : ℕ) (p : Phase)
        → IsOnCourse stride total Done index (record { index = i; seq = seq; phase = p })
        → IsOnCourse stride total Done index (release (record { index = i; seq = seq; phase = p }))
    release-IsOnCourse index i seq opening h = h
    release-IsOnCourse index i seq parked h = record {
      own = h.own;
      behind = h.behind;
      ended = λ never. absurd (ground (arith, never));
    }
    release-IsOnCourse index i seq passing h = h
    release-IsOnCourse index i seq reading h = h
    release-IsOnCourse index i seq (digesting bytes) h = h
    release-IsOnCourse index i seq (draining bytes) h = h
    release-IsOnCourse index i seq finished h = h
    release-IsOnCourse index i seq broken h = h

    pub crew_released :
        {index : ℕ} {ws : List Worker}
        → Manned stride total Done index ws
        → Manned stride total Done index (release_all ws)
    unfolding release_all
    crew_released none_left = Manned.none_left
    crew_released (manned {index = index} {w = w} h m) =
        Manned.manned (release-IsOnCourse index w.index w.seq w.phase h) (crew_released m)

    pub crew_replaced :
        {index : ℕ} {ws : List Worker} (w : Worker)
        → IsOnCourse stride total Done w.index w
        → Manned stride total Done index ws
        → Manned stride total Done index (replace_worker w ws)
    unfolding replace_worker
    crew_replaced w new none_left = Manned.none_left
    crew_replaced w new (manned {index = index} {w = v} {ws = vs} h m) =
        if_lem (Manned stride total Done index) (v.index == w.index) (w ∷ vs)
          (v ∷ replace_worker w vs)
          (λ same.
            Manned.manned
              (subst (λ k. IsOnCourse stride total Done k w)
                (sym ((==_iff v.index w.index).0 same) ∙ h.own) new)
              m)
          (λ differ. Manned.manned h (crew_replaced w new m))

    pub crew_member :
        {index : ℕ} {ws : List Worker} (k : ℕ) (w : Worker)
        → Manned stride total Done index ws
        → get_elem? ws k ≡ some w
        → (i : ℕ) × ((i ≡ k + index) × IsOnCourse stride total Done i w)
    crew_member k w none_left e = absurd (ground (arith, e))
    crew_member zero w (manned {index = index} {w = v} h m) e =
        (index, (omega arith, subst (IsOnCourse stride total Done index) (ap (worker_or v) e) h))
    crew_member (suc k) w (manned {index} h m) e =
        let (i, (at, good)) = crew_member k w m e in (i, (omega (arith, at), good))

    -- When all have ended, each index has a worker at its end.
    pub crew_finished :
        {index : ℕ} {ws : List Worker} (i : ℕ)
        → Manned stride total Done index ws
        → all_finished ws ≡ true
        → index ≤ i
        → i < stride
        → (at : ℕ) × ((total ≤ at) × Behind stride i Done at)
    unfolding all_finished
    crew_finished i none_left ended le lt = absurd (omega (arith, le, lt))
    crew_finished i (manned {index} {w} {ws} h m) ended le lt = elim (Bool-cases (index == i)) [
      | inl same ↦ (
        w.seq,
        (
          h.ended (first-finished w ws ended),
          subst (λ k. Behind stride k Done w.seq) ((==_iff index i).0 same) h.behind,
        ),
      )
      | inr differ ↦ crew_finished i m (later-finished w ws ended) (ground (arith, le, differ)) lt
    ]
