-- ===== src/Sdk/SendQueue/Fifo.antt =====
-- The order and the bounds of the send queue.
use mathlib.Core.List.{append-nil, append_assoc}
use rtcforge.Prelude.{
  ℕ, ◌+◌, ◌≤◌, ◌<◌, true, false, List, [], ◌∷◌, ◌++◌, ◌≡◌, refl, sym, ap, ◌∙◌, inl, inr, arith,
  length, length-append, Bool-cases,
}
use rtcforge.Sdk.SendQueue.{SendQueue, Sent, Drained, size, enqueue, enqueue_all, drain_loop, drain}

module _ {ℓ} {A : Type ℓ} where
  -- `enqueue` appends the item and says so when there is room; otherwise it changes nothing and says no.
  pub enqueue_lem :
      (x : A) (q : SendQueue A)
      → ((size q < q.max_size)
          → ((enqueue x q).0.items ≡ q.items ++ (x ∷ [])) × ((enqueue x q).1 ≡ true))
        × ((q.max_size ≤ size q) → ((enqueue x q).0 ≡ q) × ((enqueue x q).1 ≡ false))
  unfolding enqueue size
  enqueue_lem x q = (λ h. ground arith, λ h. ground arith)

  enqueue_all-accepted :
      (xs : List A) (d : Drained A)
      → d.queue.items ≡ d.accepted
      → (enqueue_all xs d).queue.items ≡ (enqueue_all xs d).accepted
  unfolding enqueue_all
  enqueue_all-accepted [] d e = e
  enqueue_all-accepted (x ∷ xs) d e = enqueue_all-accepted xs _ (ground arith)

  enqueue_all-transmitted :
      (xs : List A) (d : Drained A) → (enqueue_all xs d).transmitted ≡ d.transmitted
  unfolding enqueue_all
  enqueue_all-transmitted [] d = refl
  enqueue_all-transmitted (x ∷ xs) d = enqueue_all-transmitted xs _

  enqueue-bound :
      (n : ℕ) (x : A) (q : SendQueue A)
      → q.max_size ≡ n
      → size q ≤ n
      → (size (enqueue x q).0 ≤ n) × ((enqueue x q).0.max_size ≡ n)
  unfolding enqueue size
  enqueue-bound n x q e h = ground (arith, length-append q.items (x ∷ []))

  enqueue_all-bound :
      (n : ℕ) (xs : List A) (d : Drained A)
      → d.queue.max_size ≡ n
      → size d.queue ≤ n
      → (size (enqueue_all xs d).queue ≤ n) × ((enqueue_all xs d).queue.max_size ≡ n)
  unfolding enqueue_all
  enqueue_all-bound n [] d e h = (h, e)
  enqueue_all-bound n (x ∷ xs) d e h =
      let b = enqueue-bound n x d.queue e h in enqueue_all-bound n xs _ b.1 b.0

  size-requeued :
      (n : ℕ) (xs : List A) (q : SendQueue A)
      → size q ≤ n
      → size (record q { items = xs ++ q.items }) ≤ length xs + n
  unfolding size
  size-requeued n xs q h = omega (arith, length-append xs q.items)

  drain_loop-fifo :
      (send : A → Sent A) (batch : List A) (d : Drained A)
      → d.queue.items ≡ d.accepted
      → (drain_loop send batch d).transmitted ++ (drain_loop send batch d).queue.items
        ≡ (d.transmitted ++ batch) ++ (drain_loop send batch d).accepted
  unfolding drain_loop
  drain_loop-fifo send [] d e = rw (append-nil, e)
  drain_loop-fifo send (x ∷ rest) d e =
      let same = enqueue_all-accepted (send x).reentrant d e in
      let sent = enqueue_all-transmitted (send x).reentrant d in
      elim (Bool-cases (send x).threw) [
        | inl threw ↦ rw (threw, same, sent) (simp append_assoc)
        | inr done ↦
            rw done (
              drain_loop-fifo send rest _ same
              ∙ rw (sent, append_assoc d.transmitted (x ∷ []) rest))
      ]

  -- Whatever the callback does, the transmitted messages followed by those left in the queue are the
  -- messages that were queued before, in their order, followed by those that were enqueued meanwhile.
  pub drain_fifo :
      (send : A → Sent A) (q : SendQueue A)
      → (drain send q).transmitted ++ (drain send q).queue.items
        ≡ q.items ++ (drain send q).accepted
  unfolding drain
  drain_fifo send q = drain_loop-fifo send q.items _ refl

  drain_loop-bound :
      (n : ℕ) (send : A → Sent A) (batch : List A) (d : Drained A)
      → d.queue.max_size ≡ n
      → size d.queue ≤ n
      → size (drain_loop send batch d).queue ≤ length batch + n
  unfolding drain_loop
  drain_loop-bound n send [] d e h = omega arith
  drain_loop-bound n send (x ∷ rest) d e h =
      let b = enqueue_all-bound n (send x).reentrant d e h in
      let ih =
        drain_loop-bound n send rest
          (record (enqueue_all (send x).reentrant d) {
            transmitted = (enqueue_all (send x).reentrant d).transmitted ++ (x ∷ []);
          })
          b.1 b.0 in
      elim (Bool-cases (send x).threw) [
        | inl threw ↦ rw threw (size-requeued n (x ∷ rest) _ b.0)
        | inr done ↦ rw done (omega arith)
      ]

  -- A drain of a queue within its limit leaves at most `max_size` messages more than it found.
  pub drain_bound :
      (send : A → Sent A) (q : SendQueue A) → size (drain send q).queue ≤ size q + q.max_size
  unfolding drain size
  drain_bound send q = drain_loop-bound q.max_size send q.items _ refl (omega arith)

  drain_loop-all :
      (send : A → Sent A) (batch : List A) (d : Drained A)
      → ((x : A) → (send x).threw ≡ false)
      → (drain_loop send batch d).transmitted ≡ d.transmitted ++ batch
  unfolding drain_loop
  drain_loop-all send [] d calm = rw append-nil
  drain_loop-all send (x ∷ rest) d calm = rw (calm x) (
      drain_loop-all send rest _ calm
      ∙ rw (enqueue_all-transmitted (send x).reentrant d, append_assoc d.transmitted (x ∷ []) rest))

  -- If no send throws, everything that was queued is transmitted, in order.
  pub drain_complete :
      (send : A → Sent A) (q : SendQueue A)
      → ((x : A) → (send x).threw ≡ false)
      → (drain send q).transmitted ≡ q.items
  unfolding drain
  drain_complete send q calm = drain_loop-all send q.items _ calm

  quiet-drain_loop :
      (batch : List A) (d : Drained A)
      → drain_loop (λ x. record { reentrant = []; threw = false }) batch d
        ≡ record d { transmitted = d.transmitted ++ batch }
  unfolding drain_loop enqueue_all
  quiet-drain_loop [] d = sym (ap (λ t. record d { transmitted = t }) (append-nil d.transmitted))
  quiet-drain_loop (x ∷ rest) d =
      quiet-drain_loop rest (record d { transmitted = d.transmitted ++ (x ∷ []) })
      ∙ ap (λ t. record d { transmitted = t }) (append_assoc d.transmitted (x ∷ []) rest)

  -- A drain whose sends neither throw nor enqueue hands over the whole queue, in order.
  pub quiet-drain :
      (q : SendQueue A)
      → drain (λ x. record { reentrant = []; threw = false }) q
        ≡ record { queue = record q { items = [] }; transmitted = q.items; accepted = [] }
  unfolding drain
  quiet-drain q = quiet-drain_loop q.items _

  -- A drain of an empty queue sends nothing.
  pub empty-drain :
      (send : A → Sent A) (q : SendQueue A)
      → q.items ≡ []
      → drain send q ≡ record { queue = record q { items = [] }; transmitted = []; accepted = [] }
  unfolding drain drain_loop
  empty-drain send q none' =
      ap
        (λ items.
          drain_loop send items
            (record { queue = record q { items = [] }; transmitted = []; accepted = [] }))
        none'

  -- A drain whose first send throws, and enqueues nothing, changes nothing.
  pub stuck-drain :
      (first : A) (rest : List A) (send : A → Sent A) (q : SendQueue A)
      → q.items ≡ first ∷ rest
      → (send first).threw ≡ true
      → (send first).reentrant ≡ []
      → drain send q ≡ record { queue = q; transmitted = []; accepted = [] }
  unfolding drain drain_loop enqueue_all
  stuck-drain first rest send q waits throws calm =
      ap
        (λ items.
          drain_loop send items
            (record { queue = record q { items = [] }; transmitted = []; accepted = [] }))
        waits
      ∙ ground (arith, throws, calm, waits, append-nil rest)
