-- ===== src/Sdk/SendQueue.antt =====
-- packages/sdk/src/SendQueue.ts: the bounded queue of messages held while the socket is down.
pub mod Fifo
use rtcforge.Prelude.{ℕ, Bool, true, false, List, [], ◌∷◌, ◌++◌, leb, if◌then◌else◌, length}

pub record SendQueue {ℓ} (A : Type ℓ) : Type ℓ where
  pub items : List A
  pub max_size : ℕ

-- What one call of `send` does: the items that it enqueues while it runs, and whether it throws.
pub record Sent {ℓ} (A : Type ℓ) : Type ℓ where
  pub reentrant : List A
  pub threw : Bool

-- A drain under way: the queue, what was transmitted, and what was enqueued meanwhile.
pub record Drained {ℓ} (A : Type ℓ) : Type ℓ where
  pub queue : SendQueue A
  pub transmitted : List A
  pub accepted : List A

module _ {ℓ} {A : Type ℓ} where
  unfoldable pub size : SendQueue A → ℕ
  size q = length q.items

  unfoldable pub enqueue : A → SendQueue A → SendQueue A × Bool
  enqueue item q =
      if leb q.max_size (length q.items)
      then (q, false)
      else (record q { items = q.items ++ (item ∷ []) }, true)

  -- The calls of `enqueue` that a running `send` makes, each bounded by `max_size`.
  unfoldable pub enqueue_all : List A → Drained A → Drained A
  unfolding enqueue
  enqueue_all [] d = d
  enqueue_all (x ∷ xs) d =
      let (q, ok) = enqueue x d.queue in
      enqueue_all xs
        (record d { queue = q; accepted = if ok then d.accepted ++ (x ∷ []) else d.accepted })

  -- The loop of `drain` over the batch.
  unfoldable pub drain_loop : (A → Sent A) → List A → Drained A → Drained A
  drain_loop send [] d = d
  drain_loop send (x ∷ rest) d =
      let sent = send x in
      let d' = enqueue_all sent.reentrant d in
      let requeued = record d' {
        queue = record (d'.queue) { items = (x ∷ rest) ++ d'.queue.items };
      } in
      let after = drain_loop send rest (record d' { transmitted = d'.transmitted ++ (x ∷ []) }) in
      if sent.threw then requeued else after

  unfoldable pub drain : (A → Sent A) → SendQueue A → Drained A
  unfolding drain_loop enqueue_all
  drain send q =
      drain_loop send q.items
        (record { queue = record q { items = [] }; transmitted = []; accepted = [] })

  abbrev pub clear : SendQueue A → SendQueue A
  clear q = record q { items = [] }
