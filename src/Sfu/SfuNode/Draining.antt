-- ===== src/Sfu/SfuNode/Draining.antt =====
-- A drain ends.
use rtcforge.Prelude.{
  ℕ, Bool, true, false, not, ◌&&◌, ◌||◌, List, [], ◌∷◌, ◌++◌, String, ◌≡◌, refl, inl, inr, arith,
  leb, if◌then◌else◌, text_key, Bool-cases,
}
use rtcforge.Sfu.SfuNode.{
  SfuNode, draining_now, new_node, emit, is_overloaded, is_empty, report_load, resolve, mark_failed,
  mark_recovered, track_room, remove_all, untrack_room, drain, drain_timeout, drain_end,
}

-- A drain that has begun either waits for a room that the node still has or has been resolved, never
-- both, and without a drain neither holds.
pub record IsValid (n : SfuNode) : Type 0 where
  pub pending : n.draining ≡ (n.waiting || n.resolving)
  pub once : (n.waiting && n.resolving) ≡ false
  pub has_room : n.waiting ≡ true → is_empty n.rooms ≡ false

pub data Step (n : SfuNode) : SfuNode → Type 0 where
  reports : (load : ℕ) → Step n (report_load load n)
  fails : Step n (mark_failed n)
  recovers : Step n (mark_recovered n)
  tracks : (room : String) → Step n (track_room room n)
  untracks : (room : String) → Step n (untrack_room room n)
  drains : Step n (drain n)
  times_out : Step n (drain_timeout n)
  ends : Step n (drain_end n)

pub data Reach (n : SfuNode) : SfuNode → Type 0 where
  here : Reach n n
  next : {m o : SfuNode} → Reach n m → Step m o → Reach n o

report_load-IsValid : (load : ℕ) (n : SfuNode) → IsValid n → IsValid (report_load load n)
unfolding report_load emit
report_load-IsValid load n v = elim (Bool-cases (not (is_overloaded n) && leb n.capacity load)) [
  | inl over ↦ rw over (record { pending = v.pending; once = v.once; has_room = v.has_room })
  | inr under ↦ rw under (record { pending = v.pending; once = v.once; has_room = v.has_room })
]

resolve-IsValid : (n : SfuNode) → IsValid n → IsValid (resolve n)
unfolding resolve
resolve-IsValid n v = record {
  pending = ground (arith, v.pending);
  once = refl;
  has_room = λ e. absurd (cc);
}

-- Both branches of a test.
if-IsValid :
    (b : Bool) (n m : SfuNode)
    → (b ≡ true → IsValid n)
    → (b ≡ false → IsValid m)
    → IsValid (if b then n else m)
if-IsValid true n m yes' no' = yes' refl
if-IsValid false n m yes' no' = no' refl

mark_failed-IsValid : (n : SfuNode) → IsValid n → IsValid (mark_failed n)
unfolding mark_failed emit resolve
mark_failed-IsValid n v =
    if-IsValid n.failed _ _ (λ down. v)
      (λ up. record {
        pending = ground (arith, v.pending);
        once = ground (arith, v.pending, v.once);
        has_room = λ w. ground (arith, v.pending, v.has_room);
      })

mark_recovered-IsValid : (n : SfuNode) → IsValid n → IsValid (mark_recovered n)
unfolding mark_recovered emit
mark_recovered-IsValid n v =
    if-IsValid (not n.failed) _ _ (λ up. v)
      (λ down. record { pending = v.pending; once = v.once; has_room = v.has_room })

some_of_append : (rooms : List String) (room : String) → is_empty (rooms ++ (room ∷ [])) ≡ false
some_of_append [] room = refl
some_of_append (r ∷ rooms) room = refl

track_room-IsValid : (room : String) (n : SfuNode) → IsValid n → IsValid (track_room room n)
unfolding track_room
track_room-IsValid room n v = record {
  pending = v.pending;
  once = v.once;
  has_room = λ w. ground (arith, v.has_room w, some_of_append n.rooms room);
}

untrack_room-IsValid : (room : String) (n : SfuNode) → IsValid n → IsValid (untrack_room room n)
unfolding untrack_room resolve
untrack_room-IsValid room n v =
    let r = resolve-IsValid n v in
    if-IsValid (n.draining && is_empty (remove_all room n.rooms)) _ _
      (λ last. record { pending = r.pending; once = r.once; has_room = λ w. absurd (cc) })
      (λ more. record {
        pending = v.pending;
        once = v.once;
        has_room = λ w. ground (arith, v.pending, more, w);
      })

drain-IsValid : (n : SfuNode) → IsValid n → IsValid (drain n)
unfolding drain emit
drain-IsValid n v =
    let begun = emit draining_now (record n { draining = true }) in
    if-IsValid n.draining _ _ (λ busy. v)
      (λ idle.
        if-IsValid (is_empty n.rooms) (record begun { resolving = true })
          (record begun { waiting = true })
          (λ free. record {
            pending = ground (arith, v.pending);
            once = ground (arith, v.pending);
            has_room = v.has_room;
          })
          (λ used.
            let off : n.resolving ≡ false = ground (arith, v.pending, idle) in
            record { pending = refl; once = off; has_room = λ w. used }))

drain_timeout-IsValid : (n : SfuNode) → IsValid n → IsValid (drain_timeout n)
unfolding drain_timeout
drain_timeout-IsValid n v = if-IsValid n.waiting _ _ (λ runs. resolve-IsValid n v) (λ off. v)

drain_end-IsValid : (n : SfuNode) → IsValid n → IsValid (drain_end n)
unfolding drain_end emit
drain_end-IsValid n v =
    if-IsValid n.resolving _ _
      (λ now. record {
        pending = ground (arith, v.once);
        once = ground (arith, v.once);
        has_room = v.has_room;
      })
      (λ later. v)

Step-IsValid : {n m : SfuNode} → Step n m → IsValid n → IsValid m
Step-IsValid {n} (reports load) v = report_load-IsValid load n v
Step-IsValid {n} fails v = mark_failed-IsValid n v
Step-IsValid {n} recovers v = mark_recovered-IsValid n v
Step-IsValid {n} (tracks room) v = track_room-IsValid room n v
Step-IsValid {n} (untracks room) v = untrack_room-IsValid room n v
Step-IsValid {n} drains v = drain-IsValid n v
Step-IsValid {n} times_out v = drain_timeout-IsValid n v
Step-IsValid {n} ends v = drain_end-IsValid n v

reached :
    (id region : String) (capacity : ℕ) {n : SfuNode}
    → Reach (new_node id region capacity) n
    → IsValid n
unfolding new_node
reached id region capacity here = record {
  pending = refl;
  once = refl;
  has_room = λ e. absurd (cc);
}
reached id region capacity (next path step) = Step-IsValid step (reached id region capacity path)

-- Whatever happens to a node, a drain that is under way can end: on a node without rooms its end is
-- enabled already, and on any node once its timer has fired.
pub drain_lem :
    (id region : String) (capacity : ℕ) (n : SfuNode)
    → Reach (new_node id region capacity) n
    → n.draining ≡ true
    → (is_empty n.rooms ≡ true → (drain_end n).draining ≡ false)
      × ((drain_end (drain_timeout n)).draining ≡ false)
unfolding drain_end drain_timeout resolve emit
drain_lem id region capacity n path busy =
    let v = reached id region capacity path in
    (λ free. ground (arith, v.pending, v.has_room, busy, free), ground (arith, v.pending, busy))
