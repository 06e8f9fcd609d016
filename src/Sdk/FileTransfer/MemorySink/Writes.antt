-- ===== src/Sdk/FileTransfer/MemorySink/Writes.antt =====
-- What writes to the memory sink leave behind.
use rtcforge.Prelude.{
  ℕ, ◌+◌, ◌-◌, ◌≤◌, ◌<◌, List, some, ◌≡◌, ap, ◌∙◌, ◌⊎◌, arith, length, get_elem?, replicate,
  length-replicate, max, Bool-cases, ltb, ltb→lt, inl, inr,
}
use rtcforge.Sdk.FileTransfer.MemorySink.{MemorySink, grown, write, close}
use rtcforge.Sdk.FileTransfer.MemorySink.Bytes.{
  length-put_bytes, get_elem?-put_bytes_inside, get_elem?-put_bytes_outside,
}

length-grown : (end : ℕ) (old : List ℕ) → length (grown end old) ≡ max (length old) end
unfolding grown
length-grown end old =
    ground (arith, length-put_bytes 0 old (replicate end 0), length-replicate {A = ℕ} end 0)

get_elem?-grown :
    (end : ℕ) (old : List ℕ) (j : ℕ)
    → j < length old
    → get_elem? (grown end old) j ≡ get_elem? old j
unfolding grown
get_elem?-grown end old j h = elim (Bool-cases (ltb (length old) end)) [
  | inl e ↦ rw e (
      get_elem?-put_bytes_inside 0 old (replicate end 0) j (omega arith) (omega arith)
        (omega (arith, ltb→lt _ _ e, length-replicate {A = ℕ} end 0))
      ∙ ap (get_elem? old) (omega arith))
  | inr e ↦ rw e
]

-- After a write the range that was written reads as the data, every other byte that was there before
-- is as it was, and the buffer has grown only if the data reaches past its end.
pub write_lem :
    (offset : ℕ) (bytes old : List ℕ) (s : MemorySink)
    → s.buffer ≡ some old
    → (length (close (write offset bytes s)) ≡ max (length old) (offset + length bytes))
      × ((j : ℕ)
          → offset ≤ j
          → j < offset + length bytes
          → get_elem? (close (write offset bytes s)) j ≡ get_elem? bytes (j - offset))
      × ((j : ℕ)
          → j < length old
          → (j < offset) ⊎ (offset + length bytes ≤ j)
          → get_elem? (close (write offset bytes s)) j ≡ get_elem? old j)
unfolding write close
write_lem offset bytes old s e =
    let end = offset + length bytes in
    let room = grown end old in
    let len = length-grown end old in
    simp e (
      length-put_bytes offset bytes room ∙ len,
      λ j low high. get_elem?-put_bytes_inside offset bytes room j low high (omega arith),
      λ j h out. get_elem?-put_bytes_outside offset bytes room j out ∙ get_elem?-grown end old j h,
    )
