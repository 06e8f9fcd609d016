-- ===== src/Sdk/FileTransfer/SendTransfer/Workers.antt =====
-- SendTransfer.ts: the workers of a run, from one suspension to the next. `read` is the source's `slice`,
-- with nothing where its promise rejects, and `sha` is SHA-256.
use rtcforge.Prelude.{
  ℕ, zero, suc, ◌+◌, ◌-◌, ◌*◌, Bool, true, false, not, ◌&&◌, List, [], ◌∷◌, ◌++◌, Option, none,
  some, ltb, ◌==◌, if◌then◌else◌, length, min, get_elem?, number_key,
}
use rtcforge.Map.{contains}
use rtcforge.Sdk.FileTransfer.Checksum.{Sha256Digest, update, finalize}
use rtcforge.Sdk.FileTransfer.Framing.{encode_frame}
use rtcforge.Sdk.FileTransfer.Protocol.{ControlMessage}
use rtcforge.Sdk.FileTransfer.Transfer.{
  TransferState, FileTransferErrorCode, same_state, is_terminal, emit_progress,
}
use rtcforge.Sdk.FileTransfer.Transfer.{channel_closed, source_read_failed}
use rtcforge.Sdk.FileTransfer.SendTransfer.Defs.{
  DataChannel, opening, parked, passing, reading, digesting, draining, finished, broken, Worker,
  Run, SendTransfer, transition_to, safe_control, fail_loudly,
}

abbrev pub is_closed_error : FileTransferErrorCode → Bool
is_closed_error channel_closed = true
is_closed_error _ = false

abbrev pub is_given {ℓ} : {A : Type ℓ} → Option A → Bool
is_given none = false
is_given (some a) = true

unfoldable pub replace_worker : Worker → List Worker → List Worker
replace_worker w [] = []
replace_worker w (v ∷ vs) =
    let rest = replace_worker w vs in if v.index == w.index then w ∷ vs else v ∷ rest

unfoldable pub all_finished : List Worker → Bool
all_finished [] = true
all_finished (w ∷ ws) = elim w.phase [
  | opening ↦ false
  | parked ↦ false
  | passing ↦ false
  | reading ↦ false
  | digesting bytes ↦ false
  | draining bytes ↦ false
  | finished ↦ all_finished ws
  | broken ↦ false
]

abbrev pub needs : Worker → Run → Bool
needs w r = not (contains w.seq r.have_chunks)

module _ {C : Type 0} where
  unfoldable pub put : Worker → Run → SendTransfer C → SendTransfer C
  unfolding replace_worker
  put w r s = record s { run = some (record r { workers = replace_worker w r.workers }) }

  -- The head of the loop, with the pause gate.
  unfoldable pub loop_from : Worker → Run → SendTransfer C → SendTransfer C
  unfolding put
  loop_from w r s =
      let gate = if same_state s.base.state TransferState.paused then parked else passing in
      put (record w { phase = if ltb w.seq s.base.total_chunks then gate else finished }) r s

  -- `seq += stride`
  unfoldable pub next_from : Worker → Run → SendTransfer C → SendTransfer C
  unfolding loop_from
  next_from w r s = loop_from (record w { seq = w.seq + length s.channels }) r s

  abbrev pub chunk_length : ℕ → SendTransfer C → ℕ
  chunk_length seq s = min s.base.chunk_size (s.base.metadata.size - seq * s.base.chunk_size)

  -- A chunk was sent: each is counted once.
  unfoldable pub count_sent : ℕ → SendTransfer C → SendTransfer C
  unfolding emit_progress
  count_sent seq s =
      let counted = record s {
        sent_seqs = s.sent_seqs ++ (seq ∷ []);
        base = record s.base {
          transferred_chunks = s.base.transferred_chunks + 1;
          transferred_bytes = s.base.transferred_bytes + chunk_length seq s;
        };
      } in
      let s' = if contains seq s.sent_seqs then s else counted in
      record s' { base = emit_progress s'.base }

  unfoldable pub put_channel : ℕ → C → List C → List C
  put_channel i c [] = []
  put_channel zero c (d ∷ cs) = c ∷ cs
  put_channel (suc i) c (d ∷ cs) = d ∷ put_channel i c cs

  module _ (dc : DataChannel C) (read : ℕ → ℕ → Option (List ℕ)) (sha : List ℕ → List ℕ) where
    -- `_interrupt`
    unfoldable pub interrupt : SendTransfer C → SendTransfer C
    unfolding transition_to
    interrupt s =
        let (s', moved) = transition_to dc TransferState.paused s in
        if same_state s.base.state TransferState.active
        then (if moved then record s' { interrupted = true } else s')
        else s

    -- A worker throws; the first to do so rejects the run.
    unfoldable pub break_run :
        FileTransferErrorCode → Worker → Run → SendTransfer C → SendTransfer C
    unfolding put interrupt fail_loudly
    break_run code w r s =
        let s' = put (record w { phase = broken }) (record r { settled = true }) s in
        if r.settled
        then s'
        else if s.resumable && is_closed_error code && not (is_terminal s.base)
        then interrupt s'
        else fail_loudly dc code s'

    abbrev pub is_open_at : Option C → Bool
    is_open_at none = false
    is_open_at (some c) = dc.is_open c

    abbrev pub is_over_mark : ℕ → Option C → Bool
    is_over_mark high none = true
    is_over_mark high (some c) = ltb high (dc.buffered_amount c)

    -- `awaitDrain`, up to its suspension.
    unfoldable pub start_drain : List ℕ → Worker → Run → SendTransfer C → SendTransfer C
    unfolding put break_run
    start_drain bytes w r s =
        let channel = get_elem? s.channels w.index in
        if is_over_mark s.high_water_mark channel && not (is_open_at channel)
        then break_run channel_closed w r s
        else put (record w { phase = draining bytes }) r s

    -- The channel has opened, or has failed to.
    unfoldable pub opened : Worker → Run → SendTransfer C → SendTransfer C
    unfolding loop_from break_run
    opened w r s =
        if is_open_at (get_elem? s.channels w.index)
        then loop_from w r s
        else break_run channel_closed w r s

    -- Past the gate: the chunk is skipped, or is read.
    unfoldable pub passed : Worker → Run → SendTransfer C → SendTransfer C
    unfolding next_from put
    passed w r s =
        if not (needs w r) && not (is_given r.digest)
        then next_from w r s
        else put (record w { phase = reading }) r s

    unfoldable pub read_done : Option (List ℕ) → Worker → Run → SendTransfer C → SendTransfer C
    unfolding break_run put next_from start_drain
    read_done none w r s = break_run source_read_failed w r s
    read_done (some bytes) w r s =
        if is_given r.digest
        then put (record w { phase = digesting bytes }) r s
        else if needs w r
        then start_drain bytes w r s
        else next_from w r s

    abbrev pub updated : ℕ → List ℕ → Option Sha256Digest → Option Sha256Digest
    updated seq bytes none = none
    updated seq bytes (some d) = some (update sha seq bytes d)

    unfoldable pub digested : List ℕ → Worker → Run → SendTransfer C → SendTransfer C
    unfolding next_from start_drain
    digested bytes w r s =
        let r' = record r { digest = updated w.seq bytes r.digest } in
        if needs w r then start_drain bytes w r' s else next_from w r' s

    unfoldable pub send_on : List ℕ → Option C → Worker → Run → SendTransfer C → SendTransfer C
    unfolding break_run next_from count_sent put_channel encode_frame
    send_on bytes none w r s = break_run channel_closed w r s
    send_on bytes (some c) w r s =
        let (c', threw) = dc.send_bytes (encode_frame w.seq bytes) c in
        let used = record s { channels = put_channel w.index c' s.channels } in
        if not (dc.is_open c)
        then break_run channel_closed w r s
        else if threw
        then break_run source_read_failed w r used
        else next_from w r (count_sent w.seq used)

    -- The buffer has drained, or the channel has closed.
    unfoldable pub drained : List ℕ → Worker → Run → SendTransfer C → SendTransfer C
    unfolding send_on
    drained bytes w r s = send_on bytes (get_elem? s.channels w.index) w r s

    -- What a worker does when its wait is over. A parked worker waits for a resume.
    unfoldable pub continue_worker : Worker → Run → SendTransfer C → SendTransfer C
    unfolding opened passed read_done digested drained
    continue_worker w r s = elim w.phase [
      | opening ↦ opened w r s
      | parked ↦ s
      | passing ↦ passed w r s
      | reading ↦ read_done (read (w.seq * s.base.chunk_size) (chunk_length w.seq s)) w r s
      | digesting bytes ↦ digested bytes w r s
      | draining bytes ↦ drained bytes w r s
      | finished ↦ s
      | broken ↦ s
    ]

    abbrev pub hex_of : Option Sha256Digest → Option (List ℕ)
    hex_of none = none
    hex_of (some d) = some (finalize sha d)

    -- The last two lines of `_run`.
    unfoldable pub announce : Option (List ℕ) → SendTransfer C → SendTransfer C
    unfolding transition_to safe_control
    announce hex s =
        safe_control dc (ControlMessage.sent s.base.id hex)
          (transition_to dc TransferState.completing s).0

    -- The end of `_run`, when every worker has ended: with a checksum, it waits for `finalize`.
    unfoldable pub finish_run : Run → SendTransfer C → SendTransfer C
    unfolding announce all_finished
    finish_run r s =
        let s' = record s { run = some (record r { settled = true }) } in
        let told = elim r.digest as (λ _. SendTransfer C) [
          | none ↦ announce none s'
          | some d ↦ record s' { finalizing = s.finalizing ++ (d ∷ []) }
        ] in
        if not r.settled && all_finished r.workers then told else s

    unfoldable pub announce_first : List Sha256Digest → SendTransfer C → SendTransfer C
    unfolding announce
    announce_first [] s = s
    announce_first (d ∷ rest) s = announce (some (finalize sha d)) (record s { finalizing = rest })

    -- The first `await digest.finalize()` is over. Whether the run is still the current one is not
    -- looked at again.
    unfoldable pub digest_done : SendTransfer C → SendTransfer C
    unfolding announce_first
    digest_done s = announce_first s.finalizing s
