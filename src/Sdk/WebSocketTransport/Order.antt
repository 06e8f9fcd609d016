-- ===== src/Sdk/WebSocketTransport/Order.antt =====
-- The order of the messages, across closed sockets and reconnects.
use rtcforge.Prelude.{
  ℕ, leb, ltb, Bool, false, Bool-cases, inl, inr, true, List, [], ◌∷◌, ◌++◌, Option, none, some,
  ◌≡◌, refl, sym, ap, subst, ◌∙◌, arith, if◌then◌else◌, if_lem, length, number_key,
}
use mathlib.Core.List.{append-nil, append_assoc}
use mathlib.Core.Path.{fun_ext}
use rtcforge.Sdk.SendQueue.{size, enqueue, drain}
use rtcforge.Sdk.SendQueue.Fifo.{quiet-drain, stuck-drain}
use rtcforge.Sdk.ReconnectStrategy.{reset, next_delay}
use rtcforge.Sdk.WebSocketTransport.Defs.{
  WebSocketTransport, tagged, is_terminal, open_socket, emit, answer, put, flush_to, flush, send_to,
  send, close, make_socket, connect,
}
use rtcforge.Sdk.WebSocketTransport.Sockets.{
  on_message, schedule_reconnect, class_settled, connect_timed_out, on_open, on_close, on_error,
  timer_fired, refreshed, refresh_failed,
}
use rtcforge.Sdk.WebSocketTransport.Steps.{
  room_for, accepted, replied, Step, Reach, here, next, sends, flushes, closes, connects, settles,
  times_out, opens, ends, fails, hears, fires, refreshes_to, refresh_fails,
}
use rtcforge.Sdk.WebSocketTransport.Handlers.{
  Closed, connect-Kept, class_settled-Kept, connect_timed_out-Kept, on_open-Kept, on_close-Kept,
  on_error-Kept, timer_fired-Kept, refresh_failed-Kept, refreshed-Kept,
}

abbrev untagged : {A : Type 0} → List (ℕ × A) → List A
untagged [] = []
untagged (p ∷ ps) = p.1 ∷ untagged ps

untagged-append :
    {A : Type 0} (ps qs : List (ℕ × A)) → untagged (ps ++ qs) ≡ untagged ps ++ untagged qs
untagged-append [] qs = refl
untagged-append (p ∷ ps) qs = ap (λ ms. p.1 ∷ ms) (untagged-append ps qs)

untagged-tagged : {A : Type 0} (i : ℕ) (ms : List A) → untagged (tagged i ms) ≡ ms
untagged-tagged i [] = refl
untagged-tagged i (m ∷ ms) = ap (λ ns. m ∷ ns) (untagged-tagged i ms)

empty_queue : {A : Type 0} (ms : List A) → ltb 0 (length ms) ≡ false → ms ≡ []
empty_queue [] h = refl
empty_queue (m ∷ ms) h = absurd (ground (arith, h))

-- While the transport is not closed and every message can be sent, what was handed to sockets and what waits make up the list.
abbrev InOrder :
    {Client : Type 0}
    → List Client
    → Bool
    → (Client → Bool)
    → List (ℕ × Client)
    → List Client
    → Type 0
InOrder {Client} ms closed unsendable wire items =
    closed ≡ false → ((m : Client) → unsendable m ≡ false) → untagged wire ++ items ≡ ms

still :
    {Client : Type 0} (f g : Client → Bool)
    → g ≡ f
    → ((m : Client) → g m ≡ false)
    → (m : Client) → f m ≡ false
still {Client} f g same calm m = sym (ap (λ (h : Client → Bool). h m) same) ∙ calm m

module _ {Url Client Server : Type 0} where
  -- The messages handed to sockets, in order, and those that wait.
  abbrev pub taken_in : WebSocketTransport Url Client Server → List Client
  taken_in s = untagged s.wire ++ s.queue.items

  abbrev IsOrdered : List Client → WebSocketTransport Url Client Server → Type 0
  IsOrdered ms s = InOrder ms s.closed s.unsendable s.wire s.queue.items

  answer-IsOrdered :
      (ms : List Client) (waiter : Option ℕ) (ok : Bool) (s : WebSocketTransport Url Client Server)
      → IsOrdered ms s
      → IsOrdered ms (answer waiter ok s)
  unfolding answer
  answer-IsOrdered ms none ok s v = v
  answer-IsOrdered ms (some id) ok s v = v

  -- If every message can be sent, a drain hands over the whole queue.
  calm-drain :
      (s : WebSocketTransport Url Client Server)
      → ((m : Client) → s.unsendable m ≡ false)
      → drain (λ m. record { reentrant = []; threw = s.unsendable m }) s.queue ≡ record {
        queue = record (s.queue) { items = [] };
        transmitted = s.queue.items;
        accepted = [];
      }
  calm-drain s calm =
      ap (λ (f : Client → Bool). drain (λ m. record { reentrant = []; threw = f m }) s.queue)
        (fun_ext calm)
      ∙ quiet-drain s.queue

  flush_to-taken_in :
      (o : Option ℕ) (s : WebSocketTransport Url Client Server)
      → ((m : Client) → s.unsendable m ≡ false)
      → taken_in (flush_to o s) ≡ taken_in s
  unfolding flush_to
  flush_to-taken_in none s calm = refl
  flush_to-taken_in (some i) s calm =
      ap (λ d. untagged (s.wire ++ tagged i d.transmitted) ++ d.queue.items) (calm-drain s calm)
      ∙ append-nil (untagged (s.wire ++ tagged i s.queue.items))
      ∙ untagged-append s.wire (tagged i s.queue.items)
      ∙ ap (λ ms. untagged s.wire ++ ms) (untagged-tagged i s.queue.items)

  flush_to-closed :
      (o : Option ℕ) (s : WebSocketTransport Url Client Server) → (flush_to o s).closed ≡ s.closed
  unfolding flush_to
  flush_to-closed none s = refl
  flush_to-closed (some i) s = refl

  flush_to-unsendable :
      (o : Option ℕ) (s : WebSocketTransport Url Client Server)
      → (flush_to o s).unsendable ≡ s.unsendable
  unfolding flush_to
  flush_to-unsendable none s = refl
  flush_to-unsendable (some i) s = refl

  IsOrdered-Closed :
      (ms : List Client) → Closed {Url = Url} {Client = Client} {Server = Server} (IsOrdered ms)
  unfolding emit put make_socket flush reset schedule_reconnect next_delay
  IsOrdered-Closed ms = record {
    emits = λ e s other v. v;
    answers = answer-IsOrdered ms;
    puts = λ i k s v. v;
    connects = λ o s v. v;
    exhausts = λ s v. v;
    refreshes = λ n s v. v;
    urls = λ url s v. v;
    resets = λ s v. v;
    makes = λ waiter s going v. v;
    disarms = λ s v. v;
    rearms = λ delay s going v. v;
    schedules = λ num den s going left v. v;
    flushes = λ s v e calm.
        let was_calm = still s.unsendable _ (flush_to-unsendable (open_socket s) s) calm in
        flush_to-taken_in (open_socket s) s was_calm
        ∙ v (sym (flush_to-closed (open_socket s) s) ∙ e) was_calm;
  }

  -- An open socket takes what waits, and then the message.
  after_flush :
      (i : ℕ) (m : Client) (s : WebSocketTransport Url Client Server)
      → ((n : Client) → s.unsendable n ≡ false)
      → untagged ((flush_to (some i) s).wire ++ ((i, m) ∷ [])) ++ (flush_to (some i) s).queue.items
        ≡ taken_in s ++ (m ∷ [])
  unfolding flush_to
  after_flush i m s calm =
      ap (λ d. untagged ((s.wire ++ tagged i d.transmitted) ++ ((i, m) ∷ [])) ++ d.queue.items)
        (calm-drain s calm)
      ∙ append-nil (untagged ((s.wire ++ tagged i s.queue.items) ++ ((i, m) ∷ [])))
      ∙ untagged-append (s.wire ++ tagged i s.queue.items) ((i, m) ∷ [])
      ∙ ap (λ ms. ms ++ (m ∷ []))
          (untagged-append s.wire (tagged i s.queue.items)
            ∙ ap (λ ms. untagged s.wire ++ ms) (untagged-tagged i s.queue.items))

  send_to-taken_in :
      (o : Option ℕ) (m : Client) (s : WebSocketTransport Url Client Server)
      → open_socket s ≡ o
      → ((n : Client) → s.unsendable n ≡ false)
      → taken_in (send_to o m s) ≡ taken_in s ++ (if room_for o m s then m ∷ [] else [])
  unfolding send_to enqueue emit flush size
  send_to-taken_in none m s there calm =
      elim (Bool-cases (leb s.queue.max_size (length s.queue.items))) [
        | inl full ↦ rw full (sym (append-nil (taken_in s)))
        | inr room ↦ rw room (sym (append_assoc (untagged s.wire) s.queue.items (m ∷ [])))
      ]
  send_to-taken_in (some i) m s there calm = elim (Bool-cases (ltb 0 (length s.queue.items))) [
    | inl some' ↦
        rw
          (
            some',
            ap (λ (f : Client → Bool). f m) (flush_to-unsendable (open_socket s) s) ∙ calm m,
            calm m,
          )
          (ap (λ o. untagged ((flush_to o s).wire ++ ((i, m) ∷ [])) ++ (flush_to o s).queue.items)
              there
            ∙ after_flush i m s calm)
    | inr none' ↦
        rw (none', calm m, empty_queue s.queue.items none')
          (append-nil (untagged (s.wire ++ ((i, m) ∷ [])))
            ∙ untagged-append s.wire ((i, m) ∷ [])
            ∙ ap (λ ms. ms ++ (m ∷ [])) (sym (append-nil (untagged s.wire))))
  ]

  send-taken_in :
      (m : Client) (s : WebSocketTransport Url Client Server)
      → ((n : Client) → s.unsendable n ≡ false)
      → taken_in (send m s) ≡ taken_in s ++ accepted m s
  unfolding send
  send-taken_in m s calm = elim (Bool-cases (is_terminal s)) [
    | inl over ↦ rw over (sym (append-nil (taken_in s)))
    | inr going ↦ rw going (send_to-taken_in (open_socket s) m s refl calm)
  ]

  send_to-closed :
      (o : Option ℕ) (m : Client) (s : WebSocketTransport Url Client Server)
      → (send_to o m s).closed ≡ s.closed
  unfolding send_to emit flush
  send_to-closed none m s =
      if_lem (λ (t : WebSocketTransport Url Client Server). t.closed ≡ s.closed)
        (enqueue m s.queue).1 (record s { queue = (enqueue m s.queue).0 }) _ (λ ok. refl)
        (λ full. refl)
  send_to-closed (some i) m s = ground (arith, flush_to-closed (open_socket s) s)

  send_to-unsendable :
      (o : Option ℕ) (m : Client) (s : WebSocketTransport Url Client Server)
      → (send_to o m s).unsendable ≡ s.unsendable
  unfolding send_to emit flush
  send_to-unsendable none m s =
      if_lem (λ (t : WebSocketTransport Url Client Server). t.unsendable ≡ s.unsendable)
        (enqueue m s.queue).1 (record s { queue = (enqueue m s.queue).0 }) _ (λ ok. refl)
        (λ full. refl)
  send_to-unsendable (some i) m s = ground (arith, flush_to-unsendable (open_socket s) s)

  send-unsendable :
      (m : Client) (s : WebSocketTransport Url Client Server) → (send m s).unsendable ≡ s.unsendable
  unfolding send
  send-unsendable m s =
      if_lem (λ (t : WebSocketTransport Url Client Server). t.unsendable ≡ s.unsendable)
        (is_terminal s) s _ (λ over. refl) (λ going. send_to-unsendable (open_socket s) m s)

  send-closed :
      (m : Client) (s : WebSocketTransport Url Client Server) → (send m s).closed ≡ s.closed
  unfolding send
  send-closed m s =
      if_lem (λ (t : WebSocketTransport Url Client Server). t.closed ≡ s.closed) (is_terminal s) s _
        (λ over. refl) (λ going. send_to-closed (open_socket s) m s)

  send-IsOrdered :
      (ms : List Client) (m : Client) (s : WebSocketTransport Url Client Server)
      → IsOrdered ms s
      → IsOrdered (ms ++ accepted m s) (send m s)
  send-IsOrdered ms m s v e calm =
      let was_calm = still s.unsendable _ (send-unsendable m s) calm in
      send-taken_in m s was_calm
      ∙ ap (λ ns. ns ++ accepted m s) (v (sym (send-closed m s) ∙ e) was_calm)

  more :
      (ms : List Client) (s : WebSocketTransport Url Client Server)
      → IsOrdered ms s
      → IsOrdered (ms ++ []) s
  more ms s v = subst (λ ns. IsOrdered ns s) (sym (append-nil ms)) v

  module _ (is_ping : Server → Bool) (pong : Client) where
    hears-IsOrdered :
        (ms : List Client) (data' : Option (Option Server))
        (s : WebSocketTransport Url Client Server)
        → IsOrdered ms s
        → IsOrdered (ms ++ replied is_ping pong data' s) (on_message is_ping pong data' s)
    unfolding on_message emit
    hears-IsOrdered ms none s v = more ms s v
    hears-IsOrdered ms (some none) s v = more ms s v
    hears-IsOrdered ms (some (some m)) s v = elim (Bool-cases (is_ping m)) [
      | inl ping ↦ rw ping (send-IsOrdered ms pong s v)
      | inr other ↦ rw other (more ms s v)
    ]

    Step-IsOrdered :
        (ms : List Client) {ns : List Client} {s t : WebSocketTransport Url Client Server}
        → Step is_ping pong s ns t
        → IsOrdered ms s
        → IsOrdered (ms ++ ns) t
    unfolding close
    Step-IsOrdered ms {s = s} (sends m) v = send-IsOrdered ms m s v
    Step-IsOrdered ms {s = s} flushes v = more ms (flush s) ((IsOrdered-Closed ms).flushes s v)
    Step-IsOrdered ms {s = s} closes v = λ e calm. absurd (ground (arith, e))
    Step-IsOrdered ms {s = s} (connects id) v =
        more ms (connect id s) (connect-Kept (IsOrdered ms) (IsOrdered-Closed ms) id s v)
    Step-IsOrdered ms {s = s} (settles found usable waiter e) v =
        more ms (class_settled found usable waiter s)
          (class_settled-Kept (IsOrdered ms) (IsOrdered-Closed ms) found usable waiter s v)
    Step-IsOrdered ms {s = s} (times_out i k e on) v =
        more ms (connect_timed_out i k s)
          (connect_timed_out-Kept (IsOrdered ms) (IsOrdered-Closed ms) i k s v)
    Step-IsOrdered ms {s = s} (opens i k e) v =
        more ms (on_open i k s) (on_open-Kept (IsOrdered ms) (IsOrdered-Closed ms) i k s v)
    Step-IsOrdered ms {s = s} (ends num den i k code e) v =
        more ms (on_close num den i k code s)
          (on_close-Kept (IsOrdered ms) (IsOrdered-Closed ms) num den i k code s v)
    Step-IsOrdered ms {s = s} (fails i k e) v =
        more ms (on_error i k s) (on_error-Kept (IsOrdered ms) (IsOrdered-Closed ms) i k s v)
    Step-IsOrdered ms {s = s} (hears data') v = hears-IsOrdered ms data' s v
    Step-IsOrdered ms {s = s} (fires delay e) v =
        more ms (timer_fired delay s)
          (timer_fired-Kept (IsOrdered ms) (IsOrdered-Closed ms) delay s v)
    Step-IsOrdered ms {s = s} (refreshes_to num den url some') v =
        more ms (refreshed num den url s)
          (refreshed-Kept (IsOrdered ms) (IsOrdered-Closed ms) num den url s v)
    Step-IsOrdered ms {s = s} (refresh_fails num den some') v =
        more ms (refresh_failed num den s)
          (refresh_failed-Kept (IsOrdered ms) (IsOrdered-Closed ms) num den s v)

    Reach-IsOrdered :
        {s : WebSocketTransport Url Client Server} {ms : List Client}
        {t : WebSocketTransport Url Client Server}
        → Reach is_ping pong s ms t
        → IsOrdered (taken_in s ++ ms) t
    Reach-IsOrdered {s = s} here = λ e calm. sym (append-nil (taken_in s))
    Reach-IsOrdered {s = s} (next {ms = ms} {ns = ns} {u = u} path step) =
        subst (λ ls. IsOrdered ls u) (append_assoc (taken_in s) ms ns)
          (Step-IsOrdered (taken_in s ++ ms) step (Reach-IsOrdered path))

    -- While the transport is not closed, and if neither `JSON.stringify` nor a socket's `send` throws for
    -- any message: whatever happens, in any order, and over any number of sockets, the messages handed to sockets, followed by those that wait, are those of the start followed by
    -- those that it has since taken in, in order, with none lost and none twice.
    pub messages_stay_in_order :
        (s t : WebSocketTransport Url Client Server) (ms : List Client)
        → Reach is_ping pong s ms t
        → t.closed ≡ false
        → ((m : Client) → t.unsendable m ≡ false)
        → taken_in t ≡ taken_in s ++ ms
    messages_stay_in_order s t ms path going calm = Reach-IsOrdered path going calm

  stuck-flush_to :
      (i : ℕ) (first : Client) (rest : List Client) (s : WebSocketTransport Url Client Server)
      → s.queue.items ≡ first ∷ rest
      → s.unsendable first ≡ true
      → flush_to (some i) s ≡ s
  unfolding flush_to
  stuck-flush_to i first rest s waits throws =
      ap (λ d. record s { queue = d.queue; wire = s.wire ++ tagged i d.transmitted })
        (stuck-drain first rest (λ n. record { reentrant = []; threw = s.unsendable n }) s.queue
          waits throws refl)
      ∙ ap (λ wire. record s { wire = wire }) (append-nil s.wire)

  -- If the first message that waits makes `JSON.stringify` or the socket's `send` throw, and a later one
  -- does not, the later one goes out on the open socket while all that waited goes on waiting.
  pub waiting_is_overtaken :
      (i : ℕ) (first m : Client) (rest : List Client) (s : WebSocketTransport Url Client Server)
      → is_terminal s ≡ false
      → open_socket s ≡ some i
      → s.queue.items ≡ first ∷ rest
      → s.unsendable first ≡ true
      → s.unsendable m ≡ false
      → ((send m s).wire ≡ s.wire ++ ((i, m) ∷ [])) × ((send m s).queue.items ≡ first ∷ rest)
  unfolding send send_to flush size
  waiting_is_overtaken i first m rest s going there waits throws fine =
      let long : ltb 0 (length s.queue.items) ≡ true = ground (arith, waits) in
      let stuck = stuck-flush_to i first rest s waits throws in
      simp (going, there, long, stuck, fine)
        (
          ap (λ (t : WebSocketTransport Url Client Server). t.wire ++ ((i, m) ∷ [])) stuck,
          ap (λ (t : WebSocketTransport Url Client Server). t.queue.items) stuck ∙ waits,
        )
