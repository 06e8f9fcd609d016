-- ===== src/Sdk/WebSocketTransport/Attempts.antt =====
-- The number of reconnects in a row.
use rtcforge.Prelude.{
  ℕ, ◌+◌, ◌≤◌, leb, ltb, Bool, true, false, ◌&&◌, List, [], ◌∷◌, ◌++◌, all, Option, none, some, ◌≡◌,
  refl, arith, if◌then◌else◌, if_lem, number_key,
}
use rtcforge.Sdk.SendQueue.{SendQueue, size, enqueue}
use rtcforge.Sdk.ReconnectStrategy.{reset, is_exhausted, next_delay, exhausted}
use rtcforge.Sdk.WebSocketTransport.Defs.{
  Event, reconnecting, error_event, queue_full, WebSocketTransport, new_transport, is_terminal,
  open_socket, emit, answer, put, flush_to, flush, send_to, send, close, make_socket,
}
use rtcforge.Sdk.WebSocketTransport.Sockets.{schedule_reconnect}
use rtcforge.Sdk.WebSocketTransport.Steps.{
  Step, Reach, here, next, sends, flushes, closes, connects, settles, times_out, opens, ends, fails,
  hears, fires, refreshes_to, refresh_fails,
}
use rtcforge.Sdk.WebSocketTransport.Handlers.{
  Closed, is_reconnecting, connect-Kept, class_settled-Kept, connect_timed_out-Kept, on_open-Kept,
  on_close-Kept, on_error-Kept, on_message-Kept, timer_fired-Kept, refresh_failed-Kept,
  refreshed-Kept,
}

abbrev pub is_within : {Server : Type 0} → ℕ → Event Server → Bool
is_within most (reconnecting n) = leb 1 n && leb n most
is_within most _ = true

all-append :
    {A : Type 0} (test : A → Bool) (xs : List A) (x : A)
    → all test xs ≡ true
    → test x ≡ true
    → all test (xs ++ (x ∷ [])) ≡ true
all-append test [] x h e = rw e refl
all-append test (y ∷ ys) x h e =
    rw
      (
        and_left (test y) (all test ys) h,
        all-append test ys x (and_right (test y) (all test ys) h) e,
      )
      refl
  where
    and_left : (a b : Bool) → (a && b) ≡ true → a ≡ true
    and_left true b h = refl
    and_left false b h = h

    and_right : (a b : Bool) → (a && b) ≡ true → b ≡ true
    and_right true b h = h
    and_right false b h = absurd (ground (arith, h))

quiet-is_within :
    {Server : Type 0} (most : ℕ) (e : Event Server)
    → is_reconnecting e ≡ false
    → is_within most e ≡ true
quiet-is_within most e h = ground (arith, h)

-- No more attempts are counted than the limit, and none was announced beyond it.
record Limited {Server : Type 0} (most : ℕ) (limit : Option ℕ) (attempt : ℕ)
    (events : List (Event Server)) : Type 0 where
  same : limit ≡ some most
  count : attempt ≤ most
  told : all (is_within most) events ≡ true

left_over :
    (most : ℕ) (limit : Option ℕ) (attempt : ℕ)
    → limit ≡ some most
    → exhausted limit attempt ≡ false
    → attempt + 1 ≤ most
left_over most none attempt same left = absurd (ground (arith, same))
left_over most (some m) attempt same left = ground (arith, same, left)

module _ {Url Client Server : Type 0} (most : ℕ) where
  abbrev IsLimited : WebSocketTransport Url Client Server → Type 0
  IsLimited s = Limited most s.strategy.max_attempts s.strategy.attempt s.events

  emit-IsLimited :
      (e : Event Server) (s : WebSocketTransport Url Client Server)
      → is_within most e ≡ true
      → IsLimited s
      → IsLimited (emit e s)
  unfolding emit
  emit-IsLimited e s fits v = record {
    same = v.same;
    count = v.count;
    told = all-append (is_within most) s.events e v.told fits;
  }

  answer-IsLimited :
      (waiter : Option ℕ) (ok : Bool) (s : WebSocketTransport Url Client Server)
      → IsLimited s
      → IsLimited (answer waiter ok s)
  unfolding answer
  answer-IsLimited none ok s v = v
  answer-IsLimited (some id) ok s v = v

  flush_to-IsLimited :
      (o : Option ℕ) (s : WebSocketTransport Url Client Server)
      → IsLimited s
      → IsLimited (flush_to o s)
  unfolding flush_to
  flush_to-IsLimited none s v = v
  flush_to-IsLimited (some i) s v = v

  schedule-IsLimited :
      (num den : ℕ) (s : WebSocketTransport Url Client Server)
      → is_exhausted s.strategy ≡ false
      → IsLimited s
      → IsLimited (schedule_reconnect num den s)
  unfolding schedule_reconnect next_delay emit is_exhausted
  schedule-IsLimited num den s left v =
      let more = left_over most s.strategy.max_attempts s.strategy.attempt v.same left in
      record {
        same = v.same;
        count = more;
        told =
            all-append (is_within most) s.events (reconnecting (s.strategy.attempt + 1)) v.told
              (ground (arith, more));
      }

  IsLimited-Closed : Closed {Url = Url} {Client = Client} {Server = Server} IsLimited
  unfolding put make_socket flush reset
  IsLimited-Closed = record {
    emits = λ e s other v. emit-IsLimited e s (quiet-is_within most e other) v;
    answers = answer-IsLimited;
    puts = λ i k s v. v;
    connects = λ o s v. v;
    exhausts = λ s v. v;
    refreshes = λ n s v. v;
    urls = λ url s v. v;
    resets = λ s v. record { same = v.same; count = omega arith; told = v.told };
    makes = λ waiter s going v. v;
    disarms = λ s v. v;
    rearms = λ delay s going v. v;
    schedules = λ num den s going left v. schedule-IsLimited num den s left v;
    flushes = λ s v. flush_to-IsLimited (open_socket s) s v;
  }

  send_to-IsLimited :
      (o : Option ℕ) (m : Client) (s : WebSocketTransport Url Client Server)
      → IsLimited s
      → IsLimited (send_to o m s)
  unfolding send_to
  send_to-IsLimited none m s v =
      if_lem IsLimited (enqueue m s.queue).1 (record s { queue = (enqueue m s.queue).0 }) _
        (λ ok. v) (λ full. emit-IsLimited (error_event queue_full) s refl v)
  send_to-IsLimited (some i) m s v =
      let flushed : WebSocketTransport Url Client Server =
        if ltb 0 (size s.queue) then flush s else s in
      let v' : IsLimited flushed =
        if_lem (λ (t : WebSocketTransport Url Client Server). IsLimited t) (ltb 0 (size s.queue))
          (flush s) s (λ some'. IsLimited-Closed.flushes s v) (λ none'. v) in
      if_lem (λ (t : WebSocketTransport Url Client Server). IsLimited t) (flushed.unsendable m)
        flushed _ (λ throws. v') (λ fine. v')

  send-IsLimited :
      (m : Client) (s : WebSocketTransport Url Client Server) → IsLimited s → IsLimited (send m s)
  unfolding send
  send-IsLimited m s v =
      if_lem IsLimited (is_terminal s) s _ (λ over. v)
        (λ going. send_to-IsLimited (open_socket s) m s v)

  module _ (is_ping : Server → Bool) (pong : Client) where
    Step-IsLimited :
        {ms : List Client} {s t : WebSocketTransport Url Client Server}
        → Step is_ping pong s ms t
        → IsLimited s
        → IsLimited t
    unfolding close
    Step-IsLimited {s = s} (sends m) v = send-IsLimited m s v
    Step-IsLimited {s = s} flushes v = IsLimited-Closed.flushes s v
    Step-IsLimited {s = s} closes v = v
    Step-IsLimited {s = s} (connects id) v = connect-Kept IsLimited IsLimited-Closed id s v
    Step-IsLimited {s = s} (settles found usable waiter e) v =
        class_settled-Kept IsLimited IsLimited-Closed found usable waiter s v
    Step-IsLimited {s = s} (times_out i k e on) v =
        connect_timed_out-Kept IsLimited IsLimited-Closed i k s v
    Step-IsLimited {s = s} (opens i k e) v = on_open-Kept IsLimited IsLimited-Closed i k s v
    Step-IsLimited {s = s} (ends num den i k code e) v =
        on_close-Kept IsLimited IsLimited-Closed num den i k code s v
    Step-IsLimited {s = s} (fails i k e) v = on_error-Kept IsLimited IsLimited-Closed i k s v
    Step-IsLimited {s = s} (hears data') v =
        on_message-Kept IsLimited IsLimited-Closed is_ping pong data' s (send-IsLimited pong s) v
    Step-IsLimited {s = s} (fires delay e) v = timer_fired-Kept IsLimited IsLimited-Closed delay s v
    Step-IsLimited {s = s} (refreshes_to num den url some') v =
        refreshed-Kept IsLimited IsLimited-Closed num den url s v
    Step-IsLimited {s = s} (refresh_fails num den some') v =
        refresh_failed-Kept IsLimited IsLimited-Closed num den s v

    Reach-IsLimited :
        {s : WebSocketTransport Url Client Server} {ms : List Client}
        {t : WebSocketTransport Url Client Server}
        → Reach is_ping pong s ms t
        → IsLimited s
        → IsLimited t
    Reach-IsLimited here v = v
    Reach-IsLimited (next path step) v = Step-IsLimited step (Reach-IsLimited path v)

    -- With a limit on the reconnects, whatever happens to a new transport, in any order: it has never
    -- announced a reconnect whose number is 0 or above the limit, and its strategy counts no more.
    pub reconnects_are_limited :
        (unsendable : Client → Bool) (url : Url) (reconnect : Bool) (timeout_ms : Option ℕ)
        (refresh : Bool) (queue : SendQueue Client) (max_delay_ms : ℕ) (codes : List ℕ)
        (ms : List Client) (t : WebSocketTransport Url Client Server)
        → Reach is_ping pong
            (new_transport unsendable url reconnect timeout_ms refresh queue
              (record { attempt = 0; max_delay_ms = max_delay_ms; max_attempts = some most })
              codes)
            ms
            t
        → (all (is_within most) t.events ≡ true) × (t.strategy.attempt ≤ most)
    unfolding new_transport
    reconnects_are_limited unsendable url reconnect timeout_ms refresh queue max_delay_ms codes ms t
          path =
        let v = Reach-IsLimited path (record { same = refl; count = omega arith; told = refl }) in
        (v.told, v.count)
