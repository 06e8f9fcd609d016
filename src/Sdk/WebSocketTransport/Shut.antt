-- ===== src/Sdk/WebSocketTransport/Shut.antt =====
-- A transport that its user has closed.
use rtcforge.Prelude.{
  ℕ, zero, suc, Bool, true, List, [], ◌∷◌, ◌++◌, Option, none, some, ◌≡◌, refl, ap, ◌∙◌, arith,
  if_lem, length, get_elem?, number_key,
}
use mathlib.Core.List.{append-nil}
use rtcforge.Sdk.SendQueue.{Sent}
use rtcforge.Sdk.SendQueue.Fifo.{empty-drain}
use rtcforge.Sdk.ReconnectStrategy.{reset}
use rtcforge.Sdk.WebSocketTransport.Defs.{
  Socket, shut, WebSocketTransport, put_socket, tagged, is_terminal, open_socket, emit, answer, put,
  flush_to, flush, send, shut_among, close, make_socket,
}
use rtcforge.Sdk.WebSocketTransport.Steps.{
  accepted, replied, Step, Reach, here, next, sends, flushes, closes, connects, settles, times_out,
  opens, ends, fails, hears, fires, refreshes_to, refresh_fails,
}
use rtcforge.Sdk.WebSocketTransport.Handlers.{
  Closed, connect-Kept, class_settled-Kept, connect_timed_out-Kept, on_open-Kept, on_close-Kept,
  on_error-Kept, on_message-Kept, timer_fired-Kept, refresh_failed-Kept, refreshed-Kept,
}

length-put_socket : (i : ℕ) (k : Socket) (ls : List Socket) → length (put_socket i k ls) ≡ length ls
length-put_socket i k [] = refl
length-put_socket zero k (l ∷ ls) = refl
length-put_socket (suc i) k (l ∷ ls) = ap suc (length-put_socket i k ls)

length-shut_at :
    (i : ℕ) (o : Option Socket) (ls : List Socket)
    → length (elim o as (λ _. List Socket) [
      | none ↦ ls
      | some k ↦ put_socket i (record k { ready_state = shut }) ls
    ])
      ≡ length ls
length-shut_at i none ls = refl
length-shut_at i (some k) ls = length-put_socket i _ ls

length-shut_among : (o : Option ℕ) (ls : List Socket) → length (shut_among o ls) ≡ length ls
length-shut_among none ls = refl
length-shut_among (some i) ls = length-shut_at i (get_elem? ls i) ls

-- It is closed, its queue is empty, no reconnect is due, and it has sent and made no more than this.
record Stopped {Client : Type 0} (wire : List (ℕ × Client)) (made : ℕ) (closed : Bool)
    (items : List Client) (due : Option ℕ) (wire' : List (ℕ × Client)) (made' : ℕ) : Type 0 where
  over : closed ≡ true
  empty : items ≡ []
  idle : due ≡ none
  sent : wire' ≡ wire
  count : made' ≡ made

module _ {Url Client Server : Type 0} where
  abbrev IsShut : List (ℕ × Client) → ℕ → WebSocketTransport Url Client Server → Type 0
  IsShut wire made s =
      Stopped wire made s.closed s.queue.items s.reconnect_timer s.wire (length s.sockets)

  module _ (wire : List (ℕ × Client)) (made : ℕ) where
    answer-IsShut :
        (waiter : Option ℕ) (ok : Bool) (s : WebSocketTransport Url Client Server)
        → IsShut wire made s
        → IsShut wire made (answer waiter ok s)
    unfolding answer
    answer-IsShut none ok s v = v
    answer-IsShut (some id) ok s v = v

    flush_to-IsShut :
        (o : Option ℕ) (s : WebSocketTransport Url Client Server)
        → IsShut wire made s
        → IsShut wire made (flush_to o s)
    unfolding flush_to
    flush_to-IsShut none s v = v
    flush_to-IsShut (some i) s v =
        let throwing : Client → Sent Client =
          λ m. record { reentrant = []; threw = s.unsendable m } in
        record {
          over = v.over;
          empty = ap (λ d. d.queue.items) (empty-drain throwing s.queue v.empty);
          idle = v.idle;
          sent =
              ap (λ d. s.wire ++ tagged i d.transmitted) (empty-drain throwing s.queue v.empty)
              ∙ append-nil s.wire
              ∙ v.sent;
          count = v.count;
        }

    IsShut-Closed : Closed {Url = Url} {Client = Client} {Server = Server} (IsShut wire made)
    unfolding emit put make_socket flush reset
    IsShut-Closed = record {
      emits = λ e s other v. v;
      answers = answer-IsShut;
      puts = λ i k s v. record {
        over = v.over;
        empty = v.empty;
        idle = v.idle;
        sent = v.sent;
        count = length-put_socket i k s.sockets ∙ v.count;
      };
      connects = λ o s v. v;
      exhausts = λ s v. v;
      refreshes = λ n s v. v;
      urls = λ url s v. v;
      resets = λ s v. v;
      makes = λ waiter s going v. absurd (ground (arith, v.over, going));
      disarms = λ s v. record {
        over = v.over;
        empty = v.empty;
        idle = refl;
        sent = v.sent;
        count = v.count;
      };
      rearms = λ delay s going v. absurd (ground (arith, v.over, going));
      schedules = λ num den s going left v. absurd (ground (arith, v.over, going));
      flushes = λ s v. flush_to-IsShut (open_socket s) s v;
    }

    send-IsShut :
        (m : Client) (s : WebSocketTransport Url Client Server)
        → IsShut wire made s
        → IsShut wire made (send m s)
    unfolding send
    send-IsShut m s v =
        if_lem (IsShut wire made) (is_terminal s) s _ (λ over. v)
          (λ going. absurd (ground (arith, v.over, going)))

    close-IsShut :
        (s : WebSocketTransport Url Client Server) → IsShut wire made s → IsShut wire made (close s)
    unfolding close
    close-IsShut s v = record {
      over = refl;
      empty = refl;
      idle = refl;
      sent = v.sent;
      count = length-shut_among s.ws s.sockets ∙ v.count;
    }

    accepted-IsShut :
        (m : Client) (s : WebSocketTransport Url Client Server)
        → IsShut wire made s
        → accepted m s ≡ []
    accepted-IsShut m s v = rw v.over refl

    module _ (is_ping : Server → Bool) (pong : Client) where
      replied-IsShut :
          (data' : Option (Option Server)) (s : WebSocketTransport Url Client Server)
          → IsShut wire made s
          → replied is_ping pong data' s ≡ []
      replied-IsShut none s v = refl
      replied-IsShut (some none) s v = refl
      replied-IsShut (some (some m)) s v =
          if_lem (λ (ms : List Client). ms ≡ []) (is_ping m) (accepted pong s) []
            (λ ping. accepted-IsShut pong s v) (λ other. refl)

      Step-IsShut :
          {ms : List Client} {s t : WebSocketTransport Url Client Server}
          → Step is_ping pong s ms t
          → IsShut wire made s
          → (ms ≡ []) × IsShut wire made t
      Step-IsShut {s = s} (sends m) v = (accepted-IsShut m s v, send-IsShut m s v)
      Step-IsShut {s = s} flushes v = (refl, IsShut-Closed.flushes s v)
      Step-IsShut {s = s} closes v = (refl, close-IsShut s v)
      Step-IsShut {s = s} (connects id) v =
          (refl, connect-Kept (IsShut wire made) IsShut-Closed id s v)
      Step-IsShut {s = s} (settles found usable waiter e) v =
          (refl, class_settled-Kept (IsShut wire made) IsShut-Closed found usable waiter s v)
      Step-IsShut {s = s} (times_out i k e on) v =
          (refl, connect_timed_out-Kept (IsShut wire made) IsShut-Closed i k s v)
      Step-IsShut {s = s} (opens i k e) v =
          (refl, on_open-Kept (IsShut wire made) IsShut-Closed i k s v)
      Step-IsShut {s = s} (ends num den i k code e) v =
          (refl, on_close-Kept (IsShut wire made) IsShut-Closed num den i k code s v)
      Step-IsShut {s = s} (fails i k e) v =
          (refl, on_error-Kept (IsShut wire made) IsShut-Closed i k s v)
      Step-IsShut {s = s} (hears data') v = (
        replied-IsShut data' s v,
        on_message-Kept (IsShut wire made) IsShut-Closed is_ping pong data' s (send-IsShut pong s)
            v,
      )
      Step-IsShut {s = s} (fires delay e) v =
          (refl, timer_fired-Kept (IsShut wire made) IsShut-Closed delay s v)
      Step-IsShut {s = s} (refreshes_to num den url some') v =
          (refl, refreshed-Kept (IsShut wire made) IsShut-Closed num den url s v)
      Step-IsShut {s = s} (refresh_fails num den some') v =
          (refl, refresh_failed-Kept (IsShut wire made) IsShut-Closed num den s v)

      Reach-IsShut :
          {s : WebSocketTransport Url Client Server} {ms : List Client}
          {t : WebSocketTransport Url Client Server}
          → Reach is_ping pong s ms t
          → IsShut wire made s
          → (ms ≡ []) × IsShut wire made t
      Reach-IsShut here v = (refl, v)
      Reach-IsShut (next path step) v =
          let (none_before, v') = Reach-IsShut path v in
          let (none_now, v'') = Step-IsShut step v' in (rw (none_before, none_now) refl, v'')

  -- After `close`, whatever happens, in any order, the transport takes no message, hands none to a
  -- socket, makes no socket, and has no reconnect due.
  pub close_ends_all :
      (is_ping : Server → Bool) (pong : Client) (s t : WebSocketTransport Url Client Server)
      (ms : List Client)
      → Reach is_ping pong (close s) ms t
      → (ms ≡ [])
        × (t.wire ≡ s.wire)
        × (length t.sockets ≡ length s.sockets)
        × (t.reconnect_timer ≡ none)
  unfolding close
  close_ends_all is_ping pong s t ms path =
      let shut' : IsShut s.wire (length s.sockets) (close s) = record {
        over = refl;
        empty = refl;
        idle = refl;
        sent = refl;
        count = length-shut_among s.ws s.sockets;
      } in
      let (nothing, v) = Reach-IsShut s.wire (length s.sockets) is_ping pong path shut' in
      (nothing, v.sent, v.count, v.idle)
