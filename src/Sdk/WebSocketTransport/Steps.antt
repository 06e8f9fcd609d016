-- ===== src/Sdk/WebSocketTransport/Steps.antt =====
-- WebSocketTransport.ts: everything that can happen to a transport, in any order. The list of a step
-- holds the messages that it takes in: those given to `send` that it neither drops nor refuses, and for
-- which it does not throw.
use rtcforge.Prelude.{
  ℕ, ◌<◌, Bool, true, false, List, [], ◌∷◌, ◌++◌, Option, none, some, ◌≡◌, leb, if◌then◌else◌,
  length, get_elem?,
}
use rtcforge.Sdk.WebSocketTransport.Defs.{
  Socket, WebSocketTransport, is_terminal, open_socket, send, flush, close, connect,
}
use rtcforge.Sdk.WebSocketTransport.Sockets.{
  class_settled, connect_timed_out, on_open, on_close, on_error, on_message, timer_fired, refreshed,
  refresh_failed,
}

module _ {Url Client Server : Type 0} where
  abbrev pub room_for : Option ℕ → Client → WebSocketTransport Url Client Server → Bool
  room_for none m s = if leb s.queue.max_size (length s.queue.items) then false else true
  room_for (some i) m s = if s.unsendable m then false else true

  abbrev pub accepted : Client → WebSocketTransport Url Client Server → List Client
  accepted m s = if is_terminal s then [] else if room_for (open_socket s) m s then m ∷ [] else []

  module _ (is_ping : Server → Bool) (pong : Client) where
    abbrev pub replied : Option (Option Server) → WebSocketTransport Url Client Server → List Client
    replied none s = []
    replied (some none) s = []
    replied (some (some m)) s = if is_ping m then accepted pong s else []

    pub data Step (s : WebSocketTransport Url Client Server)
        : List Client → WebSocketTransport Url Client Server → Type 0 where
      sends : (m : Client) → Step s (accepted m s) (send m s)
      flushes : Step s [] (flush s)
      closes : Step s [] (close s)
      connects : (id : ℕ) → Step s [] (connect id s)
      settles :
          (found : Bool) (usable : Url → Bool) (waiter : Option ℕ)
          → s.connecting ≡ some waiter
          → Step s [] (class_settled found usable waiter s)
      times_out :
          (i : ℕ) (k : Socket)
          → get_elem? s.sockets i ≡ some k
          → k.connect_timer ≡ true
          → Step s [] (connect_timed_out i k s)
      opens : (i : ℕ) (k : Socket) → get_elem? s.sockets i ≡ some k → Step s [] (on_open i k s)
      ends :
          (num den i : ℕ) (k : Socket) (code : ℕ)
          → get_elem? s.sockets i ≡ some k
          → Step s [] (on_close num den i k code s)
      fails : (i : ℕ) (k : Socket) → get_elem? s.sockets i ≡ some k → Step s [] (on_error i k s)
      hears :
          (data' : Option (Option Server))
          → Step s (replied data' s) (on_message is_ping pong data' s)
      fires : (delay : ℕ) → s.reconnect_timer ≡ some delay → Step s [] (timer_fired delay s)
      refreshes_to :
          (num den : ℕ) (url : Option Url) → 0 < s.refreshes → Step s [] (refreshed num den url s)
      refresh_fails : (num den : ℕ) → 0 < s.refreshes → Step s [] (refresh_failed num den s)

    pub data Reach (s : WebSocketTransport Url Client Server)
        : List Client → WebSocketTransport Url Client Server → Type 0 where
      here : Reach s [] s
      next :
          {ms ns : List Client} {t u : WebSocketTransport Url Client Server}
          → Reach s ms t
          → Step t ns u
          → Reach s (ms ++ ns) u
