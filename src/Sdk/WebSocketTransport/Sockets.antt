-- ===== src/Sdk/WebSocketTransport/Sockets.antt =====
-- WebSocketTransport.ts: what a socket, a timer and the token service bring about.
use rtcforge.Prelude.{
  ℕ, ◌+◌, ◌-◌, Bool, true, false, not, ◌||◌, Option, none, some, if◌then◌else◌, number_key,
}
use rtcforge.Map.{contains}
use rtcforge.Sdk.ReconnectStrategy.{reset, is_exhausted, next_delay}
use rtcforge.Sdk.WebSocketTransport.Defs.{
  Socket, WebSocketTransport, opened, shut, open_event, close_event, error_event, terminated,
  reconnecting, message, max_attempts_reached, socket_error, unusable, answer, emit, flush,
  init_socket, is_made, is_terminal, make_socket, put, send, unmade,
}

module _ {Url Client Server : Type 0} where
  -- `getWsClass` has settled: `found` whether it resolved, `usable` whether `new WS(url)` did not throw.
  unfoldable pub class_settled :
      Bool
      → (Url → Bool)
      → Option ℕ
      → WebSocketTransport Url Client Server
      → WebSocketTransport Url Client Server
  unfolding unmade make_socket
  class_settled found usable waiter s =
      let s' = record s { connecting = none } in
      if not found
      then unmade waiter s'
      else if s.closed
      then s'
      else if usable s.url
      then make_socket waiter s'
      else unmade waiter s'

  unfoldable pub connect_timed_out :
      ℕ → Socket → WebSocketTransport Url Client Server → WebSocketTransport Url Client Server
  unfolding answer put
  connect_timed_out i k s =
      let fired = record k { connect_timer = false } in
      if k.settled
      then put i fired s
      else answer k.waiter false (
          put i (record fired { settled = true; ready_state = shut })
            (record s { exhausted = true }))

  -- `if (!settled) { settled = true; callback }`, with the connect timer cleared.
  unfoldable pub settle :
      ℕ
      → Socket
      → Bool
      → WebSocketTransport Url Client Server
      → WebSocketTransport Url Client Server
  unfolding answer put
  settle i k ok s =
      let s' = put i (record k { connect_timer = false; settled = true }) s in
      if k.settled then s' else answer k.waiter ok s'

  unfoldable pub on_open :
      ℕ → Socket → WebSocketTransport Url Client Server → WebSocketTransport Url Client Server
  unfolding reset put emit flush settle
  on_open i k s =
      let opens = record k { connect_timer = false; ready_state = opened } in
      settle i opens true
        (flush (emit open_event (put i opens (record s { strategy = reset s.strategy }))))

  unfoldable pub schedule_reconnect :
      ℕ → ℕ → WebSocketTransport Url Client Server → WebSocketTransport Url Client Server
  unfolding next_delay emit
  schedule_reconnect num den s =
      let (strategy, delay) = next_delay num den s.strategy in
      record (emit (reconnecting strategy.attempt) s) {
        strategy = strategy;
        reconnect_timer = some delay;
      }

  unfoldable pub give_up :
      ℕ → WebSocketTransport Url Client Server → WebSocketTransport Url Client Server
  unfolding emit
  give_up code s =
      emit (terminated code)
        (emit (error_event max_attempts_reached) (record s { exhausted = true }))

  unfoldable pub on_close :
      ℕ
      → ℕ
      → ℕ
      → Socket
      → ℕ
      → WebSocketTransport Url Client Server
      → WebSocketTransport Url Client Server
  unfolding put emit settle is_exhausted give_up schedule_reconnect
  on_close num den i k code s =
      let gone = record k { connect_timer = false; ready_state = shut } in
      let s' = emit (close_event code) (put i gone s) in
      if is_terminal s' || not s'.should_reconnect
      then s'
      else if contains code s'.non_retryable
      then settle i gone false (emit (terminated code) (record s' { exhausted = true }))
      else if is_exhausted s'.strategy
      then settle i gone false (give_up code s')
      else schedule_reconnect num den s'

  unfoldable pub on_error :
      ℕ → Socket → WebSocketTransport Url Client Server → WebSocketTransport Url Client Server
  unfolding emit settle
  on_error i k s = settle i k false (emit (error_event socket_error) s)

  -- A frame that is no JSON, one that the schema refuses, or a message.
  unfoldable pub on_message :
      (Server → Bool)
      → Client
      → Option (Option Server)
      → WebSocketTransport Url Client Server
      → WebSocketTransport Url Client Server
  unfolding emit send
  on_message is_ping pong none s = emit (error_event unusable) s
  on_message is_ping pong (some none) s = s
  on_message is_ping pong (some (some m)) s = if is_ping m then send pong s else emit (message m) s

  unfoldable pub timer_fired :
      ℕ → WebSocketTransport Url Client Server → WebSocketTransport Url Client Server
  unfolding init_socket
  timer_fired delay s =
      let s' = record s { reconnect_timer = none } in
      if is_terminal s
      then s'
      else if is_made s.connecting
      then record s' { reconnect_timer = some delay }
      else if s.token_refresh
      then record s' { refreshes = s.refreshes + 1 }
      else init_socket none s'

  -- The `catch` of a token refresh.
  unfoldable pub refresh_failed :
      ℕ → ℕ → WebSocketTransport Url Client Server → WebSocketTransport Url Client Server
  unfolding is_exhausted give_up schedule_reconnect
  refresh_failed num den s =
      let s' = record s { refreshes = s.refreshes - 1 } in
      if is_terminal s'
      then s'
      else if is_exhausted s'.strategy
      then give_up 1006 s'
      else schedule_reconnect num den s'

  -- A token has come: `none` where the URL cannot be parsed.
  unfoldable pub refreshed :
      ℕ
      → ℕ
      → Option Url
      → WebSocketTransport Url Client Server
      → WebSocketTransport Url Client Server
  unfolding refresh_failed init_socket
  refreshed num den none s = refresh_failed num den s
  refreshed num den (some url) s =
      init_socket none (record s { refreshes = s.refreshes - 1; url = url })
