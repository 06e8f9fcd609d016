-- ===== src/Sdk/WebSocketTransport/Handlers.antt =====
-- The handlers of a transport keep what their parts keep.
use rtcforge.Prelude.{
  ℕ, ◌+◌, ◌-◌, Bool, true, false, not, ◌||◌, Option, none, some, ◌≡◌, refl, if_lem, number_key,
}
use rtcforge.Map.{contains}
use rtcforge.Sdk.ReconnectStrategy.{reset, is_exhausted}
use rtcforge.Sdk.WebSocketTransport.Defs.{
  Socket, opened, shut, Event, open_event, close_event, error_event, terminated, reconnecting,
  message, max_attempts_reached, socket_error, unusable, WebSocketTransport, is_made, is_terminal,
  emit, answer, put, flush, send, init_socket, connect, unmade, make_socket,
}
use rtcforge.Sdk.WebSocketTransport.Sockets.{
  class_settled, connect_timed_out, settle, on_open, schedule_reconnect, give_up, on_close,
  on_error, on_message, timer_fired, refresh_failed, refreshed,
}

abbrev pub is_reconnecting : {Server : Type 0} → Event Server → Bool
is_reconnecting (reconnecting n) = true
is_reconnecting _ = false

-- What each of the parts must keep.
pub record Closed {Url Client Server : Type 0}
    (Kept : WebSocketTransport Url Client Server → Type 0) : Type 0 where
  pub emits :
      (e : Event Server) (s : WebSocketTransport Url Client Server)
      → is_reconnecting e ≡ false
      → Kept s
      → Kept (emit e s)
  pub answers :
      (waiter : Option ℕ) (ok : Bool) (s : WebSocketTransport Url Client Server)
      → Kept s
      → Kept (answer waiter ok s)
  pub puts :
      (i : ℕ) (k : Socket) (s : WebSocketTransport Url Client Server) → Kept s → Kept (put i k s)
  pub connects :
      (o : Option (Option ℕ)) (s : WebSocketTransport Url Client Server)
      → Kept s
      → Kept (record s { connecting = o })
  pub exhausts :
      (s : WebSocketTransport Url Client Server) → Kept s → Kept (record s { exhausted = true })
  pub refreshes :
      (n : ℕ) (s : WebSocketTransport Url Client Server)
      → Kept s
      → Kept (record s { refreshes = n })
  pub urls :
      (url : Url) (s : WebSocketTransport Url Client Server)
      → Kept s
      → Kept (record s { url = url })
  pub resets :
      (s : WebSocketTransport Url Client Server)
      → Kept s
      → Kept (record s { strategy = reset s.strategy })
  pub makes :
      (waiter : Option ℕ) (s : WebSocketTransport Url Client Server)
      → s.closed ≡ false
      → Kept s
      → Kept (make_socket waiter s)
  pub disarms :
      (s : WebSocketTransport Url Client Server)
      → Kept s
      → Kept (record s { reconnect_timer = none })
  pub rearms :
      (delay : ℕ) (s : WebSocketTransport Url Client Server)
      → is_terminal s ≡ false
      → Kept s
      → Kept (record s { reconnect_timer = some delay })
  pub schedules :
      (num den : ℕ) (s : WebSocketTransport Url Client Server)
      → is_terminal s ≡ false
      → is_exhausted s.strategy ≡ false
      → Kept s
      → Kept (schedule_reconnect num den s)
  pub flushes : (s : WebSocketTransport Url Client Server) → Kept s → Kept (flush s)

module _ {Url Client Server : Type 0} (Kept : WebSocketTransport Url Client Server → Type 0)
    (closed : Closed Kept) where
  pub init_socket-Kept :
      (waiter : Option ℕ) (s : WebSocketTransport Url Client Server)
      → Kept s
      → Kept (init_socket waiter s)
  unfolding init_socket
  init_socket-Kept waiter s v =
      if_lem Kept (is_made s.connecting) (answer waiter false s)
        (record s { connecting = some waiter }) (λ busy. closed.answers waiter false s v)
        (λ free. closed.connects (some waiter) s v)

  pub connect-Kept :
      (id : ℕ) (s : WebSocketTransport Url Client Server) → Kept s → Kept (connect id s)
  unfolding connect
  connect-Kept id s v = init_socket-Kept (some id) s v

  unmade-Kept :
      (waiter : Option ℕ) (s : WebSocketTransport Url Client Server)
      → Kept s
      → Kept (unmade waiter s)
  unfolding unmade
  unmade-Kept none s v = closed.emits (error_event unusable) s refl v
  unmade-Kept (some id) s v = closed.answers (some id) false s v

  pub class_settled-Kept :
      (found : Bool) (usable : Url → Bool) (waiter : Option ℕ)
      (s : WebSocketTransport Url Client Server)
      → Kept s
      → Kept (class_settled found usable waiter s)
  unfolding class_settled
  class_settled-Kept found usable waiter s v =
      let s' : WebSocketTransport Url Client Server = record s { connecting = none } in
      let v' = closed.connects none s v in
      if_lem Kept (not found) (unmade waiter s') _ (λ lost. unmade-Kept waiter s' v')
        (λ got.
          if_lem Kept s.closed s' _ (λ over. v')
            (λ going.
              if_lem Kept (usable s.url) (make_socket waiter s') (unmade waiter s')
                (λ fine. closed.makes waiter s' going v') (λ bad. unmade-Kept waiter s' v')))

  pub connect_timed_out-Kept :
      (i : ℕ) (k : Socket) (s : WebSocketTransport Url Client Server)
      → Kept s
      → Kept (connect_timed_out i k s)
  unfolding connect_timed_out
  connect_timed_out-Kept i k s v =
      if_lem Kept k.settled (put i (record k { connect_timer = false }) s) _
        (λ done. closed.puts i _ s v)
        (λ waits. closed.answers k.waiter false _ (closed.puts i _ _ (closed.exhausts s v)))

  settle-Kept :
      (i : ℕ) (k : Socket) (ok : Bool) (s : WebSocketTransport Url Client Server)
      → Kept s
      → Kept (settle i k ok s)
  unfolding settle
  settle-Kept i k ok s v =
      let v' = closed.puts i (record k { connect_timer = false; settled = true }) s v in
      if_lem Kept k.settled _ _ (λ done. v') (λ waits. closed.answers k.waiter ok _ v')

  pub on_open-Kept :
      (i : ℕ) (k : Socket) (s : WebSocketTransport Url Client Server)
      → Kept s
      → Kept (on_open i k s)
  unfolding on_open
  on_open-Kept i k s v =
      settle-Kept i (record k { connect_timer = false; ready_state = opened }) true _
        (closed.flushes _ (closed.emits open_event _ refl (closed.puts i _ _ (closed.resets s v))))

  give_up-Kept :
      (code : ℕ) (s : WebSocketTransport Url Client Server) → Kept s → Kept (give_up code s)
  unfolding give_up
  give_up-Kept code s v =
      closed.emits (terminated code) _ refl
        (closed.emits (error_event max_attempts_reached) _ refl (closed.exhausts s v))

  pub on_close-Kept :
      (num den i : ℕ) (k : Socket) (code : ℕ) (s : WebSocketTransport Url Client Server)
      → Kept s
      → Kept (on_close num den i k code s)
  unfolding on_close
  on_close-Kept num den i k code s v =
      let gone : Socket = record k { connect_timer = false; ready_state = shut } in
      let s' : WebSocketTransport Url Client Server = emit (close_event code) (put i gone s) in
      let v' : Kept s' =
        closed.emits (close_event code) (put i gone s) refl (closed.puts i gone s v) in
      if_lem Kept (is_terminal s' || not s'.should_reconnect) s' _ (λ over. v')
        (λ going.
          if_lem Kept (contains code s'.non_retryable) _ _
            (λ never.
              settle-Kept i gone false _
                (closed.emits (terminated code) _ refl (closed.exhausts s' v')))
            (λ again.
              if_lem Kept (is_exhausted s'.strategy) _ (schedule_reconnect num den s')
                (λ spent. settle-Kept i gone false _ (give_up-Kept code s' v'))
                (λ left.
                  closed.schedules num den s'
                    (or_false (is_terminal s') (not s'.should_reconnect) going) left v')))
    where
      or_false : (a b : Bool) → (a || b) ≡ false → a ≡ false
      or_false true b h = h
      or_false false b h = refl

  pub on_error-Kept :
      (i : ℕ) (k : Socket) (s : WebSocketTransport Url Client Server)
      → Kept s
      → Kept (on_error i k s)
  unfolding on_error
  on_error-Kept i k s v = settle-Kept i k false _ (closed.emits (error_event socket_error) s refl v)

  pub on_message-Kept :
      (is_ping : Server → Bool) (pong : Client) (data' : Option (Option Server))
      (s : WebSocketTransport Url Client Server)
      → (Kept s → Kept (send pong s))
      → Kept s
      → Kept (on_message is_ping pong data' s)
  unfolding on_message
  on_message-Kept is_ping pong none s sent v = closed.emits (error_event unusable) s refl v
  on_message-Kept is_ping pong (some none) s sent v = v
  on_message-Kept is_ping pong (some (some m)) s sent v =
      if_lem Kept (is_ping m) (send pong s) (emit (message m) s) (λ ping. sent v)
        (λ other. closed.emits (message m) s refl v)

  pub timer_fired-Kept :
      (delay : ℕ) (s : WebSocketTransport Url Client Server) → Kept s → Kept (timer_fired delay s)
  unfolding timer_fired
  timer_fired-Kept delay s v =
      let s' : WebSocketTransport Url Client Server = record s { reconnect_timer = none } in
      let v' = closed.disarms s v in
      if_lem Kept (is_terminal s) s' _ (λ over. v')
        (λ going.
          if_lem Kept (is_made s.connecting) (record s' { reconnect_timer = some delay }) _
            (λ busy. closed.rearms delay s' going v')
            (λ free.
              if_lem Kept s.token_refresh (record s' { refreshes = s.refreshes + 1 })
                (init_socket none s') (λ asks. closed.refreshes (s.refreshes + 1) s' v')
                (λ direct. init_socket-Kept none s' v')))

  pub refresh_failed-Kept :
      (num den : ℕ) (s : WebSocketTransport Url Client Server)
      → Kept s
      → Kept (refresh_failed num den s)
  unfolding refresh_failed
  refresh_failed-Kept num den s v =
      let s' : WebSocketTransport Url Client Server = record s { refreshes = s.refreshes - 1 } in
      let v' = closed.refreshes (s.refreshes - 1) s v in
      if_lem Kept (is_terminal s') s' _ (λ over. v')
        (λ going.
          if_lem Kept (is_exhausted s'.strategy) (give_up 1006 s') (schedule_reconnect num den s')
            (λ spent. give_up-Kept 1006 s' v') (λ left. closed.schedules num den s' going left v'))

  pub refreshed-Kept :
      (num den : ℕ) (url : Option Url) (s : WebSocketTransport Url Client Server)
      → Kept s
      → Kept (refreshed num den url s)
  unfolding refreshed
  refreshed-Kept num den none s v = refresh_failed-Kept num den s v
  refreshed-Kept num den (some url) s v =
      init_socket-Kept none _ (closed.urls url _ (closed.refreshes (s.refreshes - 1) s v))
