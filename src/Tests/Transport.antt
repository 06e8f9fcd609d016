-- ===== src/Tests/Transport.antt =====
-- A transport that connects, sends a message before and one after its socket opens, and loses the socket.
use rtcforge.Prelude.{
  ℕ, ◌≤◌, ◌==◌, Bool, true, false, List, [], ◌∷◌, ◌++◌, none, some, ◌≡◌, refl, all, length,
  number_key,
}
use rtcforge.Map.{contains}
use rtcforge.Sdk.SendQueue.{size}
use rtcforge.Sdk.WebSocketTransport.Defs.{
  Socket, waiting, opened, WebSocketTransport, new_transport, connect, send, close,
}
use rtcforge.Sdk.WebSocketTransport.Sockets.{class_settled, on_open, on_close}
use rtcforge.Sdk.WebSocketTransport.Steps.{Reach, connects, settles, sends, opens, ends}
use rtcforge.Sdk.WebSocketTransport.Shut.{close_ends_all}
use rtcforge.Sdk.WebSocketTransport.Attempts.{is_within, reconnects_are_limited}
use rtcforge.Sdk.WebSocketTransport.Order.{taken_in, messages_stay_in_order}

abbrev none_bad : ℕ → Bool
none_bad m = false

abbrev fresh : WebSocketTransport ℕ ℕ ℕ
fresh =
    new_transport none_bad 9 true none false (record { items = []; max_size = 2 })
      (record { attempt = 0; max_delay_ms = 8000; max_attempts = some 1 }) (1008 ∷ [])

abbrev waiting_socket : Socket
waiting_socket = record {
  ready_state = waiting;
  settled = false;
  connect_timer = true;
  waiter = some 1;
}

abbrev open_socket' : Socket
open_socket' = record {
  ready_state = opened;
  settled = true;
  connect_timer = false;
  waiter = some 1;
}

abbrev any_url : ℕ → Bool
any_url url = true

abbrev is_zero : ℕ → Bool
is_zero n = n == 0

abbrev queued : WebSocketTransport ℕ ℕ ℕ
queued = send 5 (class_settled true any_url (some 1) (connect 1 fresh))

abbrev running : WebSocketTransport ℕ ℕ ℕ
running = send 6 (on_open 0 waiting_socket queued)

abbrev lost : WebSocketTransport ℕ ℕ ℕ
lost = on_close 0 1 0 open_socket' 1006 running

abbrev path : Reach is_zero 7 fresh (5 ∷ 6 ∷ []) lost
unfolding new_transport connect class_settled send on_open on_close size contains
path =
    Reach.next
      (Reach.next
        (Reach.next
          (Reach.next
            (Reach.next (Reach.next Reach.here (connects 1)) (settles true any_url (some 1) refl))
            (sends 5))
          (opens 0 waiting_socket refl))
        (sends 6))
      (ends 0 1 0 open_socket' 1006 refl)

close_ends_all_example :
    (◌≡◌ {A = List ℕ} [] [])
    × ((send 8 (close running)).wire ≡ running.wire)
    × (length (send 8 (close running)).sockets ≡ length running.sockets)
    × ((send 8 (close running)).reconnect_timer ≡ none)
unfolding close
close_ends_all_example =
    close_ends_all is_zero 7 running (send 8 (close running)) [] (Reach.next Reach.here (sends 8))

reconnects_are_limited_example :
    (all (is_within 1) lost.events ≡ true) × (lost.strategy.attempt ≤ 1)
unfolding new_transport
reconnects_are_limited_example =
    reconnects_are_limited 1 is_zero 7 none_bad 9 true none false
      (record { items = []; max_size = 2 }) 8000 (1008 ∷ []) (5 ∷ 6 ∷ []) lost path

messages_stay_in_order_example : taken_in lost ≡ taken_in fresh ++ (5 ∷ 6 ∷ [])
unfolding new_transport connect class_settled send on_open on_close size contains
messages_stay_in_order_example =
    messages_stay_in_order is_zero 7 fresh lost (5 ∷ 6 ∷ []) path refl (λ m. refl)
