-- ===== src/Sfu/UdpGossipTransport/Wire.antt =====
-- UdpGossipTransport.ts: the datagrams that are sent and those that are heard.
use rtcforge.Core.HashRing.Cyrb53.{units_key}
use rtcforge.Prelude.{
  ℕ, ◌+◌, Bool, true, not, List, [], ◌∷◌, ◌++◌, Option, none, some, ltb, ◌==◌, ◌===◌, if◌then◌else◌,
  length, take, drop, text_key, number_key,
}
use rtcforge.Sfu.UdpGossipTransport.Messages.{
  Json, Message, Platform, UdpGossipTransport, mac_len, ts_len, max_datagram, parse_address,
  sanitize,
}

module _ {Number : Type 0} where
  module _ (udp : Platform Number) where
    -- The payload of a message that is not the last one.
    abbrev pub sealed : Option (List ℕ) → ℕ → Option (List ℕ) → Option (List ℕ)
    sealed secret now none = none
    sealed none now (some json) = some json
    sealed (some key) now (some json) =
        let signed = udp.timestamp now ++ json in some (udp.hmac key signed ++ signed)

    unfoldable pub payload_of : Option (List ℕ) → ℕ → Message Number → Option (List ℕ)
    payload_of secret now m = sealed secret now (udp.stringify m)

    abbrev pub cached : ℕ → Option (ℕ × List ℕ) → Option (List ℕ)
    cached i none = none
    cached i (some (j, payload)) = if i == j then some payload else none

    abbrev pub first_of : Option (List ℕ) → Option (List ℕ) → Option (List ℕ)
    first_of none o = o
    first_of (some payload) o = some payload

    unfoldable pub send_payload :
        List ℕ → ℕ → ℕ → Option (List ℕ) → UdpGossipTransport Number → UdpGossipTransport Number
    send_payload host port i none s = s
    send_payload host port i (some payload) s =
        let s' = record s { last_payload = some (i, payload) } in
        if ltb max_datagram (length payload)
        then s'
        else record s' { sent = s.sent ++ ((host, port, payload) ∷ []) }

    unfoldable pub send_to :
        List ℕ × Option ℕ
        → ℕ
        → Message Number
        → ℕ
        → UdpGossipTransport Number
        → UdpGossipTransport Number
    unfolding send_payload payload_of
    send_to (host, none) i m now s = s
    send_to (host, some port) i m now s =
        send_payload host port i (first_of (cached i s.last_payload) (payload_of s.secret now m)) s

    unfoldable pub send :
        List ℕ → ℕ → Message Number → ℕ → UdpGossipTransport Number → UdpGossipTransport Number
    unfolding send_to parse_address
    send address i m now s =
        if s.closed then s else send_to (parse_address udp.port_of address) i m now s

    -- `Math.abs(Date.now() - ts) > this._replayWindowMs`
    unfoldable pub is_stale : ℕ → List ℕ → ℕ → Bool
    is_stale now ts window =
        udp.is_greater (udp.abs (udp.subtract (udp.of_ℕ now) (udp.read_double ts)))
          (udp.of_ℕ window)

    -- The JSON of a datagram, where it is not refused.
    unfoldable pub body_of : Option (List ℕ) → ℕ → ℕ → List ℕ → Option (List ℕ)
    unfolding is_stale
    body_of none window now data' = some data'
    body_of (some key) window now data' =
        let signed = drop mac_len data' in
        if ltb (length data') (mac_len + ts_len)
        then none
        else if not (take mac_len data' === udp.hmac key signed)
        then none
        else if is_stale now (take ts_len signed) window
        then none
        else some (drop ts_len signed)

    abbrev pub parsed : Option (List ℕ) → Option (Json Number)
    parsed none = none
    parsed (some body) = udp.parse body

    abbrev pub sanitized : Option (Json Number) → Option (Message Number)
    sanitized none = none
    sanitized (some j) = sanitize udp j

    unfoldable pub handle :
        Option (Message Number) → UdpGossipTransport Number → UdpGossipTransport Number
    handle none s = s
    handle (some m) s = record s { received = s.received ++ (m ∷ []) }

    -- `_onDatagram`
    unfoldable pub on_datagram : ℕ → List ℕ → UdpGossipTransport Number → UdpGossipTransport Number
    unfolding handle sanitize body_of
    on_datagram now data' s =
        if not s.has_handler
        then s
        else handle (sanitized (parsed (body_of s.secret s.replay_window_ms now data'))) s

  abbrev pub on_receive : UdpGossipTransport Number → UdpGossipTransport Number
  on_receive s = record s { has_handler = true }

  abbrev pub close : UdpGossipTransport Number → UdpGossipTransport Number
  close s = record s { closed = true }
