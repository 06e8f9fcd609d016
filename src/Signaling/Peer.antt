-- ===== src/Signaling/Peer.antt =====
-- packages/signaling/src/Peer.ts: a connected client. The WebSocket is an argument, as is the clock.
pub mod Truncation
pub mod Utf16
use rtcforge.Prelude.{
  ℕ, ◌+◌, ◌-◌, ◌*◌, ◌/◌, ◌%◌, ◌≤◌, Bool, true, false, not, List, [], ◌∷◌, ◌++◌, Option, none, some,
  String, leb, ltb, if◌then◌else◌,
}
use rtcforge.Signaling.RateLimiter.{RateLimiter, allow}
use rtcforge.Signaling.Protocol.{
  Dictionary, ServerMessage, ClientMessage, policy_violation, send_buffer_overflow,
}
use Truncation.{truncate_utf8}
use Utf16.{utf16}

-- The `ws` library's socket: whether it is open, what is buffered, `send` with whether it throws, and
-- `close` with a code and a reason.
pub record WebSocket (D S : Type 0) : Type 0 where
  pub is_open : S → Bool
  pub buffered_amount : S → ℕ
  pub send : ServerMessage D → S → S × Bool
  pub close : ℕ → List ℕ → S → S

pub data PeerError : Type 0 where
  buffer_overflow send_failed socket_error json_error schema_error : PeerError

pub data PeerEvent (D : Type 0) : Type 0 where
  disconnected : ℕ → List ℕ → PeerEvent D
  signal : String → D → PeerEvent D
  broadcast : String → Option D → PeerEvent D
  error : PeerError → PeerEvent D
  rate_limit_exceeded : PeerEvent D
  pong : PeerEvent D

-- `conn` tells two connections of the same `id` apart: it stands for the object's identity.
pub record Peer (D S : Type 0) : Type 0 where
  pub conn : ℕ
  pub id : String
  pub metadata : Dictionary
  pub role : String
  pub last_pong : ℕ
  pub admitted : Bool
  pub ws : S
  pub rate_limiter : Option RateLimiter
  pub max_buffered_bytes : ℕ
  pub events : List (PeerEvent D)

pub record PeerOptions (S : Type 0) : Type 0 where
  pub id : String
  pub ws : S
  pub role : Option String
  pub metadata : Option Dictionary
  pub max_messages_per_second : Option ℕ
  pub max_buffered_bytes : Option ℕ

abbrev pub default_max_buffered_bytes : ℕ
default_max_buffered_bytes = 16777216

abbrev pub or_value {ℓ} : {A : Type ℓ} → Option A → A → A
or_value none b = b
or_value (some a) b = a

-- `new RateLimiter(max)`, whose window is a second.
abbrev pub limiter : Option ℕ → Option RateLimiter
limiter none = none
limiter (some max) = some (record { hits = []; max_per_window = max; window_ms = 1000 })

-- What `JSON.parse` and the schema make of a frame.
pub data Parsed (D : Type 0) : Type 0 where
  bad_json bad_schema : Parsed D
  message : ClientMessage D → Parsed D

module _ {D S : Type 0} where
  unfoldable pub new_peer : ℕ → ℕ → PeerOptions S → Peer D S
  new_peer conn now opts = record {
    conn = conn;
    id = opts.id;
    metadata = or_value opts.metadata [];
    role = or_value opts.role "";
    last_pong = now;
    admitted = false;
    ws = opts.ws;
    rate_limiter = limiter opts.max_messages_per_second;
    max_buffered_bytes = or_value opts.max_buffered_bytes default_max_buffered_bytes;
    events = [];
  }

  unfoldable pub set_role : String → Peer D S → Peer D S
  set_role role p = record p { role = role }

  unfoldable pub admit : Peer D S → Peer D S
  admit p = record p { admitted = true }

  unfoldable pub is_alive : ℕ → Peer D S → Bool
  is_alive deadline p = leb deadline p.last_pong

  unfoldable pub emit : PeerEvent D → Peer D S → Peer D S
  emit e p = record p { events = p.events ++ (e ∷ []) }

  module _ (ws : WebSocket D S) where
    unfoldable pub disconnect : ℕ → List ℕ → Peer D S → Peer D S
    unfolding truncate_utf8
    disconnect code reason p = record p { ws = ws.close code (truncate_utf8 123 reason) p.ws }

    -- `send`, and whether it throws.
    unfoldable pub send : ServerMessage D → Peer D S → Peer D S × Bool
    unfolding emit disconnect utf16
    send msg p =
        if not (ws.is_open p.ws)
        then (p, true)
        else if ltb p.max_buffered_bytes (ws.buffered_amount p.ws)
        then (
          disconnect policy_violation (utf16 send_buffer_overflow)
              (emit (PeerEvent.error buffer_overflow) p),
          false,
        )
        else let (socket, threw) = ws.send msg p.ws in
          let sent = record p { ws = socket } in
          if threw then (emit (PeerEvent.error send_failed) sent, true) else (sent, false)

    unfoldable pub ping : Peer D S → Peer D S
    unfolding send
    ping p = (send ServerMessage.ping p).0

  -- The answer to a frame that is let through, with the call of `onSignal`.
  unfoldable pub dispatch : ℕ → Parsed D → Peer D S → Peer D S × Option (String × D)
  unfolding emit
  dispatch now bad_json p = (emit (PeerEvent.error json_error) p, none)
  dispatch now bad_schema p = (emit (PeerEvent.error schema_error) p, none)
  dispatch now (message (ClientMessage.signal to payload)) p =
      if not p.admitted
      then (p, none)
      else (emit (PeerEvent.signal to payload) p, some (to, payload))
  dispatch now (message ClientMessage.pong) p =
      (emit PeerEvent.pong (record p { last_pong = now }), none)
  dispatch now (message (ClientMessage.broadcast channel payload)) p =
      if not p.admitted then (p, none) else (emit (PeerEvent.broadcast channel payload) p, none)

  unfoldable pub handle_limited :
      ℕ → Parsed D → Option RateLimiter → Peer D S → Peer D S × Option (String × D)
  unfolding dispatch emit allow
  handle_limited now parsed none p = dispatch now parsed (record p { last_pong = now })
  handle_limited now parsed (some limiter) p =
      let (limiter', allowed) = allow now limiter in
      let counted = record p { rate_limiter = some limiter' } in
      if not allowed
      then (emit PeerEvent.rate_limit_exceeded counted, none)
      else dispatch now parsed (record counted { last_pong = now })

  unfoldable pub handle_message : ℕ → Parsed D → Peer D S → Peer D S × Option (String × D)
  unfolding handle_limited
  handle_message now parsed p = handle_limited now parsed p.rate_limiter p
