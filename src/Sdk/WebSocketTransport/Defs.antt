-- ===== src/Sdk/WebSocketTransport/Defs.antt =====
-- WebSocketTransport.ts: the state and the methods. `_connecting` is kept with the callbacks of the
-- connection under way: the number of the `connect` call that waits for it, if there is one.
-- `reconnect_timer` has the delay of the timer while it is armed.
use rtcforge.Prelude.{
  ℕ, zero, suc, Bool, true, false, not, ◌||◌, List, [], ◌∷◌, ◌++◌, Option, none, some, ltb, ◌==◌,
  if◌then◌else◌, length, get_elem?, number_key,
}
use rtcforge.Sdk.SendQueue.{SendQueue, size, enqueue, drain, clear}
use rtcforge.Sdk.ReconnectStrategy.{ReconnectStrategy}

pub data ReadyState : Type 0 where
  waiting opened shut : ReadyState

pub data TransportError : Type 0 where
  queue_full max_attempts_reached socket_error unusable : TransportError

pub data Event (Server : Type 0) : Type 0 where
  open_event : Event Server
  close_event : ℕ → Event Server
  error_event : TransportError → Event Server
  terminated : ℕ → Event Server
  reconnecting : ℕ → Event Server
  message : Server → Event Server

-- A socket that `initSocket` made, with the variables that its callbacks share.
pub record Socket : Type 0 where
  pub ready_state : ReadyState
  pub settled : Bool
  pub connect_timer : Bool
  pub waiter : Option ℕ

-- `unsendable` are the messages for which `ws.send(JSON.stringify(msg))` throws; `wire` is what was handed
-- to which socket.
pub record WebSocketTransport (Url Client Server : Type 0) : Type 0 where
  pub url : Url
  pub should_reconnect : Bool
  pub connect_timeout_ms : Option ℕ
  pub token_refresh : Bool
  pub queue : SendQueue Client
  pub strategy : ReconnectStrategy
  pub non_retryable : List ℕ
  pub unsendable : Client → Bool
  pub closed : Bool
  pub exhausted : Bool
  pub connecting : Option (Option ℕ)
  pub sockets : List Socket
  pub ws : Option ℕ
  pub reconnect_timer : Option ℕ
  pub refreshes : ℕ
  pub events : List (Event Server)
  pub answers : List (ℕ × Bool)
  pub wire : List (ℕ × Client)

abbrev pub put_socket : ℕ → Socket → List Socket → List Socket
put_socket i k [] = []
put_socket zero k (l ∷ ls) = k ∷ ls
put_socket (suc i) k (l ∷ ls) = l ∷ put_socket i k ls

abbrev pub is_opened : ReadyState → Bool
is_opened opened = true
is_opened _ = false

abbrev pub is_made : Option (Option ℕ) → Bool
is_made none = false
is_made (some waiter) = true

-- `connectTimeoutMs !== 0`
abbrev pub is_timed : Option ℕ → Bool
is_timed none = true
is_timed (some ms) = not (ms == 0)

abbrev pub tagged {ℓ} : {A : Type ℓ} → ℕ → List A → List (ℕ × A)
tagged i [] = []
tagged i (m ∷ ms) = (i, m) ∷ tagged i ms

abbrev pub open_at : ℕ → Option Socket → Option ℕ
open_at i none = none
open_at i (some k) = if is_opened k.ready_state then some i else none

abbrev pub open_among : Option ℕ → List Socket → Option ℕ
open_among none sockets = none
open_among (some i) sockets = open_at i (get_elem? sockets i)

abbrev pub shut_among : Option ℕ → List Socket → List Socket
shut_among none sockets = sockets
shut_among (some i) sockets = elim (get_elem? sockets i) [
  | none ↦ sockets
  | some k ↦ put_socket i (record k { ready_state = shut }) sockets
]

module _ {Url Client Server : Type 0} where
  unfoldable pub new_transport :
      (Client → Bool)
      → Url
      → Bool
      → Option ℕ
      → Bool
      → SendQueue Client
      → ReconnectStrategy
      → List ℕ
      → WebSocketTransport Url Client Server
  new_transport unsendable url reconnect timeout_ms refresh queue strategy codes = record {
    url = url;
    should_reconnect = reconnect;
    connect_timeout_ms = timeout_ms;
    token_refresh = refresh;
    queue = queue;
    strategy = strategy;
    non_retryable = codes;
    unsendable = unsendable;
    closed = false;
    exhausted = false;
    connecting = none;
    sockets = [];
    ws = none;
    reconnect_timer = none;
    refreshes = 0;
    events = [];
    answers = [];
    wire = [];
  }

  abbrev pub is_terminal : WebSocketTransport Url Client Server → Bool
  is_terminal s = s.closed || s.exhausted

  unfoldable pub emit :
      Event Server → WebSocketTransport Url Client Server → WebSocketTransport Url Client Server
  emit e s = record s { events = s.events ++ (e ∷ []) }

  -- `onOpen?.()`, and `onError?.(err)`, which is false.
  unfoldable pub answer :
      Option ℕ → Bool → WebSocketTransport Url Client Server → WebSocketTransport Url Client Server
  answer none ok s = s
  answer (some id) ok s = record s { answers = s.answers ++ ((id, ok) ∷ []) }

  unfoldable pub put :
      ℕ → Socket → WebSocketTransport Url Client Server → WebSocketTransport Url Client Server
  put i k s = record s { sockets = put_socket i k s.sockets }

  -- The current socket, if it is open.
  abbrev pub open_socket : WebSocketTransport Url Client Server → Option ℕ
  open_socket s = open_among s.ws s.sockets

  unfoldable pub flush_to :
      Option ℕ → WebSocketTransport Url Client Server → WebSocketTransport Url Client Server
  unfolding drain
  flush_to none s = s
  flush_to (some i) s =
      let drained = drain (λ m. record { reentrant = []; threw = s.unsendable m }) s.queue in
      record s { queue = drained.queue; wire = s.wire ++ tagged i drained.transmitted }

  unfoldable pub flush : WebSocketTransport Url Client Server → WebSocketTransport Url Client Server
  unfolding flush_to
  flush s = flush_to (open_socket s) s

  unfoldable pub send_to :
      Option ℕ
      → Client
      → WebSocketTransport Url Client Server
      → WebSocketTransport Url Client Server
  unfolding flush emit enqueue
  send_to none m s =
      let (queue, ok) = enqueue m s.queue in
      if ok then record s { queue = queue } else emit (error_event queue_full) s
  send_to (some i) m s =
      let s' = if ltb 0 (size s.queue) then flush s else s in
      if s'.unsendable m then s' else record s' { wire = s'.wire ++ ((i, m) ∷ []) }

  unfoldable pub send :
      Client → WebSocketTransport Url Client Server → WebSocketTransport Url Client Server
  unfolding send_to
  send m s = if is_terminal s then s else send_to (open_socket s) m s

  unfoldable pub close : WebSocketTransport Url Client Server → WebSocketTransport Url Client Server
  close s = record s {
    closed = true;
    queue = clear s.queue;
    reconnect_timer = none;
    sockets = shut_among s.ws s.sockets;
  }

  unfoldable pub init_socket :
      Option ℕ → WebSocketTransport Url Client Server → WebSocketTransport Url Client Server
  unfolding answer
  init_socket waiter s =
      if is_made s.connecting then answer waiter false s else record s { connecting = some waiter }

  unfoldable pub connect :
      ℕ → WebSocketTransport Url Client Server → WebSocketTransport Url Client Server
  unfolding init_socket
  connect id s = init_socket (some id) s

  -- The `catch` of `initSocket`.
  unfoldable pub unmade :
      Option ℕ → WebSocketTransport Url Client Server → WebSocketTransport Url Client Server
  unfolding answer emit
  unmade none s = emit (error_event unusable) s
  unmade (some id) s = answer (some id) false s

  -- The socket of `initSocket`, in its `then`.
  unfoldable pub make_socket :
      Option ℕ → WebSocketTransport Url Client Server → WebSocketTransport Url Client Server
  make_socket waiter s = record s {
    ws = some (length s.sockets);
    sockets =
        s.sockets
        ++ (record {
          ready_state = waiting;
          settled = false;
          connect_timer = is_timed s.connect_timeout_ms;
          waiter = waiter;
        }
            ∷ []);
  }
