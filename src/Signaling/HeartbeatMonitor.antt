-- ===== src/Signaling/HeartbeatMonitor.antt =====
-- packages/signaling/src/HeartbeatMonitor.ts: the sweep over one room.
pub mod Sweep
use rtcforge.Map
use rtcforge.Map.{Map}
use rtcforge.Prelude.{
  ℕ, ◌-◌, Bool, List, [], ◌∷◌, Option, none, some, String, if◌then◌else◌, text_key,
}
use rtcforge.Signaling.Protocol.{going_away, heartbeat_timeout}
use rtcforge.Signaling.Peer.{WebSocket, Peer, is_alive, ping}
use rtcforge.Signaling.Room.State.{Room}
use rtcforge.Signaling.Room.Leaving.{disconnect_and_remove}

module _ {D S : Type 0} (ws : WebSocket D S) where
  -- A peer that answers is pinged where it stands; if it left during the sweep, nobody can see that.
  unfoldable pub ping_found : String → Option (Peer D S) → Room D S → Room D S
  unfolding ping
  ping_found id none room = room
  ping_found id (some peer) room = record room { peers = Map.set id (ping ws peer) room.peers }

  unfoldable pub check : ℕ → String → Peer D S → Room D S → Room D S
  unfolding is_alive disconnect_and_remove ping_found
  check deadline id peer room =
      if is_alive deadline peer
      then ping_found id (Map.get id room.peers) room
      else (disconnect_and_remove ws id going_away heartbeat_timeout room).0

  -- The loop over the peers that were in the room when it began.
  unfoldable pub check_all : ℕ → Map String (Peer D S) → Room D S → Room D S
  unfolding check
  check_all deadline [] room = room
  check_all deadline ((id, peer) ∷ peers) room =
      check_all deadline peers (check deadline id peer room)

  unfoldable pub tick : ℕ → ℕ → Room D S → Room D S
  unfolding check_all
  tick now pong_timeout_ms room = check_all (now - pong_timeout_ms) room.peers room
