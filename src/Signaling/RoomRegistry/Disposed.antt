-- ===== src/Signaling/RoomRegistry/Disposed.antt =====
-- A registered room whose `dispose` is called directly, not by the registry.
use rtcforge.Map
use rtcforge.Map.Laws.{get-set_self}
use rtcforge.Prelude.{ℕ, false, List, [], Option, some, String, ◌≡◌, refl, sym, ap, ◌∙◌, text_key}
use rtcforge.Signaling.Peer.{WebSocket, Peer}
use rtcforge.Signaling.Protocol.{IceServerConfig}
use rtcforge.Signaling.Room.State.{Room, RoomState, dispose, clear_timers, transition_to, is_over}
use rtcforge.Signaling.Room.Joining.{add_peer}
use rtcforge.Signaling.Room.Life.{add_found-over}
use rtcforge.Signaling.RoomRegistry.{RoomRegistry, get_or_create, create_found, on_events, commit}

module _ {D S : Type 0} where
  dispose-closed : (r : Room D S) → (dispose r).state ≡ RoomState.closed
  unfolding dispose clear_timers transition_to
  dispose-closed r = by_state r.state
    where
      by_state : (s : RoomState) → (dispose (record r { state = s })).state ≡ RoomState.closed
      by_state RoomState.creating = refl
      by_state RoomState.active = refl
      by_state RoomState.closing = refl
      by_state RoomState.closed = refl

  -- The registry once the room has been disposed of.
  abbrev pub after_dispose : String → ℕ → Room D S → RoomRegistry D S → RoomRegistry D S
  after_dispose id n r reg = commit id n (dispose r) reg

  commit_quiet :
      (id : String) (n : ℕ) (r : Room D S) (reg : RoomRegistry D S)
      → r.events ≡ []
      → commit id n r reg
        ≡ record reg { rooms = Map.set id (n, record r { events = [] }) reg.rooms }
  unfolding commit on_events
  commit_quiet id n r reg quiet =
      ap
        (λ es.
          on_events id n es
            (record reg { rooms = Map.set id (n, record r { events = [] }) reg.rooms }))
        quiet

  -- A registered room that is disposed of directly, with no event left to deliver, is closed, stays
  -- registered, is what the id gives from then on, not as a new room, and takes nobody in.
  pub disposed_stays :
      (ws : WebSocket D S) (id : String) (n : ℕ) (r : Room D S) (reg : RoomRegistry D S)
      (peer : Peer D S) (servers : Option (List IceServerConfig))
      → r.events ≡ []
      → (Map.get id (after_dispose id n r reg).rooms ≡ some (n, dispose r))
        × (get_or_create id (after_dispose id n r reg) ≡ (after_dispose id n r reg, false))
        × ((dispose r).state ≡ RoomState.closed)
        × ((add_peer ws peer servers (dispose r)).0 ≡ dispose r)
  unfolding get_or_create create_found add_peer
  disposed_stays ws id n r reg peer servers quiet = (
    stays,
    ap (λ o. create_found id o (after_dispose id n r reg)) stays,
    closes,
    add_found-over ws _ peer servers (dispose r) (ap is_over closes),
  )
    where
      closes : (dispose r).state ≡ RoomState.closed
      closes = dispose-closed r

      silent : (dispose r).events ≡ []
      silent = unfold dispose in unfold transition_to in unfold clear_timers in quiet

      stays : Map.get id (after_dispose id n r reg).rooms ≡ some (n, dispose r)
      stays =
          ap (λ (g : RoomRegistry D S). Map.get id g.rooms)
            (commit_quiet id n (dispose r) reg silent)
          ∙ get-set_self id (n, record (dispose r) { events = [] }) reg.rooms
          ∙ ap (λ es. some (n, record (dispose r) { events = es })) (sym silent)
