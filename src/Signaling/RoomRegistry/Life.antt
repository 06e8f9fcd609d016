-- ===== src/Signaling/RoomRegistry/Life.antt =====
-- The life of a registry.
use rtcforge.Map
use rtcforge.Map.{Map, Distinct}
use rtcforge.Map.Laws.{get-set_self, get-set_ne, set-Distinct, delete-Distinct}
use rtcforge.Prelude.{
  ℕ, Bool, false, ◌&&◌, List, [], Option, none, some, String, ◌≡◌, ◌≢◌, refl, sym, subst, ◌∙◌, inl,
  inr, arith, ◌==◌, length, text_key, Bool-cases,
}
use rtcforge.Signaling.Peer.{WebSocket}
use rtcforge.Signaling.Room.State.{Room, RoomState, RoomEvent, RoomOptions, new_room}
use rtcforge.Signaling.Room.Invariant.{Sent, Sent-IsValid}
use rtcforge.Signaling.Room.Life.{Step, Step-IsValid, new_room-IsValid}
use rtcforge.Signaling.Room.Closing.{Step-Tells}
use rtcforge.Signaling.RoomRegistry.{
  RoomRegistry, new_registry, get_or_create, create_found, is_same, on_events, commit,
  rollback_if_empty, rollback_found, disconnect_all,
}
use rtcforge.Signaling.RoomRegistry.Open.{
  IsOpen, IsOrderly, AreOpen-set, AreOpen-delete, held, on_events-IsOrderly, on_events-late,
}

creating≢closed : RoomState.creating ≢ RoomState.closed
creating≢closed e = cc

module _ {D S : Type 0} (ws : WebSocket D S) where
  -- An operation of the registry, one of a registered room other than `dispose`, or late events of a room that is no longer
  -- registered.
  pub data RegistryStep : RoomRegistry D S → RoomRegistry D S → Type 0 where
    creates : (id : String) {reg : RoomRegistry D S} → RegistryStep reg (get_or_create id reg).0
    runs :
        (id : String) (n : ℕ) (r r' : Room D S) {reg : RoomRegistry D S}
        → Map.get id reg.rooms ≡ some (n, r)
        → Step ws r r'
        → RegistryStep reg (commit id n r' reg)
    lates :
        (id : String) (n : ℕ) (es : List (RoomEvent D S)) {reg : RoomRegistry D S}
        → is_same n (Map.get id reg.rooms) ≡ false
        → RegistryStep reg (on_events id n es reg)
    rolls_back :
        (id : String) (was_new : Bool) {reg : RoomRegistry D S}
        → RegistryStep reg (rollback_if_empty id was_new reg)
    stops :
        (reason : String) {reg : RoomRegistry D S}
        → RegistryStep reg (disconnect_all ws reason reg).0

  pub data RegistryReach (reg : RoomRegistry D S) : RoomRegistry D S → Type 0 where
    here : RegistryReach reg reg
    next : {s t : RoomRegistry D S} → RegistryReach reg s → RegistryStep s t → RegistryReach reg t

  new_room-IsOpen : (id : String) (opts : RoomOptions) → IsOpen (new_room {D = D} {S = S} id opts)
  unfolding new_room
  new_room-IsOpen id opts = record {
    valid = new_room-IsValid ws id opts;
    going = creating≢closed;
    delivered = refl;
  }

  create_found-IsOrderly :
      (id : String) (o : Option (ℕ × Room D S)) (reg : RoomRegistry D S)
      → IsOrderly reg
      → IsOrderly (create_found id o reg).0
  unfolding create_found
  create_found-IsOrderly id (some entry) reg v = v
  create_found-IsOrderly id none reg v = record {
    distinct = set-Distinct id (reg.made, new_room id reg.room_opts) reg.rooms v.distinct;
    all_open =
        AreOpen-set id reg.made (new_room id reg.room_opts) reg.rooms
          (new_room-IsOpen id reg.room_opts) v.all_open;
  }

  delivered-Sent : (r : Room D S) → Sent r (record r { events = [] })
  delivered-Sent r = ground arith

  commit-IsOrderly :
      (id : String) (n : ℕ) (r r' : Room D S) (reg : RoomRegistry D S)
      → Map.get id reg.rooms ≡ some (n, r)
      → Step ws r r'
      → IsOrderly reg
      → IsOrderly (commit id n r' reg)
  unfolding commit
  commit-IsOrderly id n r r' reg found step v =
      let o = v.all_open id n r found in
      let quiet : Room D S = record r' { events = [] } in
      on_events-IsOrderly id n r'.events (record reg { rooms = Map.set id (n, quiet) reg.rooms })
        (record {
          distinct = set-Distinct id (n, quiet) reg.rooms v.distinct;
          others =
              λ j m s ne at. v.all_open j m s (sym (get-set_ne id j (n, quiet) reg.rooms ne) ∙ at);
          this =
              held quiet (get-set_self id (n, quiet) reg.rooms)
                (Sent-IsValid (delivered-Sent r') (Step-IsValid ws step o.valid)) refl
                (Step-Tells ws step o.going).tells;
        })

  rollback_found-IsOrderly :
      (id : String) (was_new : Bool) (o : Option (ℕ × Room D S)) (reg : RoomRegistry D S)
      → IsOrderly reg
      → IsOrderly (rollback_found id was_new o reg)
  unfolding rollback_found
  rollback_found-IsOrderly id was_new none reg v = v
  rollback_found-IsOrderly id was_new (some (n, room)) reg v =
      elim (Bool-cases (was_new && length room.peers == 0)) [
        | inl empty ↦ rw empty (record {
          distinct = delete-Distinct id reg.rooms v.distinct;
          all_open = AreOpen-delete id reg.rooms v.distinct (λ j m s ne at. v.all_open j m s at);
        })
        | inr kept ↦ rw kept v
      ]

  RegistryStep-IsOrderly :
      {reg reg' : RoomRegistry D S} → RegistryStep reg reg' → IsOrderly reg → IsOrderly reg'
  unfolding get_or_create rollback_if_empty disconnect_all Map.get
  RegistryStep-IsOrderly (creates id {reg}) v =
      create_found-IsOrderly id (Map.get id reg.rooms) reg v
  RegistryStep-IsOrderly (runs id n r r' {reg} found step) v =
      commit-IsOrderly id n r r' reg found step v
  RegistryStep-IsOrderly (lates id n es {reg} late) v =
      subst (λ rooms. IsOrderly (record (on_events id n es reg) { rooms = rooms }))
        (sym (on_events-late id n es reg late))
        (record { distinct = v.distinct; all_open = v.all_open })
  RegistryStep-IsOrderly (rolls_back id was_new {reg}) v =
      rollback_found-IsOrderly id was_new (Map.get id reg.rooms) reg v
  RegistryStep-IsOrderly (stops reason {reg}) v = record {
    distinct = tt;
    all_open = λ id n r found. absurd (ground arith);
  }

  -- Whatever happens to a registry and its rooms, but that nobody except the registry calls `dispose` of
  -- a registered room: no id is registered twice, and every room that is registered is well formed and
  -- not closed, its events all delivered.
  pub registered_are_open :
      (opts : RoomOptions) (reg : RoomRegistry D S)
      → RegistryReach (new_registry opts) reg
      → IsOrderly reg
  unfolding new_registry Map.get
  registered_are_open opts reg here = record {
    distinct = tt;
    all_open = λ id n r found. absurd (ground arith);
  }
  registered_are_open opts reg (next path step) =
      RegistryStep-IsOrderly step (registered_are_open opts _ path)
