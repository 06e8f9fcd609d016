-- ===== src/Signaling/RoomRegistry/Open.antt =====
-- The rooms that are registered are open.
use rtcforge.Map
use rtcforge.Map.{Map, Distinct}
use rtcforge.Map.Laws.{get-set, get-delete_self, get-delete_ne, delete-Distinct}
use rtcforge.Prelude.{
  ℕ, true, false, List, [], ◌∷◌, none, some, String, ◌≡◌, ◌≢◌, refl, sym, ap, subst, ◌∙◌, inl, inr,
  arith, ◌===◌, if◌then◌else◌, text_key, Bool-cases, eq_of_same, ne_of_same, ==_iff,
}
use rtcforge.Signaling.Room.State.{Room, RoomState, RoomEvent, closed}
use rtcforge.Signaling.Room.Invariant.{IsValid}
use rtcforge.Signaling.Room.Closing.{has_closed}
use rtcforge.Signaling.RoomRegistry.{RoomRegistry, is_same, on_event, on_events}

module _ {D S : Type 0} where
  -- A room that is open: well formed, not closed, and with no event undelivered.
  pub record IsOpen (r : Room D S) : Type 0 where
    pub valid : IsValid r
    pub going : r.state ≢ RoomState.closed
    pub delivered : r.events ≡ []

  abbrev pub AreOpen : Map String (ℕ × Room D S) → Type 0
  AreOpen rooms = (id : String) (n : ℕ) (r : Room D S) → Map.get id rooms ≡ some (n, r) → IsOpen r

  pub AreOpen-set :
      (id : String) (n : ℕ) (r : Room D S) (rooms : Map String (ℕ × Room D S))
      → IsOpen r
      → AreOpen rooms
      → AreOpen (Map.set id (n, r) rooms)
  AreOpen-set id n r rooms o all j m s found = elim (Bool-cases (id === j)) [
    | inl same ↦ subst IsOpen (ground (arith, get-set id j (n, r) rooms)) o
    | inr other ↦ all j m s (ground (arith, get-set id j (n, r) rooms))
  ]

  pub AreOpen-delete :
      (id : String) (rooms : Map String (ℕ × Room D S))
      → Distinct (Map.keys rooms)
      → ((j : String) (n : ℕ) (r : Room D S) → id ≢ j → Map.get j rooms ≡ some (n, r) → IsOpen r)
      → AreOpen (Map.delete id rooms)
  AreOpen-delete id rooms d others j m s found = elim (Bool-cases (id === j)) [
    | inl same ↦ absurd (ground (arith, get-delete_self id rooms d, eq_of_same id j same))
    | inr other ↦
        let ne = ne_of_same id j other in
        others j m s ne (sym (get-delete_ne id j rooms ne) ∙ found)
  ]

  -- What a registry keeps.
  pub record IsOrderly (reg : RoomRegistry D S) : Type 0 where
    pub distinct : Distinct (Map.keys reg.rooms)
    pub all_open : AreOpen reg.rooms

  -- The rooms while events of the room `id`, number `n`, are still to be delivered.
  pub data Held (id : String) (n : ℕ) (es : List (RoomEvent D S))
      (rooms : Map String (ℕ × Room D S)) : Type 0 where
    gone : Map.get id rooms ≡ none → Held id n es rooms
    held :
        (r : Room D S)
        → Map.get id rooms ≡ some (n, r)
        → IsValid r
        → r.events ≡ []
        → (r.state ≡ RoomState.closed → has_closed es ≡ true)
        → Held id n es rooms

  pub record Delivers (id : String) (n : ℕ) (es : List (RoomEvent D S))
      (rooms : Map String (ℕ × Room D S)) : Type 0 where
    pub distinct : Distinct (Map.keys rooms)
    pub others :
        (j : String) (m : ℕ) (r : Room D S) → id ≢ j → Map.get j rooms ≡ some (m, r) → IsOpen r
    pub this : Held id n es rooms

  AreOpen-delivered :
      (id : String) (n : ℕ) (rooms : Map String (ℕ × Room D S))
      → Delivers id n [] rooms
      → AreOpen rooms
  unfolding has_closed
  AreOpen-delivered id n rooms d j m s found = elim (Bool-cases (id === j)) [
    | inl same ↦ this_open d.this (ap (λ k. Map.get k rooms) (eq_of_same id j same) ∙ found)
    | inr other ↦ d.others j m s (ne_of_same id j other) found
  ]
    where
      this_open : Held id n [] rooms → Map.get id rooms ≡ some (m, s) → IsOpen s
      this_open (gone absent) there = absurd (ground arith)
      this_open (held r at v quiet tells) there =
          subst IsOpen (ground arith)
            (record { valid = v; going = λ e. ground (arith, tells e); delivered = quiet })

  Held-skip :
      (id : String) (n : ℕ) (e : RoomEvent D S) (es : List (RoomEvent D S))
      (rooms : Map String (ℕ × Room D S))
      → has_closed (e ∷ es) ≡ has_closed es
      → Held id n (e ∷ es) rooms
      → Held id n es rooms
  Held-skip id n e es rooms same (gone absent) = gone absent
  Held-skip id n e es rooms same (held r at v quiet tells) =
      held r at v quiet (λ over. sym same ∙ tells over)

  Delivers-skip :
      (id : String) (n : ℕ) (e : RoomEvent D S) (es : List (RoomEvent D S))
      (rooms : Map String (ℕ × Room D S))
      → has_closed (e ∷ es) ≡ has_closed es
      → Delivers id n (e ∷ es) rooms
      → Delivers id n es rooms
  Delivers-skip id n e es rooms same d = record {
    distinct = d.distinct;
    others = d.others;
    this = Held-skip id n e es rooms same d.this;
  }

  Delivers-closed :
      (id : String) (n : ℕ) (es fs : List (RoomEvent D S)) (rooms : Map String (ℕ × Room D S))
      → Delivers id n es rooms
      → Delivers id n fs (if is_same n (Map.get id rooms) then Map.delete id rooms else rooms)
  Delivers-closed id n es fs rooms d = by_place d.this
    where
      by_place :
          Held id n es rooms
          → Delivers id n fs (if is_same n (Map.get id rooms) then Map.delete id rooms else rooms)
      by_place (gone absent) =
          rw absent (record { distinct = d.distinct; others = d.others; this = gone absent })
      by_place (held r at v quiet tells) =
          rw (at, (==_iff n n).1 refl)
            (record {
              distinct = delete-Distinct id rooms d.distinct;
              others =
                  λ j m s ne found. d.others j m s ne (sym (get-delete_ne id j rooms ne) ∙ found);
              this = gone (get-delete_self id rooms d.distinct);
            })

  pub on_events-IsOrderly :
      (id : String) (n : ℕ) (es : List (RoomEvent D S)) (reg : RoomRegistry D S)
      → Delivers id n es reg.rooms
      → IsOrderly (on_events id n es reg)
  unfolding on_events on_event has_closed
  on_events-IsOrderly id n [] reg d = record {
    distinct = d.distinct;
    all_open = AreOpen-delivered id n reg.rooms d;
  }
  on_events-IsOrderly id n (closed ∷ es) reg d =
      on_events-IsOrderly id n es (on_event id n closed reg)
        (Delivers-closed id n (closed ∷ es) es reg.rooms d)
  on_events-IsOrderly id n (RoomEvent.peer_joined p ∷ es) reg d =
      on_events-IsOrderly id n es reg (Delivers-skip id n _ es reg.rooms refl d)
  on_events-IsOrderly id n (RoomEvent.peer_left p ∷ es) reg d =
      on_events-IsOrderly id n es reg (Delivers-skip id n _ es reg.rooms refl d)
  on_events-IsOrderly id n (RoomEvent.peer_error p ∷ es) reg d =
      on_events-IsOrderly id n es reg (Delivers-skip id n _ es reg.rooms refl d)
  on_events-IsOrderly id n (RoomEvent.peer_kicked p reason ∷ es) reg d =
      on_events-IsOrderly id n es (on_event id n (RoomEvent.peer_kicked p reason) reg)
        (Delivers-skip id n _ es reg.rooms refl d)

  -- Events of a room that is not the one registered leave the registered rooms as they are.
  pub on_events-late :
      (id : String) (n : ℕ) (es : List (RoomEvent D S)) (reg : RoomRegistry D S)
      → is_same n (Map.get id reg.rooms) ≡ false
      → (on_events id n es reg).rooms ≡ reg.rooms
  unfolding on_events on_event
  on_events-late id n [] reg late = refl
  on_events-late id n (closed ∷ es) reg late =
      let kept : (on_event id n closed reg).rooms ≡ reg.rooms =
        ap (λ b. if b then Map.delete id reg.rooms else reg.rooms) late in
      on_events-late id n es (on_event id n closed reg)
        (ap (λ rooms. is_same n (Map.get id rooms)) kept ∙ late)
      ∙ kept
  on_events-late id n (RoomEvent.peer_joined p ∷ es) reg late = on_events-late id n es reg late
  on_events-late id n (RoomEvent.peer_left p ∷ es) reg late = on_events-late id n es reg late
  on_events-late id n (RoomEvent.peer_error p ∷ es) reg late = on_events-late id n es reg late
  on_events-late id n (RoomEvent.peer_kicked p reason ∷ es) reg late =
      on_events-late id n es (on_event id n (RoomEvent.peer_kicked p reason) reg) late
