-- ===== src/Sfu/UdpGossipTransport/Authentic.antt =====
-- UdpGossipTransport.ts: which datagrams of its peers a transport hears.
use rtcforge.Core.HashRing.Cyrb53.{units_key}
use rtcforge.Prelude.{
  ℕ, suc, zero, ◌+◌, ◌-◌, ◌<◌, ◌≤◌, ◌⊎◌, inl, inr, ltb, true, false, not, List, [], ◌∷◌, ◌++◌,
  Option, none, some, ◌≡◌, refl, sym, ap, ◌∙◌, arith, same_self, if_lem, all, length, length-append,
  take, drop,
}
use rtcforge.Sfu.UdpGossipTransport.Messages.{
  Message, Platform, UdpGossipTransport, mac_len, ts_len,
}
use rtcforge.Sfu.UdpGossipTransport.Wire.{
  sealed, payload_of, is_stale, body_of, parsed, sanitized, handle, on_datagram,
}
use rtcforge.Sfu.UdpGossipTransport.Sanitized.{is_proper, message_json, sanitize-message_json}

take-append : {A : Type 0} (n : ℕ) (xs ys : List A) → length xs ≡ n → take n (xs ++ ys) ≡ xs
take-append zero [] ys h = refl
take-append zero (x ∷ xs) ys h = absurd (omega (arith, h))
take-append (suc n) [] ys h = absurd (omega (arith, h))
take-append (suc n) (x ∷ xs) ys h = ap (λ zs. x ∷ zs) (take-append n xs ys (omega (arith, h)))

drop-append : {A : Type 0} (n : ℕ) (xs ys : List A) → length xs ≡ n → drop n (xs ++ ys) ≡ ys
drop-append zero [] ys h = refl
drop-append zero (x ∷ xs) ys h = absurd (omega (arith, h))
drop-append (suc n) [] ys h = absurd (omega (arith, h))
drop-append (suc n) (x ∷ xs) ys h = drop-append n xs ys (omega (arith, h))

module _ {Number : Type 0} (udp : Platform Number) where
  -- What the platform documents: the lengths of a MAC and of a time, that a time is read back, that
  -- the JSON text of a message is read back as its value, and the arithmetic of the doubles that are
  -- natural numbers below 2 ^ 53.
  pub record IsPlatform : Type 0 where
    pub length-hmac : (key body : List ℕ) → length (udp.hmac key body) ≡ mac_len
    pub length-timestamp : (t : ℕ) → length (udp.timestamp t) ≡ ts_len
    pub read_double-timestamp :
        (t : ℕ) → t < 9007199254740992 → udp.read_double (udp.timestamp t) ≡ udp.of_ℕ t
    pub distance :
        (a b : ℕ)
        → a < 9007199254740992
        → b < 9007199254740992
        → udp.abs (udp.subtract (udp.of_ℕ a) (udp.of_ℕ b)) ≡ udp.of_ℕ ((a - b) + (b - a))
    pub greater :
        (a b : ℕ)
        → a < 9007199254740992
        → b < 9007199254740992
        → udp.is_greater (udp.of_ℕ a) (udp.of_ℕ b) ≡ ltb b a
    pub parse-stringify :
        (m : Message Number) (body : List ℕ)
        → udp.stringify m ≡ some body
        → udp.parse body ≡ some (message_json m)

  abbrev body_within : Option (List ℕ) → ℕ → ℕ → Option (List ℕ) → Option (List ℕ)
  body_within secret window now none = none
  body_within secret window now (some p) = body_of udp secret window now p

  -- A datagram of a MAC, a time and a JSON text.
  body_of-parts :
      (key mac ts json : List ℕ) (window now : ℕ)
      → length mac ≡ mac_len
      → length ts ≡ ts_len
      → udp.hmac key (ts ++ json) ≡ mac
      → is_stale udp now ts window ≡ false
      → body_of udp (some key) window now (mac ++ (ts ++ json)) ≡ some json
  unfolding body_of
  body_of-parts key mac ts json window now long_mac long_ts genuine fresh =
      let long : ltb (length (mac ++ (ts ++ json))) (mac_len + ts_len) ≡ false =
        ground (arith, long_mac, long_ts, length-append mac (ts ++ json), length-append ts json) in
      rw
        (
          long,
          take-append mac_len mac (ts ++ json) long_mac,
          drop-append mac_len mac (ts ++ json) long_mac,
          genuine,
          same_self mac,
          take-append ts_len ts json long_ts,
          fresh,
          drop-append ts_len ts json long_ts,
        )
        refl

  module _ (laws : IsPlatform) where
    is_stale-timestamp :
        (t now window : ℕ)
        → t < 9007199254740992
        → now < 9007199254740992
        → window < 9007199254740992
        → is_stale udp now (udp.timestamp t) window ≡ ltb window ((now - t) + (t - now))
    unfolding is_stale
    is_stale-timestamp t now window small_t small_now small_window =
        ap (λ ts. udp.is_greater (udp.abs (udp.subtract (udp.of_ℕ now) ts)) (udp.of_ℕ window))
          (laws.read_double-timestamp t small_t)
        ∙ ap (λ d. udp.is_greater d (udp.of_ℕ window)) (laws.distance now t small_now small_t)
        ∙ laws.greater ((now - t) + (t - now)) window (omega arith) small_window

    body_of-sealed :
        (secret : Option (List ℕ)) (window t now : ℕ) (json : List ℕ)
        → is_stale udp now (udp.timestamp t) window ≡ false
        → body_within secret window now (sealed udp secret t (some json)) ≡ some json
    unfolding body_of
    body_of-sealed none window t now json fresh = refl
    body_of-sealed (some key) window t now json fresh =
        body_of-parts key (udp.hmac key (udp.timestamp t ++ json)) (udp.timestamp t) json window now
          (laws.length-hmac key (udp.timestamp t ++ json)) (laws.length-timestamp t) refl fresh

    heard_json :
        (secret : Option (List ℕ)) (window t now : ℕ) (m : Message Number) (o : Option (List ℕ))
        (payload : List ℕ)
        → udp.stringify m ≡ o
        → all (is_proper udp) m.members ≡ true
        → is_stale udp now (udp.timestamp t) window ≡ false
        → sealed udp secret t o ≡ some payload
        → sanitized udp (parsed udp (body_of udp secret window now payload)) ≡ some m
    heard_json secret window t now m none payload written proper fresh e =
        absurd (ground (arith, e))
    heard_json secret window t now m (some json) payload written proper fresh e =
        ap (λ p. sanitized udp (parsed udp (body_within secret window now p))) (sym e)
        ∙ ap (λ b. sanitized udp (parsed udp b)) (body_of-sealed secret window t now json fresh)
        ∙ ap (sanitized udp) (laws.parse-stringify m json written)
        ∙ sanitize-message_json udp m proper

    -- What a transport sends of a message whose entries are proper, another with the same secret, or
    -- with none as well, hands to its handler as the same message, if the clocks at the sending and at
    -- the arrival are apart by the window at most. Times and the window are below 2 ^ 53.
    pub on_datagram-payload_of :
        (t now : ℕ) (m : Message Number) (payload : List ℕ) (s : UdpGossipTransport Number)
        → s.has_handler ≡ true
        → all (is_proper udp) m.members ≡ true
        → t < 9007199254740992
        → now < 9007199254740992
        → s.replay_window_ms < 9007199254740992
        → now ≤ t + s.replay_window_ms
        → t ≤ now + s.replay_window_ms
        → payload_of udp s.secret t m ≡ some payload
        → (on_datagram udp now payload s).received ≡ s.received ++ (m ∷ [])
    unfolding on_datagram payload_of handle
    on_datagram-payload_of t now m payload s listens proper small_t small_now small_window late
          early e =
        let fresh : is_stale udp now (udp.timestamp t) s.replay_window_ms ≡ false =
          is_stale-timestamp t now s.replay_window_ms small_t small_now small_window
          ∙ ground arith in
        let heard =
          heard_json s.secret s.replay_window_ms t now m (udp.stringify m) payload refl proper fresh
            e in
        if_lem (λ (r : UdpGossipTransport Number). r.received ≡ s.received ++ (m ∷ []))
          (not s.has_handler) s _ (λ deaf. absurd (ground (arith, listens, deaf)))
          (λ hears. ap (λ o. (handle udp o s).received) heard)

    body_of-late :
        (key : List ℕ) (t now window : ℕ) (json : List ℕ)
        → is_stale udp now (udp.timestamp t) window ≡ true
        → body_of udp
            (some key)
            window
            now
            (udp.hmac key (udp.timestamp t ++ json) ++ (udp.timestamp t ++ json))
          ≡ none
    unfolding body_of
    body_of-late key t now window json stale =
        let mac = udp.hmac key (udp.timestamp t ++ json) in
        let ts = udp.timestamp t in
        let long_mac = laws.length-hmac key (ts ++ json) in
        let long_ts = laws.length-timestamp t in
        let long : ltb (length (mac ++ (ts ++ json))) (mac_len + ts_len) ≡ false =
          ground
            (arith, long_mac, long_ts, length-append mac (ts ++ json), length-append ts json) in
        rw
          (
            long,
            take-append mac_len mac (ts ++ json) long_mac,
            drop-append mac_len mac (ts ++ json) long_mac,
            same_self mac,
            take-append ts_len ts json long_ts,
            stale,
          )
          refl

    -- A datagram that was sent under a secret and is heard again when the clock has moved by more than
    -- the window, forwards or backwards, is dropped. Times and the window are below 2 ^ 53.
    pub on_datagram-replayed :
        (key : List ℕ) (t now : ℕ) (m : Message Number) (payload : List ℕ)
        (s : UdpGossipTransport Number)
        → s.secret ≡ some key
        → t < 9007199254740992
        → now < 9007199254740992
        → s.replay_window_ms < 9007199254740992
        → (t + s.replay_window_ms < now) ⊎ (now + s.replay_window_ms < t)
        → payload_of udp s.secret t m ≡ some payload
        → on_datagram udp now payload s ≡ s
    unfolding on_datagram payload_of handle
    on_datagram-replayed key t now m payload s shared small_t small_now small_window apart e =
        let far : ltb s.replay_window_ms ((now - t) + (t - now)) ≡ true = by_side apart in
        let stale : is_stale udp now (udp.timestamp t) s.replay_window_ms ≡ true =
          is_stale-timestamp t now s.replay_window_ms small_t small_now small_window ∙ far in
        if_lem (λ (r : UdpGossipTransport Number). r ≡ s) (not s.has_handler) s _ (λ deaf. refl)
          (λ hears.
            ap (λ o. handle udp (sanitized udp (parsed udp o)) s)
              (dropped (udp.stringify m) stale
                (ap (λ k. sealed udp k t (udp.stringify m)) (sym shared) ∙ e)))
      where
        by_side :
            (t + s.replay_window_ms < now) ⊎ (now + s.replay_window_ms < t)
            → ltb s.replay_window_ms ((now - t) + (t - now)) ≡ true
        by_side (inl late) = ground arith
        by_side (inr early) = ground arith

        dropped :
            (o : Option (List ℕ))
            → is_stale udp now (udp.timestamp t) s.replay_window_ms ≡ true
            → sealed udp (some key) t o ≡ some payload
            → body_of udp s.secret s.replay_window_ms now payload ≡ none
        dropped none stale h = absurd (ground (arith, h))
        dropped (some json) stale h =
            ap (λ k. body_of udp k s.replay_window_ms now payload) shared
            ∙ ap (λ (o : Option (List ℕ)). body_within (some key) s.replay_window_ms now o) (sym h)
            ∙ body_of-late key t now s.replay_window_ms json stale
