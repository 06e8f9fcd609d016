-- ===== src/Tests/Udp.antt =====
-- Two transports with a secret, on a platform that can write one kind of message.
use rtcforge.Prelude.{
  ℕ, ◌+◌, ◌-◌, Bool, true, false, ◌&&◌, List, [], ◌∷◌, ◌++◌, Option, none, some, String, ◌≡◌, refl,
  sym, ap, inl, ◌∙◌, arith, ltb, ◌===◌, eq_of_same, if◌then◌else◌, if_lem, length, length-replicate,
  replicate, text_key, number_key,
}
use rtcforge.Core.HashRing.Cyrb53.{units_key}
use rtcforge.Sfu.UdpGossipTransport.Messages.{Json, Entry, Message, Platform, UdpGossipTransport}
use rtcforge.Sfu.UdpGossipTransport.Wire.{payload_of, on_datagram}
use rtcforge.Sfu.UdpGossipTransport.Sanitized.{message_json}
use rtcforge.Sfu.UdpGossipTransport.Authentic.{
  IsPlatform, on_datagram-replayed, on_datagram-payload_of,
}

abbrev alive_at : String → String → ℕ → Message ℕ
alive_at from id k = record {
  from = from;
  members =
      record {
        id = id;
        incarnation = k;
        alive = true;
        address = none;
        region = none;
        metadata = none;
      }
      ∷ [];
}

abbrev entry_written :
    String → String → ℕ → Bool → Option String → Option String → Option (Json ℕ) → Option (List ℕ)
entry_written from id k true none none none =
    if (from === "n") && (id === "b") then some (k ∷ []) else none
entry_written _ _ _ _ _ _ _ = none

abbrev members_written : String → List (Entry ℕ) → Option (List ℕ)
members_written from (e ∷ []) =
    entry_written from e.id e.incarnation e.alive e.address e.region e.metadata
members_written _ _ = none

abbrev read : List ℕ → Option (Json ℕ)
read (k ∷ []) = some (message_json (alive_at "n" "b" k))
read _ = none

abbrev first_or : List ℕ → ℕ
first_or [] = 0
first_or (x ∷ xs) = x

abbrev platform : Platform ℕ
platform = record {
  hmac = λ key body. replicate 32 (length key + length body);
  stringify = λ m. members_written m.from m.members;
  parse = read;
  is_finite = λ n. true;
  timestamp = λ t. t ∷ replicate 7 0;
  read_double = first_or;
  of_ℕ = λ n. n;
  subtract = λ a b. (a - b) + (b - a);
  abs = λ n. n;
  is_greater = λ a b. ltb b a;
  port_of = λ digits. none;
}

read_back :
    (from id : String) (k : ℕ) (a : Bool) (ad re : Option String) (me : Option (Json ℕ))
    (body : List ℕ)
    → entry_written from id k a ad re me ≡ some body
    → read body
      ≡ some (
          message_json (record {
            from = from;
            members =
                record {
                  id = id;
                  incarnation = k;
                  alive = a;
                  address = ad;
                  region = re;
                  metadata = me;
                }
                ∷ [];
          }))
read_back from id k true none none none body e =
    if_lem
      (λ (o : Option (List ℕ)).
        o ≡ some body → read body ≡ some (message_json (alive_at from id k)))
      ((from === "n") && (id === "b")) (some (k ∷ [])) none
      (λ both. λ h.
        sym (ap read_option h)
        ∙ ap (λ i. some (message_json (alive_at "n" i k)))
            (sym (eq_of_same id "b" (ground (arith, both))))
        ∙ ap (λ f. some (message_json (alive_at f id k)))
            (sym (eq_of_same from "n" (ground (arith, both)))))
      (λ other. λ h. absurd (ground (arith, h))) e
  where
    read_option : Option (List ℕ) → Option (Json ℕ)
    read_option none = none
    read_option (some b) = read b
read_back from id k a ad re me body e = absurd (ground (arith, e))

members_read_back :
    (from : String) (es : List (Entry ℕ)) (body : List ℕ)
    → members_written from es ≡ some body
    → read body ≡ some (message_json (record { from = from; members = es }))
members_read_back from (x ∷ []) body e =
    read_back from x.id x.incarnation x.alive x.address x.region x.metadata body e
members_read_back from [] body e = absurd (ground (arith, e))
members_read_back from (x ∷ y ∷ es) body e = absurd (ground (arith, e))

platform-IsPlatform : IsPlatform platform
platform-IsPlatform = record {
  length-hmac = λ key body. length-replicate 32 (length key + length body);
  length-timestamp = λ t. refl;
  read_double-timestamp = λ t small. refl;
  distance = λ a b small small'. refl;
  greater = λ a b small small'. refl;
  parse-stringify = λ m body e. members_read_back m.from m.members body e;
}

abbrev listening : UdpGossipTransport ℕ
listening = record {
  has_handler = true;
  closed = false;
  last_payload = none;
  secret = some (1 ∷ 2 ∷ []);
  replay_window_ms = 30;
  received = [];
  sent = [];
}

abbrev datagram : List ℕ
datagram = replicate 32 11 ++ (100 ∷ replicate 7 0) ++ (5 ∷ [])

on_datagram-payload_of_example :
    (on_datagram platform 110 datagram listening).received ≡ alive_at "n" "b" 5 ∷ []
unfolding payload_of
on_datagram-payload_of_example =
    on_datagram-payload_of platform platform-IsPlatform 100 110 (alive_at "n" "b" 5) datagram
      listening refl refl (omega arith) (omega arith) (omega arith) (omega arith) (omega arith) refl

on_datagram-replayed_example : on_datagram platform 131 datagram listening ≡ listening
unfolding payload_of
on_datagram-replayed_example =
    on_datagram-replayed platform platform-IsPlatform (1 ∷ 2 ∷ []) 100 131 (alive_at "n" "b" 5)
      datagram listening refl (omega arith) (omega arith) (omega arith) (inl (omega arith)) refl
