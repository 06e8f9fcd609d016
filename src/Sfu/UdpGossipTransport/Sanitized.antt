-- ===== src/Sfu/UdpGossipTransport/Sanitized.antt =====
-- What `sanitizeGossipMessage` lets through, and what it keeps as it is.
use rtcforge.Prelude.{
  Bool, true, false, not, ◌&&◌, ◌||◌, List, [], ◌∷◌, Option, none, some, String, ◌≡◌, refl, ap,
  subst, ◌∙◌, arith, ◌===◌, if◌then◌else◌, if_lem, all, text_key,
}
use rtcforge.Sfu.UdpGossipTransport.Messages.{
  Json, null, other, boolean, number, text, array, object, Elements, no_element, element, Fields,
  no_field, field, Entry, Message, Platform, get_field, is_string_record, record_or_none,
  entry_from, sanitize_entry, entry_and, sanitize_entries, has_elements, is_nil, message_from,
  sanitize,
}

module _ {Number : Type 0} where
  abbrev pub is_record : Option (Json Number) → Bool
  is_record none = true
  is_record (some v) = is_string_record v

  -- `JSON.stringify` writes the fields that are there.
  abbrev pub text_field : String → Option String → Fields Number → Fields Number
  text_field name none rest = rest
  text_field name (some t) rest = field name (text t) rest

  abbrev pub json_field : String → Option (Json Number) → Fields Number → Fields Number
  json_field name none rest = rest
  json_field name (some v) rest = field name v rest

  abbrev pub entry_json : Entry Number → Json Number
  entry_json e = object (
      field "id" (text e.id) (
        field "incarnation" (number e.incarnation) (
          field "alive" (boolean e.alive) (
            text_field "address" e.address
              (text_field "region" e.region (json_field "metadata" e.metadata no_field))))))

  abbrev pub entries_json : List (Entry Number) → Elements Number
  entries_json [] = no_element
  entries_json (e ∷ es) = element (entry_json e) (entries_json es)

  -- The JSON value of a message.
  abbrev pub message_json : Message Number → Json Number
  message_json m =
      object
        (field "from" (text m.from) (field "members" (array (entries_json m.members)) no_field))

  module _ (udp : Platform Number) where
    -- An identifier that is not empty, a finite incarnation, and metadata whose values are texts.
    abbrev pub is_proper : Entry Number → Bool
    is_proper e = not (e.id === "") && (udp.is_finite e.incarnation && is_record e.metadata)

    abbrev pub is_proper_option : Option (Entry Number) → Bool
    is_proper_option none = true
    is_proper_option (some e) = is_proper e

    is_record-record_or_none : (o : Option (Json Number)) → is_record (record_or_none o) ≡ true
    is_record-record_or_none none = refl
    is_record-record_or_none (some v) =
        if_lem (λ o. is_record o ≡ true) (is_string_record v) (some v) none (λ y. y) (λ n. refl)

    abbrev members_of : Option (Message Number) → List (Entry Number)
    members_of none = []
    members_of (some m) = m.members

    entry_from-proper :
        (a b c : Option (Json Number)) (fields : Fields Number)
        → is_proper_option (entry_from udp a b c fields) ≡ true
    entry_from-proper a b c fields =
        ground (arith, is_record-record_or_none (get_field "metadata" fields))

    sanitize_entry-proper : (j : Json Number) → is_proper_option (sanitize_entry udp j) ≡ true
    sanitize_entry-proper (object fields) =
        entry_from-proper (get_field "id" fields) (get_field "incarnation" fields)
          (get_field "alive" fields) fields
    sanitize_entry-proper null = refl
    sanitize_entry-proper other = refl
    sanitize_entry-proper (boolean b) = refl
    sanitize_entry-proper (number n) = refl
    sanitize_entry-proper (text t) = refl
    sanitize_entry-proper (array es) = refl

    entry_and-proper :
        (o : Option (Entry Number)) (es : List (Entry Number))
        → is_proper_option o ≡ true
        → all is_proper es ≡ true
        → all is_proper (entry_and udp o es) ≡ true
    entry_and-proper none es p q = q
    entry_and-proper (some e) es p q = rw (p, q) refl

    sanitize_entries-proper :
        (raws : Elements Number) → all is_proper (sanitize_entries udp raws) ≡ true
    unfolding sanitize_entries
    sanitize_entries-proper no_element = refl
    sanitize_entries-proper (element raw rest) =
        entry_and-proper (sanitize_entry udp raw) (sanitize_entries udp rest)
          (sanitize_entry-proper raw) (sanitize_entries-proper rest)

    -- Every entry of a message that is let through has an identifier that is not empty, a finite
    -- incarnation, and metadata whose values are texts, if it has any.
    pub message_from-proper :
        (a b : Option (Json Number)) (m : Message Number)
        → message_from udp a b ≡ some m
        → all is_proper m.members ≡ true
    unfolding message_from
    message_from-proper (some (text from)) (some (array raws)) m e =
        if_lem (λ o. o ≡ some m → all is_proper m.members ≡ true)
          (has_elements udp raws && is_nil udp (sanitize_entries udp raws)) none
          (some (record { from = from; members = sanitize_entries udp raws }))
          (λ refused. λ k. absurd (ground (arith, k)))
          (λ taken.
            λ k. subst (λ o. all is_proper (members_of o) ≡ true) k (sanitize_entries-proper raws))
          e
    message_from-proper a b m e = absurd (ground (arith, e))

    -- The other way: an entry that is proper is kept as it is.
    sanitize_entry-entry_json :
        (id : String) (incarnation : Number) (alive : Bool) (address region : Option String)
        (metadata : Option (Json Number))
        → ((id === "") || not (udp.is_finite incarnation)) ≡ false
        → record_or_none metadata ≡ metadata
        → sanitize_entry udp (
            entry_json (record {
              id = id;
              incarnation = incarnation;
              alive = alive;
              address = address;
              region = region;
              metadata = metadata;
            }))
          ≡ some (record {
            id = id;
            incarnation = incarnation;
            alive = alive;
            address = address;
            region = region;
            metadata = metadata;
          })
    sanitize_entry-entry_json id n a none none none h r = rw h refl
    sanitize_entry-entry_json id n a none none (some v) h r = rw (h, r) refl
    sanitize_entry-entry_json id n a none (some t) none h r = rw h refl
    sanitize_entry-entry_json id n a none (some t) (some v) h r = rw (h, r) refl
    sanitize_entry-entry_json id n a (some u) none none h r = rw h refl
    sanitize_entry-entry_json id n a (some u) none (some v) h r = rw (h, r) refl
    sanitize_entry-entry_json id n a (some u) (some t) none h r = rw h refl
    sanitize_entry-entry_json id n a (some u) (some t) (some v) h r = rw (h, r) refl

    record_kept : (o : Option (Json Number)) → is_record o ≡ true → record_or_none o ≡ o
    record_kept none h = refl
    record_kept (some v) h = rw h refl

    sanitize_entries-entries_json :
        (es : List (Entry Number))
        → all is_proper es ≡ true
        → sanitize_entries udp (entries_json es) ≡ es
    unfolding sanitize_entries
    sanitize_entries-entries_json [] h = refl
    sanitize_entries-entries_json (e ∷ es) h =
        ap (λ o. entry_and udp o (sanitize_entries udp (entries_json es)))
          (sanitize_entry-entry_json e.id e.incarnation e.alive e.address e.region e.metadata
            (ground (arith, h)) (record_kept e.metadata (ground (arith, h))))
        ∙ ap (λ ms. e ∷ ms) (sanitize_entries-entries_json es (ground (arith, h)))

    abbrev kept_or_none : String → Bool → List (Entry Number) → Option (Message Number)
    kept_or_none from some' es =
        if some' && is_nil udp es then none else some (record { from = from; members = es })

    -- A message whose entries are proper is kept as it is.
    pub sanitize-message_json :
        (m : Message Number)
        → all is_proper m.members ≡ true
        → sanitize udp (message_json m) ≡ some m
    unfolding sanitize message_from
    sanitize-message_json m h =
        ap (λ es. kept_or_none m.from (has_elements udp (entries_json m.members)) es)
          (sanitize_entries-entries_json m.members h)
        ∙ not_emptied m.from m.members
      where
        not_emptied :
            (from : String) (es : List (Entry Number))
            → kept_or_none from (has_elements udp (entries_json es)) es
              ≡ some (record { from = from; members = es })
        not_emptied from [] = refl
        not_emptied from (e ∷ es) = refl
