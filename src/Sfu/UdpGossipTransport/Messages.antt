-- ===== src/Sfu/UdpGossipTransport/Messages.antt =====
-- UdpGossipTransport.ts: messages as JSON values, what is let through of them, and addresses.
use rtcforge.Map.{contains}
use rtcforge.Core.HashRing.Cyrb53.{units_key}
use rtcforge.Prelude.{
  suc, ℕ, ◌+◌, Bool, true, false, not, ◌&&◌, ◌||◌, List, [], ◌∷◌, Option, none, some, String, ◌==◌,
  ◌===◌, if◌then◌else◌, take, drop, text_key, number_key,
}

-- What JSON.parse gives, with the platform's numbers.
mutual
  pub data Json (Number : Type 0) : Type 0 where
    null other : Json Number
    boolean : Bool → Json Number
    number : Number → Json Number
    text : String → Json Number
    array : Elements Number → Json Number
    object : Fields Number → Json Number

  pub data Elements (Number : Type 0) : Type 0 where
    no_element : Elements Number
    element : Json Number → Elements Number → Elements Number

  pub data Fields (Number : Type 0) : Type 0 where
    no_field : Fields Number
    field : String → Json Number → Fields Number → Fields Number

pub record Entry (Number : Type 0) : Type 0 where
  pub id : String
  pub incarnation : Number
  pub alive : Bool
  pub address : Option String
  pub region : Option String
  pub metadata : Option (Json Number)

pub record Message (Number : Type 0) : Type 0 where
  pub from : String
  pub members : List (Entry Number)

-- What the source uses of the platform: the MAC, JSON (with nothing where it throws), the eight bytes
-- of a time (`writeDoubleBE`, `readDoubleBE`), the arithmetic of doubles, and the number of a port.
pub record Platform (Number : Type 0) : Type 0 where
  pub hmac : List ℕ → List ℕ → List ℕ
  pub stringify : Message Number → Option (List ℕ)
  pub parse : List ℕ → Option (Json Number)
  pub is_finite : Number → Bool
  pub timestamp : ℕ → List ℕ
  pub read_double : List ℕ → Number
  pub of_ℕ : ℕ → Number
  pub subtract : Number → Number → Number
  pub abs : Number → Number
  pub is_greater : Number → Number → Bool
  pub port_of : List ℕ → Option ℕ

pub record UdpGossipTransport (Number : Type 0) : Type 0 where
  pub has_handler : Bool
  pub closed : Bool
  pub last_payload : Option (ℕ × List ℕ)
  pub secret : Option (List ℕ)
  pub replay_window_ms : ℕ
  pub received : List (Message Number)
  pub sent : List (List ℕ × ℕ × List ℕ)

abbrev pub max_datagram : ℕ
max_datagram = 65507

abbrev pub mac_len : ℕ
mac_len = 32

abbrev pub ts_len : ℕ
ts_len = 8

abbrev pub default_replay_window_ms : ℕ
default_replay_window_ms = 30000

abbrev pub index_of : ℕ → List ℕ → Option ℕ
index_of c [] = none
index_of c (x ∷ xs) =
    let rest = index_of c xs in
    if x == c then some 0 else elim rest [ none ↦ none | some i ↦ some (suc i) ]

abbrev pub starts_with : ℕ → List ℕ → Bool
starts_with c [] = false
starts_with c (x ∷ xs) = x == c

-- An address without brackets, from where its first colon stands.
unfoldable pub parse_plain : (List ℕ → Option ℕ) → List ℕ → Option ℕ → List ℕ × Option ℕ
parse_plain port_of address none = (address, none)
parse_plain port_of address (some first) =
    if (first == 0) || contains (b':') (drop (first + 1) address)
    then (address, none)
    else (take first address, port_of (drop (first + 1) address))

-- A bracket that is closed, or is not.
unfoldable pub parse_bracket : (List ℕ → Option ℕ) → List ℕ → Option ℕ → List ℕ × Option ℕ
unfolding parse_plain
parse_bracket port_of address none = parse_plain port_of address (index_of (b':') address)
parse_bracket port_of address (some close) =
    let rest = drop (close + 1) address in
    (drop 1 (take close address), if starts_with (b':') rest then port_of (drop 1 rest) else none)

unfoldable pub parse_address : (List ℕ → Option ℕ) → List ℕ → List ℕ × Option ℕ
unfolding parse_plain parse_bracket
parse_address port_of address =
    if starts_with (b'[') address
    then parse_bracket port_of address (index_of (b']') address)
    else parse_plain port_of address (index_of (b':') address)

module _ {Number : Type 0} where
  abbrev pub get_field : String → Fields Number → Option (Json Number)
  get_field name no_field = none
  get_field name (field key value rest) =
      let found = get_field name rest in if key === name then some value else found

  abbrev pub text_or_none : Option (Json Number) → Option String
  text_or_none (some (text t)) = some t
  text_or_none _ = none

  abbrev pub is_text : Json Number → Bool
  is_text (text t) = true
  is_text _ = false

  abbrev pub all_texts : Elements Number → Bool
  all_texts no_element = true
  all_texts (element v rest) = is_text v && all_texts rest

  abbrev pub all_text_fields : Fields Number → Bool
  all_text_fields no_field = true
  all_text_fields (field key v rest) = is_text v && all_text_fields rest

  -- `isStringRecord`: the values of an array are its elements.
  abbrev pub is_string_record : Json Number → Bool
  is_string_record (array elements) = all_texts elements
  is_string_record (object fields) = all_text_fields fields
  is_string_record _ = false

  abbrev pub record_or_none : Option (Json Number) → Option (Json Number)
  record_or_none none = none
  record_or_none (some v) = if is_string_record v then some v else none

  module _ (udp : Platform Number) where
    -- The fields that an entry must have, and those that it may have.
    abbrev pub entry_from :
        Option (Json Number)
        → Option (Json Number)
        → Option (Json Number)
        → Fields Number
        → Option (Entry Number)
    entry_from (some (text id)) (some (number incarnation)) (some (boolean alive)) fields =
        if (id === "") || not (udp.is_finite incarnation)
        then none
        else some (record {
          id = id;
          incarnation = incarnation;
          alive = alive;
          address = text_or_none (get_field "address" fields);
          region = text_or_none (get_field "region" fields);
          metadata = record_or_none (get_field "metadata" fields);
        })
    entry_from _ _ _ fields = none

    abbrev pub sanitize_entry : Json Number → Option (Entry Number)
    sanitize_entry (object fields) =
        entry_from (get_field "id" fields) (get_field "incarnation" fields)
          (get_field "alive" fields) fields
    sanitize_entry _ = none

    abbrev pub entry_and : Option (Entry Number) → List (Entry Number) → List (Entry Number)
    entry_and none rest = rest
    entry_and (some e) rest = e ∷ rest

    unfoldable pub sanitize_entries : Elements Number → List (Entry Number)
    sanitize_entries no_element = []
    sanitize_entries (element raw rest) = entry_and (sanitize_entry raw) (sanitize_entries rest)

    abbrev pub has_elements : Elements Number → Bool
    has_elements no_element = false
    has_elements (element raw rest) = true

    abbrev pub is_nil : List (Entry Number) → Bool
    is_nil [] = true
    is_nil (e ∷ es) = false

    unfoldable pub message_from :
        Option (Json Number) → Option (Json Number) → Option (Message Number)
    unfolding sanitize_entries
    message_from (some (text from)) (some (array raws)) =
        let members = sanitize_entries raws in
        if has_elements raws && is_nil members
        then none
        else some (record { from = from; members = members })
    message_from _ _ = none

    -- `sanitizeGossipMessage`
    unfoldable pub sanitize : Json Number → Option (Message Number)
    unfolding message_from
    sanitize (object fields) = message_from (get_field "from" fields) (get_field "members" fields)
    sanitize _ = none
