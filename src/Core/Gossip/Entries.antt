-- ===== src/Core/Gossip/Entries.antt =====
-- Gossip.ts and Membership.ts: the records, and the validation of an entry off the wire.
use rtcforge.Prelude.{
  ℕ, ◌+◌, ◌%◌, ◌≤◌, ◌<◌, Bool, not, ◌&&◌, List, Option, none, some, String, ◌≡◌, arith, ltb, ◌==◌,
  ◌===◌, if◌then◌else◌, text_key,
}

-- `incarnation + 1` on a double that is a natural number: exact below 2 ^ 53. From there to 2 ^ 54 the
-- doubles are the even numbers, and the odd sum is rounded to the multiple of 4 beside it; above, the
-- sum is rounded back.
unfoldable pub add_one : ℕ → ℕ
add_one n =
    if ltb n 9007199254740992
    then n + 1
    else if ltb n 18014398509481984 && not (n % 4 == 0)
    then n + 2
    else n

pub add_one-ge : (n : ℕ) → n ≤ add_one n
unfolding add_one
add_one-ge n = ground arith

pub add_one_exact : (n : ℕ) → n < 9007199254740992 → add_one n ≡ n + 1
unfolding add_one
add_one_exact n small = ground arith

pub add_one_stuck : (n : ℕ) → 18014398509481984 ≤ n → add_one n ≡ n
unfolding add_one
add_one_stuck n large = ground arith

pub record NodeInfo : Type 0 where
  pub id : String
  pub region : Option String
  pub address : Option String
  pub metadata : List (String × String)

pub record GossipEntry : Type 0 where
  pub id : String
  pub address : Option String
  pub region : Option String
  pub metadata : List (String × String)
  pub incarnation : ℕ
  pub alive : Bool

pub record GossipMessage : Type 0 where
  pub from : String
  pub members : List GossipEntry

pub record MemberRecord : Type 0 where
  pub info : NodeInfo
  pub address : Option String
  pub incarnation : ℕ
  pub alive : Bool
  pub last_seen : ℕ

-- A value off the wire: no object, or an object whose fields may have any type. `none` stands for an
-- `id` that is no text, an `incarnation` that is no finite integer from 0 on, an `alive` that is no
-- Boolean.
pub data RawEntry : Type 0 where
  no_object : RawEntry
  object :
      Option String
      → Option ℕ
      → Option Bool
      → Option String
      → Option String
      → List (String × String)
      → RawEntry

-- `_isValidEntry`, with the entry that it lets through.
unfoldable pub valid_entry : RawEntry → Option GossipEntry
valid_entry (object (some id) (some incarnation) (some alive) address region metadata) =
    if id === ""
    then none
    else some (record {
      id = id;
      address = address;
      region = region;
      metadata = metadata;
      incarnation = incarnation;
      alive = alive;
    })
valid_entry _ = none
