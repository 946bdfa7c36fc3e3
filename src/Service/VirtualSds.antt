-- ===== src/Service/VirtualSds.antt =====
-- internal/service/virtual_sds.go: endpoints that keep short messages for readers without a radio. A
-- sequence number stands for the int64 that is less by 2^63, which keeps their order. Texts that
-- the code cuts are lists of code points, others are native strings. The time 0 is Go's zero time.
pub mod Messages
pub mod Groups
pub mod Delivery
pub mod Counts
pub mod Histories
pub mod Bounds
pub mod Pool
pub mod Search
mod Tests
use freetetra.Prelude.{
  ℕ, zero, suc, ◌+◌, ◌-◌, ◌%◌, ◌/◌, Bool, true, false, ◌&&◌, ◌||◌, List, [], ◌∷◌, ◌++◌, Option,
  none, some, leb, ◌==◌, if◌then◌else◌,
}
use freetetra.Prelude.Maps.{lookup, insert, delete, number_key}
use mathlib.Core.List.{reverse}
use Prim.Native.String.{String}

abbrev pub virtual_sds_message_limit : ℕ
virtual_sds_message_limit = 400

abbrev pub callout_virtual_issi_base : ℕ
callout_virtual_issi_base = 970000

abbrev pub callout_virtual_issi_span : ℕ
callout_virtual_issi_span = 10000

pub record VirtualSdsMessage : Type 0 where
  pub seq : ℕ
  pub time : ℕ
  pub direction : List ℕ
  pub call_id : String
  pub session : String
  pub source : ℕ
  pub destination : ℕ
  pub frame_type : ℕ
  pub kind : String
  pub payload_hex : String
  pub text : String
  pub wrapped : Bool

pub record EndpointState : Type 0 where
  pub issi : ℕ
  pub name : List ℕ
  pub created : ℕ
  pub updated : ℕ
  pub last_rx : ℕ
  pub last_tx : ℕ
  pub rx_count : ℕ
  pub tx_count : ℕ
  pub messages : List VirtualSdsMessage

-- The fields of the service that the file uses.
pub record VirtualSds : Type 0 where
  pub endpoints : List (ℕ × EndpointState)
  pub group_callout : List (ℕ × ℕ)
  pub sds_seq : ℕ

-- Go's unicode.IsSpace.
unfoldable pub is_space : ℕ → Bool
is_space c =
    (leb 9 c && leb c 13)
    || c == 32
    || c == 133
    || c == 160
    || c == 5760
    || (leb 8192 c && leb c 8202)
    || c == 8232
    || c == 8233
    || c == 8239
    || c == 8287
    || c == 12288

unfoldable pub trim_left : List ℕ → List ℕ
unfolding is_space
trim_left [] = []
trim_left (c ∷ cs) = let rest = trim_left cs in if is_space c then rest else c ∷ cs

-- Go's strings.TrimSpace.
unfoldable pub trim_space : List ℕ → List ℕ
unfolding trim_left
trim_space cs = reverse (trim_left (reverse (trim_left cs)))

unfoldable pub same_text : List ℕ → List ℕ → Bool
same_text [] [] = true
same_text [] (y ∷ ys) = false
same_text (x ∷ xs) [] = false
same_text (x ∷ xs) (y ∷ ys) = x == y && same_text xs ys

-- Go's strings.HasPrefix, the prefix first.
unfoldable pub has_prefix : List ℕ → List ℕ → Bool
has_prefix [] ys = true
has_prefix (x ∷ xs) [] = false
has_prefix (x ∷ xs) (y ∷ ys) = x == y && has_prefix xs ys

-- The verb %d; an uint32 has at most 10 digits.
unfoldable pub digits : ℕ → ℕ → List ℕ
digits zero n = []
digits (suc k) n =
    let rest = digits k (n / 10) in if leb n 9 then (48 + n) ∷ [] else rest ++ ((48 + n % 10) ∷ [])

abbrev pub decimal : ℕ → List ℕ
unfolding digits
decimal n = digits 10 n

-- "rx", "tx", "virtual-" and "callout-group-".
abbrev pub rx : List ℕ
rx = 114 ∷ 120 ∷ []

abbrev pub tx : List ℕ
tx = 116 ∷ 120 ∷ []

abbrev pub virtual_prefix : List ℕ
virtual_prefix = 118 ∷ 105 ∷ 114 ∷ 116 ∷ 117 ∷ 97 ∷ 108 ∷ 45 ∷ []

abbrev pub callout_group_prefix : List ℕ
callout_group_prefix =
    99 ∷ 97 ∷ 108 ∷ 108 ∷ 111 ∷ 117 ∷ 116 ∷ 45 ∷ 103 ∷ 114 ∷ 111 ∷ 117 ∷ 112 ∷ 45 ∷ []

unfoldable pub normalize_name : List ℕ → ℕ → List ℕ
unfolding trim_space same_text digits
normalize_name name issi =
    let cut = trim_space name in if same_text cut [] then virtual_prefix ++ decimal issi else cut

abbrev pub new_endpoint : ℕ → ℕ → EndpointState
new_endpoint issi now = record {
  issi = issi;
  name = [];
  created = now;
  updated = 0;
  last_rx = 0;
  last_tx = 0;
  rx_count = 0;
  tx_count = 0;
  messages = [];
}

-- The endpoint under a number, made if it is missing, with a name; whether it was made.
unfoldable pub name_endpoint : VirtualSds → ℕ → List ℕ → ℕ → VirtualSds × Bool
unfolding lookup insert
name_endpoint s issi name now = elim (lookup issi s.endpoints) [
  | some ep ↦ (
    record s { endpoints = insert issi (record ep { name = name; updated = now }) s.endpoints },
    false,
  )
  | none ↦ (
    record s {
      endpoints =
          insert issi (record (new_endpoint issi now) { name = name; updated = now }) s.endpoints;
    },
    true,
  )
]

unfoldable pub upsert_virtual_sds_endpoint : VirtualSds → ℕ → List ℕ → ℕ → VirtualSds × Bool
unfolding name_endpoint normalize_name
upsert_virtual_sds_endpoint s issi name now = name_endpoint s issi (normalize_name name issi) now

unfoldable pub delete_virtual_sds_endpoint : VirtualSds → ℕ → VirtualSds × Bool
unfolding lookup delete
delete_virtual_sds_endpoint s issi = elim (lookup issi s.endpoints) [
  | none ↦ (s, false)
  | some _ ↦ (record s { endpoints = delete issi s.endpoints }, true)
]

unfoldable pub has_virtual_sds_endpoint : VirtualSds → ℕ → Bool
unfolding lookup
has_virtual_sds_endpoint s issi = elim (lookup issi s.endpoints) [ none ↦ false | some _ ↦ true ]
