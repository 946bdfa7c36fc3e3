-- ===== src/Service/Sds/Octets.antt =====
-- internal/service/sds_codec.go: the fields that are read back from the octets of a callout's header.
-- Each fact is a table over the values of the fields, checked by evaluation.
use Prim.Native.Nat.{bit_and, bit_or}
use freetetra.Prelude.{
  ℕ, zero, suc, ◌*◌, ◌/◌, ◌%◌, ◌<◌, ◌≡◌, refl, arith, Bool, true, false, ◌&&◌, not, ◌==◌,
}
use freetetra.Service.Sds.Callout.{bit_set, status_octet, control_octet, flags_octet}

unfoldable pub all_below : (ℕ → Bool) → ℕ → Bool
all_below test zero = true
all_below test (suc n) = test n && all_below test n

pub all_below→ : (test : ℕ → Bool) (n i : ℕ) → all_below test n ≡ true → i < n → test i ≡ true
unfolding all_below
all_below→ test zero i e h = absurd (omega arith)
all_below→ test (suc n) i e h = ground (arith, all_below→ test n i)

all_below2→ :
    (test : ℕ → ℕ → Bool) (n m i j : ℕ)
    → all_below (λ i. all_below (test i) m) n ≡ true
    → i < n
    → j < m
    → test i j ≡ true
all_below2→ test n m i j e h k =
    all_below→ (test i) m j (all_below→ (λ i. all_below (test i) m) n i e h) k

same_bool : Bool → Bool → Bool
same_bool true b = b
same_bool false b = not b

same_bool→ : (a b : Bool) → same_bool a b ≡ true → b ≡ a
unfolding same_bool
same_bool→ a b h = ground arith

status_ok : Bool → ℕ → ℕ → Bool
unfolding same_bool status_octet
status_ok storage mt report =
    let b = status_octet mt report storage in
    bit_and (b / 16) 0x0f == mt
    && bit_and (b / 4) 0x03 == report
    && not (bit_set b 0x02)
    && same_bool storage (bit_set b 0x01)

status_table : (storage : Bool) → all_below (λ i. all_below (status_ok storage i) 4) 16 ≡ true
unfolding status_ok all_below same_bool status_octet
status_table true = refl
status_table false = refl

pub status_octet_lem :
    (mt report : ℕ) (storage : Bool)
    → mt < 16
    → report < 4
    → (bit_and (status_octet mt report storage / 16) 0x0f ≡ mt)
      × (bit_and (status_octet mt report storage / 4) 0x03 ≡ report)
      × (bit_set (status_octet mt report storage) 0x02 ≡ false)
      × (bit_set (status_octet mt report storage) 0x01 ≡ storage)
unfolding status_ok
status_octet_lem mt report storage h k =
    let table = all_below2→ (status_ok storage) 16 4 mt report (status_table storage) h k in
    ground (arith, table, same_bool→ storage (bit_set (status_octet mt report storage) 0x01))

control_ok : Bool → Bool → ℕ → ℕ → Bool
unfolding same_bool control_octet
control_ok timestamp receipt group severity =
    let b = control_octet group severity timestamp receipt in
    bit_and b 0x0f == severity
    && bit_and (b / 64) 0x03 == group
    && same_bool timestamp (bit_set b 0x20)
    && same_bool receipt (bit_set b 0x10)

control_table :
    (timestamp receipt : Bool)
    → all_below (λ i. all_below (control_ok timestamp receipt i) 16) 4 ≡ true
unfolding control_ok all_below same_bool control_octet
control_table true true = refl
control_table true false = refl
control_table false true = refl
control_table false false = refl

pub control_octet_lem :
    (group severity : ℕ) (timestamp receipt : Bool)
    → group < 4
    → severity < 16
    → (bit_and (control_octet group severity timestamp receipt) 0x0f ≡ severity)
      × (bit_and (control_octet group severity timestamp receipt / 64) 0x03 ≡ group)
      × (bit_set (control_octet group severity timestamp receipt) 0x20 ≡ timestamp)
      × (bit_set (control_octet group severity timestamp receipt) 0x10 ≡ receipt)
unfolding control_ok
control_octet_lem group severity timestamp receipt h k =
    let table =
      all_below2→ (control_ok timestamp receipt) 4 16 group severity
        (control_table timestamp receipt) h k in
    ground (
      arith,
      table,
      same_bool→ timestamp (bit_set (control_octet group severity timestamp receipt) 0x20),
      same_bool→ receipt (bit_set (control_octet group severity timestamp receipt) 0x10),
    )

pub flags_octet_lem :
    (status end_callout ptt : Bool)
    → (bit_set (flags_octet status end_callout ptt) 0x80 ≡ status)
      × (bit_set (flags_octet status end_callout ptt) 0x40 ≡ end_callout)
      × (bit_set (flags_octet status end_callout ptt) 0x20 ≡ ptt)
      × (bit_set (flags_octet status end_callout ptt) 0x1f ≡ false)
unfolding flags_octet
flags_octet_lem true true true = (refl, refl, refl, refl)
flags_octet_lem true true false = (refl, refl, refl, refl)
flags_octet_lem true false true = (refl, refl, refl, refl)
flags_octet_lem true false false = (refl, refl, refl, refl)
flags_octet_lem false true true = (refl, refl, refl, refl)
flags_octet_lem false true false = (refl, refl, refl, refl)
flags_octet_lem false false true = (refl, refl, refl, refl)
flags_octet_lem false false false = (refl, refl, refl, refl)

coding_ok : ℕ → Bool
coding_ok t =
    let wide = bit_or 0x80 (bit_and t 0x7f) in
    let narrow = bit_and t 0x7f in
    bit_and wide 0x7f == t
    && bit_set wide 0x80
    && bit_and narrow 0x7f == t
    && not (bit_set narrow 0x80)

coding_table : all_below coding_ok 128 ≡ true
unfolding all_below coding_ok
coding_table = refl

pub coding_octet_lem :
    (t : ℕ)
    → t < 128
    → (bit_and (bit_or 0x80 (bit_and t 0x7f)) 0x7f ≡ t)
      × (bit_set (bit_or 0x80 (bit_and t 0x7f)) 0x80 ≡ true)
      × (bit_and (bit_and t 0x7f) 0x7f ≡ t)
      × (bit_set (bit_and t 0x7f) 0x80 ≡ false)
unfolding coding_ok
coding_octet_lem t h =
    let table = all_below→ coding_ok 128 t coding_table h in ground (arith, table)

function_ok : ℕ → ℕ → Bool
function_ok f n =
    let wide = bit_and f 0x0f * 16 % 256 in
    let narrow = bit_or wide (bit_and n 0x0f) in
    bit_and (wide / 16) 0x0f == f && bit_and (narrow / 16) 0x0f == f && bit_and narrow 0x0f == n

function_table : all_below (λ f. all_below (function_ok f) 16) 16 ≡ true
unfolding all_below function_ok
function_table = refl

pub function_octet_lem :
    (f n : ℕ)
    → f < 16
    → n < 16
    → (bit_and (bit_and f 0x0f * 16 % 256 / 16) 0x0f ≡ f)
      × (bit_and (bit_or (bit_and f 0x0f * 16 % 256) (bit_and n 0x0f) / 16) 0x0f ≡ f)
      × (bit_and (bit_or (bit_and f 0x0f * 16 % 256) (bit_and n 0x0f)) 0x0f ≡ n)
unfolding function_ok
function_octet_lem f n h k =
    let table = all_below2→ function_ok 16 16 f n function_table h k in ground (arith, table)
