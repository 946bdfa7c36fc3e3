-- ===== src/Service/VirtualSds/Histories.antt =====
-- internal/service/virtual_sds.go: histories of operations.
use freetetra.Prelude.{
  ℕ, ◌+◌, ◌≡◌, ◌≤◌, ◌<◌, refl, arith, Bool, List, [], ◌∷◌, ◌++◌, ◌==◌, length, Bool-cases, inl, inr,
}
use freetetra.Prelude.Maps.{lookup, number_key}
use mathlib.Core.List.{append-nil, append_assoc}
use freetetra.Service.VirtualSds.{
  VirtualSds, VirtualSdsMessage, upsert_virtual_sds_endpoint, delete_virtual_sds_endpoint,
  normalize_name,
}
use freetetra.Service.VirtualSds.Messages.{virtual_sds_messages, maybe_store_virtual_sds_message}
use freetetra.Service.VirtualSds.Groups.{ensure_group_callout_virtual_endpoint}
use freetetra.Service.VirtualSds.Counts.{
  count, count-append, messages_of, name_endpoint_lem, ensure_lem, delete_lem, Counts, store-Counts,
  taken, read-Counts,
}

pub data Event : Type 0 where
  upserts : ℕ → List ℕ → ℕ → Event
  deletes : ℕ → Event
  ensures : ℕ → ℕ → Event
  stores : ℕ → VirtualSdsMessage → ℕ → Event
  reads : ℕ → ℕ → ℕ → Bool → ℕ → Event

unfoldable pub step : VirtualSds → Event → VirtualSds
step s (upserts issi name now) = (upsert_virtual_sds_endpoint s issi name now).0
step s (deletes issi) = (delete_virtual_sds_endpoint s issi).0
step s (ensures gssi now) = (ensure_group_callout_virtual_endpoint s gssi now).0
step s (stores issi msg now) = (maybe_store_virtual_sds_message s issi msg now).0
step s (reads issi since limit consume now) =
    (virtual_sds_messages s issi since limit consume now).0

unfoldable pub run : VirtualSds → List Event → VirtualSds
run s [] = s
run s (e ∷ es) = run (step s e) es

-- The messages that an event takes away from an endpoint, and those that a history takes away.
unfoldable pub given : ℕ → VirtualSds → Event → List VirtualSdsMessage
unfolding taken
given t s (upserts issi name now) = []
given t s (deletes issi) = []
given t s (ensures gssi now) = []
given t s (stores issi msg now) = []
given t s (reads issi since limit consume now) =
    taken t issi consume (virtual_sds_messages s issi since limit consume now).1

unfoldable pub all_given : ℕ → VirtualSds → List Event → List VirtualSdsMessage
unfolding given
all_given t s [] = []
all_given t s (e ∷ es) = given t s e ++ all_given t (step s e) es

-- A new service; the number 0 of an int64 is 2^63 here.
abbrev pub new_virtual_sds : VirtualSds
new_virtual_sds = record { endpoints = []; group_callout = []; sds_seq = 0x8000_0000_0000_0000 }

step-Counts :
    (t : ℕ) (s : VirtualSds) (e : Event)
    → s.sds_seq + 1 < 0x1_0000_0000_0000_0000
    → Counts t s (step s e) (given t s e)
unfolding step given count upsert_virtual_sds_endpoint
step-Counts t s (upserts issi name now) small =
    let (same, seq) = name_endpoint_lem s issi t (normalize_name name issi) now in
    inl (seq, λ n. rw same (omega arith))
step-Counts t s (deletes issi) small =
    inl ((delete_lem s issi t 0).1, λ n. omega (arith, (delete_lem s issi t n).0))
step-Counts t s (ensures gssi now) small =
    let (same, seq) = ensure_lem s gssi t now in inl (seq, λ n. rw same (omega arith))
step-Counts t s (stores issi msg now) small = store-Counts s issi t msg now small
step-Counts t s (reads issi since limit consume now) small =
    read-Counts s issi t since limit consume now

-- No number is there twice, and none is there that is still to come.
abbrev IsCounted : ℕ → VirtualSds → List VirtualSdsMessage → Type 0
IsCounted t s got =
    ((n : ℕ) → count n got + count n (messages_of t s) ≤ 1)
    × ((n : ℕ) → s.sds_seq < n → count n got + count n (messages_of t s) ≡ 0)

step-IsCounted :
    (t : ℕ) (s s' : VirtualSds) (got more : List VirtualSdsMessage)
    → Counts t s s' more
    → IsCounted t s got
    → IsCounted t s' (got ++ more)
step-IsCounted t s s' got more (inl (seq, fewer)) (once, to_come) = (
  λ n. omega (arith, count-append n got more, fewer n, once n),
  λ n later. omega (arith, count-append n got more, fewer n, to_come n (omega (arith, seq, later))),
)
step-IsCounted t s s' got more (inr (seq, fewer)) (once, to_come) = (
  λ n. elim (Bool-cases (s.sds_seq + 1 == n)) [
    | inl this ↦
        ground (arith, count-append n got more, fewer n, this, to_come n (ground (arith, this)))
    | inr other ↦ ground (arith, count-append n got more, fewer n, other, once n)
  ],
  λ n later.
      ground (
        arith,
        count-append n got more,
        fewer n,
        seq,
        later,
        to_come n (omega (arith, seq, later)),
      ),
)

seq_lem :
    (t : ℕ) (s s' : VirtualSds) (more : List VirtualSdsMessage)
    → Counts t s s' more
    → s'.sds_seq ≤ s.sds_seq + 1
seq_lem t s s' more (inl (seq, _)) = omega arith
seq_lem t s s' more (inr (seq, _)) = omega arith

all_given-IsCounted :
    (t : ℕ) (s : VirtualSds) (got : List VirtualSdsMessage) (es : List Event)
    → s.sds_seq + length es < 0x1_0000_0000_0000_0000
    → IsCounted t s got
    → IsCounted t (run s es) (got ++ all_given t s es)
unfolding run all_given
all_given-IsCounted t s got [] small v = rw (append-nil got) v
all_given-IsCounted t s got (e ∷ es) small v =
    let change = step-Counts t s e (omega (arith, small)) in
    rw (← append_assoc got (given t s e) (all_given t (step s e) es)) (
      all_given-IsCounted t (step s e) (got ++ given t s e) es
        (omega (arith, small, seq_lem t s (step s e) (given t s e) change))
        (step-IsCounted t s (step s e) got (given t s e) change v))

-- Over any history of fewer than 2^63 operations at a new service, the messages that were taken away
-- from an endpoint, and those that it still keeps, all have different sequence numbers: no message is
-- taken away twice, and none that was taken away is still kept.
pub taken_once :
    (t n : ℕ) (es : List Event)
    → length es < 0x8000_0000_0000_0000
    → count n (all_given t new_virtual_sds es) + count n (messages_of t (run new_virtual_sds es))
      ≤ 1
taken_once t n es few =
    (all_given-IsCounted t new_virtual_sds [] es (omega (arith, few))
        (unfold messages_of count lookup in (λ n. omega arith, λ n _. refl))).0
      n
