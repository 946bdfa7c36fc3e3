-- ===== src/Federation/Peer/Queue.antt =====
-- internal/federation/peer.go: the queue of frames to a peer under sends, `writeLoop` and `Close`.
use freetetra.Prelude.{
  ℕ, ◌+◌, ◌%◌, ◌≤◌, ◌≡◌, refl, sym, ap, ◌∙◌, arith, Bool, true, ◌&&◌, not, List, [], ◌∷◌, ◌++◌,
  length, ltb, if◌then◌else◌, length-append,
}
use freetetra.Federation.Peer.{
  Frame, control_frame, voice_frame, Peer, send_capacity, send_control, send_voice_frame, Round,
  leave, take_frame, Wrote, waits, returned, wrote, failed, write_next, count_sent, new_peer,
}
use mathlib.Core.List.{append-nil, append_assoc}
use Prim.Native.String.{String}

-- What happens: sends, each with Go's choice, rounds of the write loop, and `Close`.
pub data Use (C : Type 0) : Type 0 where
  put_control : C → Bool → Use C
  put_voice : String → List ℕ → Bool → Use C
  write : Round → Use C
  shut : Use C

-- Whether the write loop still runs, has returned, or has returned because it lost a frame.
pub data Loop (C : Type 0) : Type 0 where
  running over : Loop C
  broken : Frame C → Loop C

-- A peer with its write loop and the frames that the stream took, oldest first.
pub record Line (C E : Type 0) : Type 0 where
  pub peer : Peer C E
  pub written : List (Frame C)
  pub loop : Loop C

module _ {C : Type 0} where
  abbrev pub lost : Loop C → List (Frame C)
  lost running = []
  lost over = []
  lost (broken f) = f ∷ []

  abbrev pub controls : List (Frame C) → ℕ
  controls [] = 0
  controls (control_frame _ ∷ fs) = controls fs + 1
  controls (voice_frame _ _ ∷ fs) = controls fs

  abbrev pub voices : List (Frame C) → ℕ
  voices [] = 0
  voices (control_frame _ ∷ fs) = voices fs
  voices (voice_frame _ _ ∷ fs) = voices fs + 1

  controls-append : (fs gs : List (Frame C)) → controls (fs ++ gs) ≡ controls fs + controls gs
  controls-append [] gs = omega arith
  controls-append (control_frame c ∷ fs) gs = omega (arith, controls-append fs gs)
  controls-append (voice_frame u d ∷ fs) gs = controls-append fs gs

  voices-append : (fs gs : List (Frame C)) → voices (fs ++ gs) ≡ voices fs + voices gs
  voices-append [] gs = omega arith
  voices-append (control_frame c ∷ fs) gs = voices-append fs gs
  voices-append (voice_frame u d ∷ fs) gs = omega (arith, voices-append fs gs)

module _ {C E : Type 0} where
  abbrev after_round : Line C E → Peer C E × Wrote C → Line C E
  after_round l (p, waits) = record l { peer = p }
  after_round l (p, returned) = record l { peer = p; loop = over }
  after_round l (p, wrote f) = record l { peer = p; written = l.written ++ (f ∷ []) }
  after_round l (p, failed f) = record l { peer = p; loop = broken f }

  abbrev round : Line C E → Loop C → Round → Line C E
  round l running r = after_round l (write_next l.peer r)
  round l over r = l
  round l (broken f) r = l

  unfoldable pub use_queue : Line C E → Use C → Line C E
  use_queue l (put_control c b) = record l { peer = (send_control l.peer c b).0 }
  use_queue l (put_voice u d b) = record l { peer = (send_voice_frame l.peer u d b).0 }
  use_queue l (write r) = round l l.loop r
  use_queue l shut = record l { peer = record l.peer { done = true } }

  -- The frame that a use adds to the queue of `p`, if it adds one.
  unfoldable pub added : Peer C E → Use C → List (Frame C)
  added p (put_control c b) =
      if ltb (length p.send) send_capacity && not (p.done && b) then control_frame c ∷ [] else []
  added p (put_voice u d b) =
      if ltb (length p.send) send_capacity && not (p.done && b) then voice_frame u d ∷ [] else []
  added p (write _) = []
  added p shut = []

  unfoldable pub run_queue : Line C E → List (Use C) → Line C E
  run_queue l [] = l
  run_queue l (u ∷ us) = run_queue (use_queue l u) us

  unfoldable pub all_added : Line C E → List (Use C) → List (Frame C)
  all_added l [] = []
  all_added l (u ∷ us) = added l.peer u ++ all_added (use_queue l u) us

  -- All frames, in the order in which they were accepted.
  abbrev pub frames : Line C E → List (Frame C)
  frames l = l.written ++ (lost l.loop ++ l.peer.send)

  -- The counters are those of the frames written, and the queue is within its capacity.
  abbrev pub IsSound : Line C E → Type 0
  IsSound l =
      (length l.peer.send ≤ send_capacity)
      × (l.peer.sent_control ≡ controls l.written % 0x1_0000_0000_0000_0000)
      × (l.peer.sent_voice ≡ voices l.written % 0x1_0000_0000_0000_0000)

  -- A round of a running loop with the queue `queue`.
  round_order :
      (p : Peer C E) (written queue : List (Frame C)) (b : Bool)
      → p.send ≡ queue
      → frames (
          after_round
            (record { peer = p; written = written; loop = running })
            (write_next p (take_frame b)))
        ≡ written ++ queue
  unfolding write_next count_sent
  round_order p written [] b e = ground (arith, e)
  round_order p written (control_frame c ∷ q) b e =
      ground (arith, e, append_assoc written (control_frame c ∷ []) q)
  round_order p written (voice_frame v d ∷ q) b e =
      ground (arith, e, append_assoc written (voice_frame v d ∷ []) q)

  round-IsSound :
      (p : Peer C E) (written queue : List (Frame C)) (b : Bool)
      → p.send ≡ queue
      → IsSound (record { peer = p; written = written; loop = running })
      → IsSound (
          after_round
            (record { peer = p; written = written; loop = running })
            (write_next p (take_frame b)))
  unfolding write_next count_sent
  round-IsSound p written [] b e s = ground (arith, e, s)
  round-IsSound p written (control_frame c ∷ q) b e s = ground (
    arith,
    e,
    s,
    controls-append written (control_frame c ∷ []),
    voices-append written (control_frame c ∷ []),
  )
  round-IsSound p written (voice_frame v d ∷ q) b e s = ground (
    arith,
    e,
    s,
    controls-append written (voice_frame v d ∷ []),
    voices-append written (voice_frame v d ∷ []),
  )

  any_round_order :
      (p : Peer C E) (written : List (Frame C)) (lp : Loop C) (r : Round)
      → let l : Line C E = record { peer = p; written = written; loop = lp } in
        frames (round l lp r) ≡ frames l
  unfolding write_next
  any_round_order p written running (take_frame b) = round_order p written p.send b refl
  any_round_order p written running leave = refl
  any_round_order p written over r = refl
  any_round_order p written (broken f) r = refl

  any_round-IsSound :
      (p : Peer C E) (written : List (Frame C)) (lp : Loop C) (r : Round)
      → let l : Line C E = record { peer = p; written = written; loop = lp } in
        IsSound l → IsSound (round l lp r)
  unfolding write_next
  any_round-IsSound p written running (take_frame b) s = round-IsSound p written p.send b refl s
  any_round-IsSound p written running leave s = s
  any_round-IsSound p written over r s = s
  any_round-IsSound p written (broken f) r s = s

  use_queue_order : (l : Line C E) (u : Use C) → frames (use_queue l u) ≡ frames l ++ added l.peer u
  unfolding use_queue added send_control send_voice_frame
  use_queue_order l (put_control c b) = ground (
    arith,
    append-nil (frames l),
    append_assoc l.written (lost l.loop ++ l.peer.send) (control_frame c ∷ []),
    append_assoc (lost l.loop) l.peer.send (control_frame c ∷ []),
  )
  use_queue_order l (put_voice u d b) = ground (
    arith,
    append-nil (frames l),
    append_assoc l.written (lost l.loop ++ l.peer.send) (voice_frame u d ∷ []),
    append_assoc (lost l.loop) l.peer.send (voice_frame u d ∷ []),
  )
  use_queue_order l (write r) =
      any_round_order l.peer l.written l.loop r ∙ sym (append-nil (frames l))
  use_queue_order l shut = sym (append-nil (frames l))

  use_queue-IsSound : (l : Line C E) (u : Use C) → IsSound l → IsSound (use_queue l u)
  unfolding use_queue send_control send_voice_frame
  use_queue-IsSound l (put_control c b) s =
      ground (arith, s, length-append l.peer.send (control_frame c ∷ []))
  use_queue-IsSound l (put_voice u d b) s =
      ground (arith, s, length-append l.peer.send (voice_frame u d ∷ []))
  use_queue-IsSound l (write r) s = any_round-IsSound l.peer l.written l.loop r s
  use_queue-IsSound l shut s = s

  run_queue_order_from :
      (l : Line C E) (us : List (Use C)) → frames (run_queue l us) ≡ frames l ++ all_added l us
  unfolding run_queue all_added
  run_queue_order_from l [] = sym (append-nil (frames l))
  run_queue_order_from l (u ∷ us) =
      run_queue_order_from (use_queue l u) us
      ∙ ap (λ t. t ++ all_added (use_queue l u) us) (use_queue_order l u)
      ∙ append_assoc (frames l) (added l.peer u) (all_added (use_queue l u) us)

  run_queue-IsSound : (l : Line C E) (us : List (Use C)) → IsSound l → IsSound (run_queue l us)
  unfolding run_queue
  run_queue-IsSound l [] s = s
  run_queue-IsSound l (u ∷ us) s = run_queue-IsSound (use_queue l u) us (use_queue-IsSound l u s)

  -- A connection that has just been made.
  abbrev pub connected : String → String → Line C E
  connected name direction = record { peer = new_peer name direction; written = []; loop = running }

-- Over any sequence of sends, rounds of the write loop, failing ones too, and closings after a
-- connection is made, the frames written, then the one whose write failed, if there is one, then
-- those still queued are the accepted frames in their order. So the loop drops at most one frame
-- that it took, and writes none after it. The two counters of written frames count them, up to 64
-- bits, and the queue never passes its capacity.
pub run_queue_order :
    (C E : Type 0) (name direction : String) (us : List (Use C))
    → let l = run_queue (connected {C = C} {E = E} name direction) us in
      (l.written ++ (lost l.loop ++ l.peer.send)
        ≡ all_added (connected {C = C} {E = E} name direction) us)
      × (length l.peer.send ≤ send_capacity)
      × (l.peer.sent_control ≡ controls l.written % 0x1_0000_0000_0000_0000)
      × (l.peer.sent_voice ≡ voices l.written % 0x1_0000_0000_0000_0000)
unfolding new_peer
run_queue_order C E name direction us =
    let start = connected {C = C} {E = E} name direction in
    let (bound, controls_sent, voices_sent) =
      run_queue-IsSound start us (omega arith, refl, refl) in
    (run_queue_order_from start us, bound, controls_sent, voices_sent)
