-- ===== src/Service/Callouts/States/Replies.antt =====
-- internal/service/callout_state.go: what a reply of a radio to a group's callout leaves.
use freetetra.Prelude.{
  ℕ, ◌+◌, ◌≡◌, refl, ap, subst, ◌∙◌, arith, Bool, true, false, ◌&&◌, not, List, [], ◌∷◌, length,
  ==_iff, none, some, ◌==◌, if◌then◌else◌, Bool-cases, inl, inr,
}
use freetetra.Prelude.Maps.{lookup, insert, lookup-insert}
use freetetra.Service.Sds.{FrameEnvelope}
use freetetra.Service.Sds.Callout.{CalloutMessage}
use freetetra.Service.Callouts.{is_callout_reply_message}
use freetetra.Service.Callouts.States.{
  StateKey, by_destination, by_reply, States, CalloutState, state_key, same_state, same_state_iff,
  new_state, copy_message,
}
use freetetra.Service.Callouts.States.Rx.{
  known, resolve_key, is_subscriber_reply, made_state, receive_in, count_at_parent, note_callout_rx,
  note_at, state_at,
}
use Prim.Native.String.{String}

-- The callout of the group is found if there is none of the radio itself.
resolve_key-group :
    (states : States) (env : FrameEnvelope) (c : CalloutMessage) (parent : CalloutState)
    → (env.destination == 0) ≡ false
    → lookup (by_destination "group" env.destination c.callout_number) states ≡ some parent
    → lookup (by_destination "subscriber" env.source c.callout_number) states ≡ none
    → resolve_key states env c ≡ by_destination "group" env.destination c.callout_number
unfolding resolve_key known
resolve_key-group states env c parent addressed e free = ground (arith, addressed, e, free)

-- The number of responses under a key.
abbrev pub responses_at : StateKey → States → ℕ
responses_at key states = elim (lookup key states) [ none ↦ 0 | some st ↦ st.responses ]

note_at-reply :
    (states : States) (session : String) (env : FrameEnvelope) (c : CalloutMessage) (now : ℕ)
    (parent : CalloutState) (group reply k : StateKey)
    → lookup group states ≡ some parent
    → same_state group reply ≡ false
    → (responses_at reply (note_at states group reply true session env c now)
        ≡ responses_at reply states + 1)
      × (lookup group (note_at states group reply true session env c now)
          ≡ some (record parent { responses = parent.responses + 1; updated = now }))
      × (same_state reply k ≡ false
          → same_state group k ≡ false
          → lookup k (note_at states group reply true session env c now) ≡ lookup k states)
unfolding note_at count_at_parent state_at receive_in made_state new_state copy_message
note_at-reply states session env c now parent group reply k e apart =
    let st = receive_in (state_at states group reply env c) reply env c session now in
    let parent' : CalloutState = record parent {
      responses = parent.responses + 1;
      updated = now;
    } in
    let counted = insert group parent' states in
    (
      ground (arith, e, apart, lookup-insert reply reply st counted, same_state_iff reply reply),
      ground (
        arith,
        e,
        apart,
        lookup-insert reply group st counted,
        lookup-insert group group parent' states,
        same_state_iff reply group,
        same_state_iff group reply,
        same_state_iff group group,
      ),
      λ not_reply not_group. ground (
        arith,
        e,
        apart,
        not_reply,
        not_group,
        lookup-insert reply k st counted,
        lookup-insert group k parent' states,
      ),
    )

-- A callout that is received.
pub record Received : Type 0 where
  pub session : String
  pub env : FrameEnvelope
  pub callout : CalloutMessage
  pub now : ℕ

abbrev pub group_key : ℕ → ℕ → StateKey
group_key group number = by_destination "group" group number

-- Whether it is a reply of a radio to the callout of a group.
unfoldable pub answers : ℕ → ℕ → Received → Bool
unfolding is_callout_reply_message
answers group number r =
    r.env.destination == group
    && r.callout.callout_number == number
    && is_callout_reply_message r.callout
    && not (r.env.source == 0)

unfoldable pub all_answer : ℕ → ℕ → List Received → Bool
unfolding answers
all_answer group number [] = true
all_answer group number (r ∷ rs) = answers group number r && all_answer group number rs

unfoldable pub receive_all : States → List Received → States
receive_all states [] = states
receive_all states (r ∷ rs) =
    receive_all (note_callout_rx states r.session r.env r.callout r.now).0 rs

-- The replies of a radio.
unfoldable pub replies_of : ℕ → List Received → ℕ
replies_of radio [] = 0
replies_of radio (r ∷ rs) = (if r.env.source == radio then 1 else 0) + replies_of radio rs

note_callout_rx-sent :
    (states : States) (session : String) (env : FrameEnvelope) (c : CalloutMessage) (now : ℕ)
    (parent : CalloutState)
    → (env.destination == 0) ≡ false
    → is_subscriber_reply env c ≡ true
    → lookup (group_key env.destination c.callout_number) states ≡ some parent
    → lookup (by_destination "subscriber" env.source c.callout_number) states ≡ none
    → (note_callout_rx states session env c now).0
      ≡ note_at states
          (group_key env.destination c.callout_number)
          (by_reply env.source env.destination c.callout_number)
          true
          session
          env
          c
          now
unfolding note_callout_rx
note_callout_rx-sent states session env c now parent addressed reply e free =
    let group = group_key env.destination c.callout_number in
    let own = by_reply env.source env.destination c.callout_number in
    let b = is_subscriber_reply env c in
    ap (λ k. note_at states k (if b then own else k) b session env c now)
      (resolve_key-group states env c parent addressed e free)
    ∙ ap (λ a. note_at states group (if a then own else group) a session env c now) reply

note_callout_rx-answer :
    (states : States) (r : Received) (group number : ℕ) (parent : CalloutState)
    → (group == 0) ≡ false
    → answers group number r ≡ true
    → lookup (group_key group number) states ≡ some parent
    → lookup (by_destination "subscriber" r.env.source number) states ≡ none
    → (note_callout_rx states r.session r.env r.callout r.now).0
      ≡ note_at states
          (group_key group number)
          (by_reply r.env.source group number)
          true
          r.session
          r.env
          r.callout
          r.now
unfolding is_subscriber_reply answers
note_callout_rx-answer states r group number parent addressed answer e free =
    let to_group : r.env.destination ≡ group =
      ground (arith, answer, ==_iff r.env.destination group) in
    let to_number : r.callout.callout_number ≡ number =
      ground (arith, answer, ==_iff r.callout.callout_number number) in
    rw (← to_group, ← to_number)
      (note_callout_rx-sent states r.session r.env r.callout r.now parent (rw to_group addressed)
        (ground (arith, answer)) (rw (to_group, to_number) e) (rw to_number free))

count_reply :
    (states : States) (r : Received) (group number radio : ℕ) (parent : CalloutState)
    → (group == 0) ≡ false
    → answers group number r ≡ true
    → lookup (group_key group number) states ≡ some parent
    → lookup (by_destination "subscriber" r.env.source number) states ≡ none
    → let states' = (note_callout_rx states r.session r.env r.callout r.now).0 in
      (lookup (group_key group number) states'
        ≡ some (record parent { responses = parent.responses + 1; updated = r.now }))
      × (responses_at (by_reply radio group number) states'
          ≡ (if r.env.source == radio then 1 else 0)
            + responses_at (by_reply radio group number) states)
      × ((s : ℕ)
          → lookup (by_destination "subscriber" s number) states'
            ≡ lookup (by_destination "subscriber" s number) states)
unfolding same_state
count_reply states r group number radio parent addressed answer e free =
    let own = by_reply r.env.source group number in
    let after = note_at states (group_key group number) own true r.session r.env r.callout r.now in
    let at_key = λ (k : StateKey).
      note_at-reply states r.session r.env r.callout r.now parent (group_key group number) own k e
        refl in
    rw (note_callout_rx-answer states r group number parent addressed answer e free) (
      (at_key own).1,
      elim (Bool-cases (r.env.source == radio)) [
        | inl this ↦
            let same : own ≡ by_reply radio group number =
              ap (λ s. by_reply s group number) ((==_iff r.env.source radio).0 this) in
            subst
              (λ k.
                responses_at k after
                ≡ (if r.env.source == radio then 1 else 0) + responses_at k states)
              same (ground (arith, this, (at_key own).0))
        | inr other ↦
            let kept = (at_key (by_reply radio group number)).2 (ground (arith, other)) refl in
            ground (arith, other, kept)
      ],
      λ s. (at_key (by_destination "subscriber" s number)).2 refl refl,
    )

-- If a callout to a group other than 0 stands in the table, no radio has one of its own with the same
-- number, and only replies of radios to the group's callout are received, then each is counted once at
-- the callout, and once under the radio that sent it, in an entry of its own for the callout.
pub replies_counted :
    (states : States) (group number radio : ℕ) (parent : CalloutState) (rs : List Received)
    → (group == 0) ≡ false
    → lookup (group_key group number) states ≡ some parent
    → ((s : ℕ) → lookup (by_destination "subscriber" s number) states ≡ none)
    → all_answer group number rs ≡ true
    → (responses_at (group_key group number) (receive_all states rs) ≡ parent.responses + length rs)
      × (responses_at (by_reply radio group number) (receive_all states rs)
          ≡ responses_at (by_reply radio group number) states + replies_of radio rs)
unfolding receive_all all_answer replies_of
replies_counted states group number radio parent [] addressed e free answer =
    (ground (arith, e), omega arith)
replies_counted states group number radio parent (r ∷ rs) addressed e free answer =
    let (counted, own, kept) =
      count_reply states r group number radio parent addressed (ground (arith, answer)) e
        (free r.env.source) in
    let (total, mine) =
      replies_counted (note_callout_rx states r.session r.env r.callout r.now).0 group number radio
        (record parent { responses = parent.responses + 1; updated = r.now }) rs addressed counted
        (λ s. kept s ∙ free s) (ground (arith, answer)) in
    (omega (arith, total), omega (arith, mine, own))
