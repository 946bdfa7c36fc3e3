-- ===== src/Service/Netstack/Tests.antt =====
-- Tests of internal/service/netstack_bridge.go.
use freetetra.Service.Netstack.Codec.{
  channel_packed35_to_ste, unpack_bits, channel_bits_to_ste, channel_to_codec, place_class,
  octets_from, octet_at, get_at, set_at,
}
use freetetra.Prelude.{replicate, true, ℕ, false, List, [], ◌∷◌, ◌≡◌, refl, none, arith}
use freetetra.Prelude.Maps.{lookup, insert, text_key}
use freetetra.Service.Netstack.{
  Bridge, BridgeCall, Config, new, start_call, voice_frame, pending_max_age, min_traffic_frames,
  register_pending_call, clear_expired, put_session, set_call, arm_route_lock,
}
use freetetra.Service.Netstack.Messages.{on_traffic_message, on_new, voice_frames}
use freetetra.Service.Netstack.Exclusive.{
  Event, announces, run, step, new_bridge, one_call_per_route,
}
use freetetra.Service.Netstack.Frames.{IsBy, on_traffic_message-delivers}
use Prim.Native.String.{String}

abbrev cfg : Config
cfg = record { min_traffic_frames = 2; pending_max_age = 0; route_call_timeout = 0 }

abbrev call_to : String → String → String → BridgeCall
call_to id traffic_id route = record {
  netstack_id = id;
  brew_id = id;
  source_issi = 1001;
  brew_gssi = 91;
  traffic_id = traffic_id;
  state = new;
  created_at = 10;
  last_event_at = 10;
  frame_count = 0;
  route_key = route;
  started = false;
  pending_frames = [];
}

-- Two calls on two routes; a third on a route that is taken is refused.
abbrev events : List Event
events =
    announces (call_to "a" "t" "r") 10
    ∷ announces (call_to "b" "u" "s") 11
    ∷ announces (call_to "c" "v" "r") 12
    ∷ []

abbrev served : Bridge
served = run (new_bridge cfg) events

third_refused : lookup "c" served.calls_by_id ≡ none
unfolding run step on_new register_pending_call clear_expired put_session set_call arm_route_lock
    pending_max_age lookup insert
third_refused = refl

one_call_per_route_example : ◌≡◌ {A = String} "a" "a"
unfolding run step on_new register_pending_call clear_expired put_session set_call arm_route_lock
    pending_max_age lookup insert
one_call_per_route_example =
    one_call_per_route cfg events "a" "a" (call_to "a" "t" "r") (call_to "a" "t" "r") refl refl refl

abbrev frames : List (List ℕ × ℕ)
frames = (7 ∷ [], 20) ∷ (8 ∷ [], 21) ∷ (9 ∷ [], 22) ∷ []

on_traffic_message-delivers_example :
    (on_traffic_message served "t" true frames).1
    ≡ start_call "a" 1001 91
      ∷ voice_frame "a" (7 ∷ [])
      ∷ voice_frame "a" (8 ∷ [])
      ∷ voice_frame "a" (9 ∷ [])
      ∷ []
unfolding run step on_new register_pending_call clear_expired put_session set_call arm_route_lock
    pending_max_age min_traffic_frames lookup insert IsBy voice_frames
on_traffic_message-delivers_example =
    on_traffic_message-delivers served "t" (call_to "a" "t" "r") frames refl refl refl
      (omega arith, (omega arith, (omega arith, omega arith))) (omega arith) (omega arith)

-- The packed bit 0 of the channel is the bit 34 of the codec, in the sixth octet of a frame.
first_bit : get_at 5 (channel_packed35_to_ste (128 ∷ replicate 34 0)) ≡ 32
unfolding channel_packed35_to_ste unpack_bits channel_bits_to_ste channel_to_codec place_class
    octets_from octet_at get_at set_at
first_bit = refl
