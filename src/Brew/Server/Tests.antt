-- ===== src/Brew/Server/Tests.antt =====
-- internal/brew/server.go and client.go: the theorems at concrete clients and tokens.
use freetetra.Prelude.{
  ℕ, ◌+◌, ◌≡◌, ◌↔◌, refl, true, false, ◌&&◌, not, List, [], ◌∷◌, none, some, ok, ltb, if◌then◌else◌,
}
use freetetra.Prelude.Maps.{lookup, insert, text_key, number_key}
use freetetra.Brew.Message.{SubscriberMessage, subscriber_register, subscriber_affiliate}
use freetetra.Brew.Client.{
  Client, new_client, apply_subscriber, add_groups, ensure_subscriber, is_attached_to,
  has_subscriber,
}
use freetetra.Brew.Client.Groups.{
  apply_all, affiliated, known, has_subscriber-apply_all, is_attached_to-apply_all,
}
use freetetra.Brew.Server.{Server, issue_token, consume_token, broadcast_to_group}
use freetetra.Brew.Server.Tokens.{
  Event, issues_token, opens, issues_nonce, run, consumed_once, issued_token_lem,
}
use freetetra.Brew.Server.Delivery.{serve_all, count_takes, broadcast_to_group_lem}
use text.Mathlib.Text.{◌==◌ as str_eq}

abbrev message : ℕ → List ℕ → SubscriberMessage
message action groups = record {
  msg_type = action;
  number = 7;
  time = 0;
  fraction = 0;
  groups = groups;
}

abbrev history : List SubscriberMessage
history = message subscriber_register [] ∷ message subscriber_affiliate (20 ∷ 21 ∷ []) ∷ []

has_subscriber-apply_all_example :
    has_subscriber (apply_all (new_client "a" "r" "u") history) 7 ≡ known history (λ _. false) 7
has_subscriber-apply_all_example = has_subscriber-apply_all "a" "r" "u" history 7

is_attached_to-apply_all_example :
    (is_attached_to (apply_all (new_client "a" "r" "u") history) 20 ≡ true)
    ↔ ((n : ℕ) × (affiliated history (λ _ _. false) n 20 ≡ true))
is_attached_to-apply_all_example = is_attached_to-apply_all "a" "r" "u" history 20

abbrev station : Client
station = apply_all (new_client "a" "r" "u") history

abbrev server : Server
server = record {
  token_ttl = 60;
  clients = ("a", station) ∷ ("b", new_client "b" "r" "v") ∷ [];
  nonces = [];
  tokens = [];
}

abbrev events : List Event
events = issues_nonce "n" 5 ∷ issues_token "other" "v" 6 ∷ opens "/" "other" "c" "r" 7 true ∷ []

consumed_once_example :
    (consume_token (run (consume_token (issue_token server "t" "u" 1) "t" 2).0 events) "t" 9).1
    ≡ none
consumed_once_example =
    consumed_once (issue_token server "t" "u" 1) "t" 2 9 events (tt, (refl, (tt, tt)))

issued_token_lem_example :
    (consume_token (run (issue_token server "t" "u" 1) events) "t" 9).1
    ≡ (if ltb (1 + 60) 9 then none else some "u")
issued_token_lem_example =
    issued_token_lem server "t" "u" 1 9 events (tt, (refl, (tt, tt))) (tt, (tt, (refl, tt)))

station_open : station.closed ≡ false
unfolding apply_all apply_subscriber new_client
station_open = refl

broadcast_to_group_lem_example :
    broadcast_to_group server 20 (1 ∷ 2 ∷ []) "b"
    ≡ ok (
      record server {
        clients =
            serve_all
              (λ c. not (str_eq c.id "b") && is_attached_to c 20)
              (1 ∷ 2 ∷ [])
              server.clients;
      },
      count_takes (λ c. not (str_eq c.id "b") && is_attached_to c 20) server.clients,
    )
broadcast_to_group_lem_example =
    broadcast_to_group_lem server 20 (1 ∷ 2 ∷ []) "b"
      (station_open, (unfold new_client in refl, tt))

one_delivered : count_takes (λ c. not (str_eq c.id "b") && is_attached_to c 20) server.clients ≡ 1
unfolding count_takes is_attached_to apply_all apply_subscriber new_client add_groups
    ensure_subscriber lookup insert
one_delivered = refl
