-- ===== src/Brew/Server.antt =====
-- internal/brew/server.go: nonces, tokens and the clients of the server. `now` is the clock in
-- nanoseconds; tokens, nonces and client ids are what `randHex` gave. A client is reached through the
-- map only, so the map holds it.
pub mod Tokens
pub mod Delivery
mod Tests
use freetetra.Prelude.{
  ℕ, ◌+◌, Bool, true, false, ◌&&◌, ◌||◌, not, List, [], ◌∷◌, Option, none, some, ltb, if◌then◌else◌,
  Outcome, ok, panic, ◌>>=◌,
}
use freetetra.Prelude.Maps.{lookup, insert, delete, text_key}
use freetetra.Brew.Client.{Client, new_client, enqueue, close, is_attached_to, has_subscriber}
use Prim.Native.String.{String}
use text.Mathlib.Text.{◌==◌ as str_eq}

pub record TokenEntry : Type 0 where
  pub exp : ℕ
  pub username : String

pub record Server : Type 0 where
  pub token_ttl : ℕ
  pub clients : List (String × Client)
  pub nonces : List (String × ℕ)
  pub tokens : List (String × TokenEntry)

-- `issueDigestChallenge`, as far as it changes the server.
unfoldable pub issue_nonce : Server → String → ℕ → Server
unfolding insert
issue_nonce s nonce now = record s { nonces = insert nonce (now + s.token_ttl) s.nonces }

unfoldable pub nonce_valid : Server → String → ℕ → Server × Bool
unfolding lookup delete
nonce_valid s nonce now = elim (lookup nonce s.nonces) [
  | none ↦ (s, false)
  | some exp ↦
      if ltb exp now then (record s { nonces = delete nonce s.nonces }, false) else (s, true)
]

unfoldable pub issue_token : Server → String → String → ℕ → Server
unfolding insert
issue_token s token username now = record s {
  tokens = insert token (record { exp = now + s.token_ttl; username = username }) s.tokens;
}

-- `none` is the result "", false.
unfoldable pub consume_token : Server → String → ℕ → Server × Option String
unfolding lookup delete
consume_token s token now = elim (lookup token s.tokens) [
  | none ↦ (s, none)
  | some entry ↦
      let s' = record s { tokens = delete token s.tokens } in
      (s', if ltb entry.exp now then none else some entry.username)
]

unfoldable pub register_client : Server → Client → Server
unfolding insert
register_client s c = record s { clients = insert c.id c s.clients }

unfoldable pub unregister_client : Server → String → Server
unfolding delete
unregister_client s id = record s { clients = delete id s.clients }

-- What `handleWebsocket` does to the server up to the handler's `OnConnect`; `none` is a refusal.
-- `token` is what `TrimPrefix` left of `path`, and `upgraded` says whether the upgrade succeeds.
unfoldable pub accept_websocket :
    Server → (path token id remote : String) → ℕ → Bool → Server × Option Client
unfolding consume_token register_client new_client
accept_websocket s path token id remote now upgraded =
    if str_eq token "" || str_eq token path
    then (s, none)
    else (let (s', found) = consume_token s token now in
        elim found [
          | none ↦ (s', none)
          | some username ↦
              let c = new_client id remote username in
              if upgraded then (register_client s' c, some c) else (s', none)
        ])

unfoldable pub disconnect_client : Server → Client → Outcome ⊥ (Server × Client)
unfolding unregister_client close
disconnect_client s c = do c' ← close c; ok (unregister_client s c.id, c')

-- The loop of the broadcasts: the clients after it and how many took the packet.
unfoldable pub deliver :
    (Client → Bool) → List ℕ → List (String × Client) → Outcome ⊥ (List (String × Client) × ℕ)
unfolding enqueue
deliver wanted payload [] = ok ([], 0)
deliver wanted payload ((key, c) ∷ clients) = do
  (c', taken) ← if wanted c then enqueue c payload else ok (c, false)
  (clients', count) ← deliver wanted payload clients
  ok ((key, c') ∷ clients', if taken then count + 1 else count)

unfoldable pub broadcast : Server → (Client → Bool) → List ℕ → Outcome ⊥ (Server × ℕ)
unfolding deliver
broadcast s wanted payload = do
  (clients, count) ← deliver wanted payload s.clients
  ok (record s { clients = clients }, count)

unfoldable pub broadcast_to_group : Server → ℕ → List ℕ → String → Outcome ⊥ (Server × ℕ)
unfolding broadcast is_attached_to
broadcast_to_group s gssi payload exclude_client_id =
    broadcast s (λ c. not (str_eq c.id exclude_client_id) && is_attached_to c gssi) payload

unfoldable pub broadcast_all : Server → List ℕ → String → Outcome ⊥ (Server × ℕ)
unfolding broadcast
broadcast_all s payload exclude_client_id =
    broadcast s (λ c. not (str_eq c.id exclude_client_id)) payload

unfoldable pub broadcast_to_subscriber : Server → ℕ → List ℕ → String → Outcome ⊥ (Server × ℕ)
unfolding broadcast has_subscriber
broadcast_to_subscriber s number payload exclude_client_id =
    broadcast s (λ c. not (str_eq c.id exclude_client_id) && has_subscriber c number) payload

-- The id is what `TrimSpace` left of it.
unfoldable pub send_to_client : Server → String → List ℕ → Outcome ⊥ (Server × Bool)
unfolding lookup insert enqueue
send_to_client s client_id payload =
    if str_eq client_id "" then ok (s, false) else elim (lookup client_id s.clients) [
      | none ↦ ok (s, false)
      | some c ↦ do
        (c', taken) ← enqueue c payload
        ok (record s { clients = insert client_id c' s.clients }, taken)
    ]

unfoldable pub count_attached_to_group : ℕ → List (String × Client) → ℕ
unfolding is_attached_to
count_attached_to_group gssi [] = 0
count_attached_to_group gssi ((_, c) ∷ clients) =
    let rest = count_attached_to_group gssi clients in
    if is_attached_to c gssi then rest + 1 else rest
