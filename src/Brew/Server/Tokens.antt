-- ===== src/Brew/Server/Tokens.antt =====
-- internal/brew/server.go: a token opens one connection, and only until it expires.
use freetetra.Prelude.{
  ℕ, ◌+◌, ◌≡◌, ◌⊎◌, inl, inr, refl, ◌∙◌, arith, Bool, false, List, [], ◌∷◌, none, some, All, ltb,
  if◌then◌else◌, Option-cases,
}
use freetetra.Prelude.Maps.{lookup, text_key, lookup-insert, lookup-delete}
use freetetra.Brew.Server.{
  Server, TokenEntry, issue_nonce, nonce_valid, issue_token, consume_token, accept_websocket,
  register_client, unregister_client,
}
use Prim.Native.String.{String}
use text.Mathlib.Text.{◌==◌ as str_eq}
use text.Mathlib.TextEquality.{eq_iff}

-- What happens at the server, each with its time.
pub data Event : Type 0 where
  issues_nonce : String → ℕ → Event
  checks_nonce : String → ℕ → Event
  issues_token : String → String → ℕ → Event
  opens : (path token id remote : String) → ℕ → Bool → Event
  disconnects : String → Event

unfoldable pub step : Server → Event → Server
step s (issues_nonce nonce now) = issue_nonce s nonce now
step s (checks_nonce nonce now) = (nonce_valid s nonce now).0
step s (issues_token token username now) = issue_token s token username now
step s (opens path token id remote now upgraded) =
    (accept_websocket s path token id remote now upgraded).0
step s (disconnects id) = unregister_client s id

unfoldable pub run : Server → List Event → Server
run s [] = s
run s (e ∷ es) = run (step s e) es

-- The event does not issue the token.
abbrev pub IssuesOther : String → Event → Type 0
IssuesOther t (issues_nonce _ _) = Unit
IssuesOther t (checks_nonce _ _) = Unit
IssuesOther t (issues_token t' _ _) = str_eq t' t ≡ false
IssuesOther t (opens _ _ _ _ _ _) = Unit
IssuesOther t (disconnects _) = Unit

-- Nor does it try to use it.
abbrev pub UsesOther : String → Event → Type 0
UsesOther t (issues_nonce _ _) = Unit
UsesOther t (checks_nonce _ _) = Unit
UsesOther t (issues_token _ _ _) = Unit
UsesOther t (opens _ t' _ _ _ _) = str_eq t' t ≡ false
UsesOther t (disconnects _) = Unit

-- A token is gone after a try to consume it, and no other changes.
consume_token-lookup :
    (s : Server) (t t' : String) (now : ℕ)
    → lookup t (consume_token s t' now).0.tokens ≡ (if str_eq t' t then none else lookup t s.tokens)
unfolding consume_token lookup
consume_token-lookup s t t' now = elim (Option-cases (lookup t' s.tokens)) [
  | inl e ↦ rw (e, consume_token) (ground (arith, e, eq_iff t' t))
  | inr (entry, e) ↦ rw (e, consume_token) (lookup-delete t' t s.tokens)
]

-- An attempt to open a connection leaves the tokens as they are or as its consumption leaves them.
accept_websocket-cases :
    (s : Server) (path t id remote : String) (now : ℕ) (upgraded : Bool)
    → ((accept_websocket s path t id remote now upgraded).0.tokens ≡ s.tokens)
      ⊎ ((accept_websocket s path t id remote now upgraded).0.tokens
          ≡ (consume_token s t now).0.tokens)
unfolding accept_websocket register_client
accept_websocket-cases s path t id remote now upgraded = ground arith

step-none :
    (s : Server) (e : Event) (t : String)
    → IssuesOther t e
    → lookup t s.tokens ≡ none
    → lookup t (step s e).tokens ≡ none
unfolding step issue_nonce nonce_valid issue_token unregister_client
step-none s (issues_nonce n now) t h e = e
step-none s (checks_nonce n now) t h e = ground (arith, e)
step-none s (issues_token t' u now) t h e =
    rw (lookup-insert t' t (record { exp = now + s.token_ttl; username = u }) s.tokens, h) e
step-none s (opens path t' id remote now upgraded) t h e = ground (
  arith,
  e,
  accept_websocket-cases s path t' id remote now upgraded,
  consume_token-lookup s t t' now,
)
step-none s (disconnects id) t h e = e

step-same :
    (s : Server) (e : Event) (t : String)
    → IssuesOther t e
    → UsesOther t e
    → lookup t (step s e).tokens ≡ lookup t s.tokens
unfolding step issue_nonce nonce_valid issue_token unregister_client
step-same s (issues_nonce n now) t h k = refl
step-same s (checks_nonce n now) t h k = ground arith
step-same s (issues_token t' u now) t h k =
    rw (lookup-insert t' t (record { exp = now + s.token_ttl; username = u }) s.tokens, h) refl
step-same s (opens path t' id remote now upgraded) t h k = ground (
  arith,
  k,
  accept_websocket-cases s path t' id remote now upgraded,
  consume_token-lookup s t t' now,
)
step-same s (disconnects id) t h k = refl

run-none :
    (s : Server) (es : List Event) (t : String)
    → All (IssuesOther t) es
    → lookup t s.tokens ≡ none
    → lookup t (run s es).tokens ≡ none
unfolding run
run-none s [] t h e = e
run-none s (x ∷ es) t h e = run-none (step s x) es t h.1 (step-none s x t h.0 e)

run-same :
    (s : Server) (es : List Event) (t : String)
    → All (IssuesOther t) es
    → All (UsesOther t) es
    → lookup t (run s es).tokens ≡ lookup t s.tokens
unfolding run
run-same s [] t h k = refl
run-same s (x ∷ es) t h k = run-same (step s x) es t h.1 k.1 ∙ step-same s x t h.0 k.0

-- Once a token was consumed, successfully or not, it is refused at every later time, through
-- whatever happens but that it is issued again.
pub consumed_once :
    (s : Server) (t : String) (now later : ℕ) (es : List Event)
    → All (IssuesOther t) es
    → (consume_token (run (consume_token s t now).0 es) t later).1 ≡ none
unfolding consume_token
consumed_once s t now later es h =
    let gone : lookup t (consume_token s t now).0.tokens ≡ none =
      consume_token-lookup s t t now ∙ ground (arith, eq_iff t t) in
    rw (run-none (consume_token s t now).0 es t h gone, consume_token) refl

-- A token that was issued, and through whatever happens is neither issued again nor used, gives its
-- user's name until its time to live is over, and is refused after that.
pub issued_token_lem :
    (s : Server) (t username : String) (now later : ℕ) (es : List Event)
    → All (IssuesOther t) es
    → All (UsesOther t) es
    → (consume_token (run (issue_token s t username now) es) t later).1
      ≡ (if ltb (now + s.token_ttl) later then none else some username)
unfolding consume_token
issued_token_lem s t username now later es h k =
    let entry : TokenEntry = record { exp = now + s.token_ttl; username = username } in
    let there : lookup t (issue_token s t username now).tokens ≡ some entry =
      unfold issue_token in lookup-insert t t entry s.tokens ∙ ground (arith, eq_iff t t) in
    rw (run-same (issue_token s t username now) es t h k ∙ there, consume_token) refl
