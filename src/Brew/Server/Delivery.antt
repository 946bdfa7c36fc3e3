-- ===== src/Brew/Server/Delivery.antt =====
-- internal/brew/server.go: who gets a packet that is broadcast to a group.
use freetetra.Prelude.{
  ℕ, ◌+◌, ◌≡◌, refl, arith, Bool, false, ◌&&◌, not, List, [], ◌∷◌, ◌++◌, length, ltb, All,
  if◌then◌else◌, ok,
}
use freetetra.Brew.Client.{Client, send_capacity, enqueue, is_attached_to}
use freetetra.Brew.Server.{Server, deliver, broadcast, broadcast_to_group}
use Prim.Native.String.{String}
use text.Mathlib.Text.{◌==◌ as str_eq}

-- The client takes the packet: it is wanted and has room.
abbrev pub takes : (Client → Bool) → Client → Bool
takes wanted c = wanted c && ltb (length c.send) send_capacity

abbrev pub served : (Client → Bool) → List ℕ → String × Client → String × Client
served wanted payload (key, c) =
    (key, if takes wanted c then record c { send = c.send ++ (payload ∷ []) } else c)

unfoldable pub serve_all :
    (Client → Bool) → List ℕ → List (String × Client) → List (String × Client)
serve_all wanted payload [] = []
serve_all wanted payload (entry ∷ clients) =
    served wanted payload entry ∷ serve_all wanted payload clients

unfoldable pub count_takes : (Client → Bool) → List (String × Client) → ℕ
count_takes wanted [] = 0
count_takes wanted ((_, c) ∷ clients) =
    let rest = count_takes wanted clients in if takes wanted c then rest + 1 else rest

abbrev pub IsOpen : String × Client → Type 0
IsOpen (_, c) = c.closed ≡ false

deliver_lem :
    (wanted : Client → Bool) (payload : List ℕ) (clients : List (String × Client))
    → All IsOpen clients
    → deliver wanted payload clients
      ≡ ok (serve_all wanted payload clients, count_takes wanted clients)
unfolding deliver enqueue count_takes serve_all
deliver_lem wanted payload [] h = refl
deliver_lem wanted payload ((key, c) ∷ clients) (is_open, h) =
    rw (deliver_lem wanted payload clients h) (ground (arith, is_open))

-- If no client's queue is closed, a broadcast to a group does not panic: exactly the clients that are
-- attached to the group, are not the excluded one and have room in their queue get the packet, once
-- and behind what stands there, and the result is their number.
pub broadcast_to_group_lem :
    (s : Server) (gssi : ℕ) (payload : List ℕ) (exclude_client_id : String)
    → All IsOpen s.clients
    → let wanted : Client → Bool =
        λ c. not (str_eq c.id exclude_client_id) && is_attached_to c gssi in
      broadcast_to_group s gssi payload exclude_client_id
      ≡ ok (record s { clients = serve_all wanted payload s.clients }, count_takes wanted s.clients)
unfolding broadcast_to_group broadcast
broadcast_to_group_lem s gssi payload exclude_client_id h =
    rw
      (deliver_lem (λ c. not (str_eq c.id exclude_client_id) && is_attached_to c gssi) payload
        s.clients h)
      refl
