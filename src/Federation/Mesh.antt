-- ===== src/Federation/Mesh.antt =====
-- internal/federation/mesh.go: the mesh router. Times are nanoseconds; a clock value is an argument
pub mod Remember
pub mod Readers
pub mod Dedup
pub mod Travel
mod Tests
-- of each operation that reads the clock. An int32 is its bit pattern.
use freetetra.Prelude.{
  ℕ, ◌+◌, ◌-◌, ◌*◌, ◌%◌, ◌≡◌, Bool, true, false, ◌&&◌, ◌||◌, not, List, [], ◌∷◌, ◌++◌, ltb, leb,
  ◌==◌, if◌then◌else◌,
}
use freetetra.Prelude.Maps.{lookup, has_key, insert, text_key}
use Prim.Native.String.{String}
use text.Mathlib.Text.{◌==◌ as str_eq}

-- `Control` of the protocol; the payload is only passed on here.
pub record Control {ℓ} (P : Type ℓ) : Type ℓ where
  pub origin : String
  pub protocol_version : ℕ
  pub msg_id : String
  pub ttl : ℕ
  pub path : List String
  pub payload : P

pub record MeshRouter : Type 0 where
  pub server_name : String
  pub seen : List (String × ℕ)

abbrev pub max_ttl : ℕ
max_ttl = 10

-- 30 seconds.
abbrev pub deduplication_window : ℕ
deduplication_window = 30000000000

-- `ttl <= 0`, `ttl > 1` and `ttl - 1` on an int32.
abbrev pub ttl_spent : ℕ → Bool
ttl_spent t = t == 0 || leb 0x8000_0000 t

abbrev pub ttl_above_one : ℕ → Bool
ttl_above_one t = ltb 1 t && ltb t 0x8000_0000

abbrev pub ttl_minus_one : ℕ → ℕ
ttl_minus_one t = (t + 0x1_0000_0000 - 1) % 0x1_0000_0000

abbrev pub is_empty_path : List String → Bool
is_empty_path [] = true
is_empty_path (_ ∷ _) = false

-- The loops over the path in `ShouldProcess` and `IsInPath`.
unfoldable pub path_has : String → List String → Bool
path_has name [] = false
path_has name (hop ∷ hops) = str_eq hop name || path_has name hops

unfoldable pub mark_seen : MeshRouter → String → ℕ → MeshRouter
mark_seen mr msg_id now = record mr { seen = insert msg_id now mr.seen }

unfoldable pub already_seen : MeshRouter → String → Bool
already_seen mr msg_id = has_key msg_id mr.seen

-- The entries that a tick of `cleanupLoop` keeps: all but those before `now - window`.
unfoldable pub keep_recent : ℕ → List (String × ℕ) → List (String × ℕ)
keep_recent now [] = []
keep_recent now ((id, ts) ∷ m) =
    let rest = keep_recent now m in
    if ltb (ts + deduplication_window) now then rest else (id, ts) ∷ rest

unfoldable pub cleanup : MeshRouter → ℕ → MeshRouter
cleanup mr now = record mr { seen = keep_recent now mr.seen }

module _ {ℓ} {P : Type ℓ} where
  -- `new_id` is what `NewMessageID` would return.
  unfoldable pub prepare_outgoing : MeshRouter → Control P → String → ℕ → MeshRouter × Control P
  unfolding mark_seen
  prepare_outgoing mr ctrl new_id now =
      let id = if str_eq ctrl.msg_id "" then new_id else ctrl.msg_id in
      (
        mark_seen mr id now,
        record ctrl {
          msg_id = id;
          ttl = if ctrl.ttl == 0 then max_ttl else ctrl.ttl;
          path = if is_empty_path ctrl.path then mr.server_name ∷ [] else ctrl.path;
        },
      )

  -- The guards of `ShouldProcess`; the last of them reads the table under the lock.
  unfoldable pub passes_guards : MeshRouter → Control P → Bool
  unfolding already_seen
  passes_guards mr ctrl =
      if str_eq ctrl.origin mr.server_name
      then false
      else if ttl_spent ctrl.ttl
      then false
      else if path_has mr.server_name ctrl.path
      then false
      else if str_eq ctrl.msg_id ""
      then true
      else not (already_seen mr ctrl.msg_id)

  -- The end of `ShouldProcess` for a message that passed: it takes the lock again to mark the id.
  unfoldable pub mark_passed : MeshRouter → Control P → ℕ → MeshRouter
  unfolding mark_seen
  mark_passed mr ctrl now = if str_eq ctrl.msg_id "" then mr else mark_seen mr ctrl.msg_id now

  -- `ShouldProcess` where nothing else uses the router between its guards and its mark.
  unfoldable pub should_process : MeshRouter → Control P → ℕ → MeshRouter × Bool
  unfolding passes_guards mark_passed
  should_process mr ctrl now =
      if passes_guards mr ctrl then (mark_passed mr ctrl now, true) else (mr, false)

  unfoldable pub prepare_relay : MeshRouter → Control P → Control P
  prepare_relay mr ctrl = record ctrl {
    ttl = ttl_minus_one ctrl.ttl;
    path = ctrl.path ++ (mr.server_name ∷ []);
  }

  unfoldable pub should_relay : Control P → Bool
  should_relay ctrl = ttl_above_one ctrl.ttl

  unfoldable pub is_in_path : Control P → String → Bool
  is_in_path ctrl name = path_has name ctrl.path
