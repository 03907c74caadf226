-- ===== src/Msyn/Epoch.antt =====
-- The routes and the removed addresses of an epoch (src/net/msyn_sync.rs), and what a peer is still owed. A text is
-- the list of its bytes, a hash set the list of its elements; `print_addr` stands for `to_string` of an endpoint.
use mint_connect_unit.Addr.{SocketAddr}
use mint_connect_unit.Claim.Vip.{Text, same_text, text_key}
use mint_connect_unit.Prelude.{
  Bool, List, Option, [], false, if◌then◌else◌, keep, ltb, map, max, none, not, some, true, ℕ, ◌&&◌,
  ◌++◌, ◌+◌, ◌-◌, ◌||◌, ◌∷◌,
}

abbrev pub msyn_proto_ver : ℕ
msyn_proto_ver = 4

abbrev pub msyn_schema_ver : ℕ
msyn_schema_ver = 1

abbrev pub assemble_max_buffers_per_from : ℕ
assemble_max_buffers_per_from = 8

abbrev pub assemble_max_parts_total : ℕ
assemble_max_parts_total = 64

abbrev pub assemble_ttl : ℕ
assemble_ttl = 30000

abbrev pub apply_max_routes : ℕ
apply_max_routes = 1024

abbrev pub apply_max_removed : ℕ
apply_max_removed = 1024

abbrev pub shard_wrap_reserve : ℕ
shard_wrap_reserve = 4 + 6 + 16 + 4 + 2 + 1 + 15 + 4

abbrev pub json_budget_floor : ℕ
json_budget_floor = 256

unfoldable pub effective_msyn_json_budget : ℕ → ℕ
effective_msyn_json_budget configured = max (configured - shard_wrap_reserve) json_budget_floor

unfoldable pub has_text : Text → List Text → Bool
has_text x [] = false
has_text x (y ∷ ys) = same_text y x || has_text x ys

-- `HashSet::insert`
unfoldable pub add_text : Text → List Text → List Text
add_text x set = if has_text x set then set else set ++ (x ∷ [])

abbrev pub pending_of : Option (List Text) → List Text
pending_of none = []
pending_of (some p) = p

unfoldable pub add_newer : ℕ → List (Text × ℕ) → List Text → List Text
add_newer last [] set = set
add_newer last ((vip, rev) ∷ tombs) set =
    add_newer last tombs (if ltb last rev then add_text vip set else set)

unfoldable pub add_texts : List Text → List Text → List Text
add_texts [] set = set
add_texts (x ∷ xs) set = add_texts xs (add_text x set)

unfoldable pub collect_removed_vips : ℕ → List (Text × ℕ) → Option (List Text) → List Text
collect_removed_vips last tombs pending = add_texts (pending_of pending) (add_newer last tombs [])

abbrev pub is_empty {ℓ} : {A : Type ℓ} → List A → Bool
is_empty [] = true
is_empty (x ∷ xs) = false

unfoldable pub any_newer : ℕ → List (Text × ℕ) → Bool
any_newer last [] = false
any_newer last ((vip, rev) ∷ tombs) = ltb last rev || any_newer last tombs

unfoldable pub peer_owes_removals : ℕ → List (Text × ℕ) → Option (List Text) → Bool
peer_owes_removals last tombs pending =
    if not (is_empty (pending_of pending)) then true else any_newer last tombs

unfoldable pub should_advance_peer_sync : Bool → ℕ → List (Text × ℕ) → Option (List Text) → Bool
should_advance_peer_sync sync_ok last tombs pending =
    sync_ok && not (peer_owes_removals last tombs pending)

unfoldable pub should_advance_peer_sync_after_send : Bool → Option (List Text) → Bool
should_advance_peer_sync_after_send sync_ok pending_after =
    sync_ok && is_empty (pending_of pending_after)

unfoldable pub clear_pending_delivered : List Text → List Text → List Text
clear_pending_delivered pending [] = pending
clear_pending_delivered pending (vip ∷ removed_vips) =
    clear_pending_delivered (keep (λ x. not (same_text x vip)) pending) removed_vips

pub record MsynRouteItem : Type 0 where
  pub vip : Text
  pub ep : Text
  pub node_id : Text

-- The state of a route and a row of the routing table (src/routing.rs).
pub data RouteState : Type 0 where
  candidate active degraded stale : RouteState

abbrev pub is_stale : RouteState → Bool
is_stale stale = true
is_stale _ = false

pub record RouteSyncRow : Type 0 where
  pub vip : Text
  pub endpoint : SocketAddr
  pub node_id : Text
  pub state : RouteState
  pub last_modified_revision : ℕ

module _ (print_addr : SocketAddr → Text) where
  unfoldable pub from_sync_row : RouteSyncRow → MsynRouteItem
  from_sync_row r = record { vip = r.vip; ep = print_addr r.endpoint; node_id = r.node_id }

  unfoldable pub routes_from_snapshot_non_stale : List RouteSyncRow → List MsynRouteItem
  routes_from_snapshot_non_stale snapshot =
      map from_sync_row (keep (λ r. not (is_stale r.state)) snapshot)

  unfoldable pub modified_routes : ℕ → List RouteSyncRow → List MsynRouteItem
  modified_routes last snapshot =
      map from_sync_row (keep (λ r. ltb last r.last_modified_revision) snapshot)
