-- ===== src/Relay/SelfHeal.antt =====
-- runtime/relay_selfheal.py: when the tunnel of this node's relay comes up under a new address, the
-- bindings of the old address are retired and the new one is bound. The start of the relay and of the
-- tunnel, and whether the updates of a group could be published, are parameters.
use Prim.Native.Nat.{Ordering}
use Prim.Native.String.{compare}
use nexus_grid_grid.Prelude.Dicts
use nexus_grid_grid.Prelude.Text.{strip}
use nexus_grid_grid.Prelude.{
  ℕ, ◌+◌, Bool, true, not, ◌&&◌, ◌||◌, List, [], ◌∷◌, ◌++◌, Option, none, some, String, Dict,
  length, if◌then◌else◌, ◌==◌, text_key, pair_key,
}
use nexus_grid_grid.Relay.{Binding}

-- The rows, by group and address.
abbrev pub Bindings : Type 0
Bindings = Dict (String × String) Binding

-- A `relay.update` frame.
pub data RelayUpdate : Type 0 where
  added removed : (group_id relay_url : String) → RelayUpdate

-- Into a sorted list without repeats: `sorted({...})`.
unfoldable pub insert_sorted : String → List String → List String
insert_sorted g [] = g ∷ []
insert_sorted g (h ∷ hs) =
    let later = insert_sorted g hs in
    if g == h then h ∷ hs else elim (compare g h) [ Ordering.lt ↦ g ∷ h ∷ hs | _ ↦ h ∷ later ]

-- The groups with an active binding of the address.
unfoldable pub bound_groups : String → Bindings → List String
unfolding insert_sorted
bound_groups url [] = []
bound_groups url (((gid, bound), binding) ∷ rows) =
    let rest = bound_groups url rows in
    if (bound == url) && (binding.status == "active") then insert_sorted gid rest else rest

unfoldable pub new_binding : String → String → Binding
new_binding me now = record {
  operator_pubkey = me;
  registered_at = now;
  status = "active";
  state = "online";
  last_state_change_at = "";
  consecutive_probe_failures = 0;
}

-- The row of the new address is added or made active.
unfoldable pub activate : String → String → Option Binding → Binding
unfolding new_binding
activate me now none = new_binding me now
activate me now (some row) = record row { status = "active" }

unfoldable pub retire : String × String → Bindings → Bindings
retire key rows = elim (Dicts.get key rows) [
  | none ↦ rows
  | some row ↦ Dicts.insert key (record row { status = "retired" }) rows
]

unfoldable pub move_group : String → String → String → String → String → Bindings → Bindings
unfolding activate retire
move_group me now old_url new_url gid rows =
    retire (gid, old_url)
      (Dicts.insert (gid, new_url) (activate me now (Dicts.get (gid, new_url) rows)) rows)

-- What the node keeps of its relay, beside the table.
pub record RelayNode : Type 0 where
  pub bindings : Bindings
  pub updates : List RelayUpdate
  pub reconcile_count : ℕ
  pub relay_running : Bool
  pub tunnel_url : Option String
  pub self_heal_url : String
  pub tunnel_enabled : Bool

module _ (publishes : String → Bool) (me now : String) where
  -- The body of the loop: a group whose updates fail is rolled back.
  unfoldable pub move_published : String → String → String → RelayNode → RelayNode
  unfolding move_group
  move_published old_url new_url gid node =
      if publishes gid
      then record node {
        bindings = move_group me now old_url new_url gid node.bindings;
        updates = node.updates ++ added gid new_url ∷ removed gid old_url ∷ [];
      }
      else node

  unfoldable pub move_groups : String → String → List String → RelayNode → RelayNode
  unfolding move_published
  move_groups old_url new_url [] node = node
  move_groups old_url new_url (gid ∷ gids) node =
      move_groups old_url new_url gids (move_published old_url new_url gid node)

  -- Returns the number of groups found.
  unfoldable pub reconcile_relay_url : String → String → RelayNode → RelayNode × ℕ
  unfolding move_groups bound_groups strip
  reconcile_relay_url old_raw new_raw node =
      let old_url = strip old_raw in
      let new_url = strip new_raw in
      let gids = bound_groups old_url node.bindings in
      let after = move_groups old_url new_url gids node in
      if (old_url == "") || (new_url == "") || (old_url == new_url)
      then (node, 0)
      else (record after { reconcile_count = after.reconcile_count + length gids }, length gids)

  -- The tunnel comes up under the given address, which is blank when it has none yet.
  unfoldable pub start_tunnel_and_reconcile : String → RelayNode → RelayNode
  unfolding reconcile_relay_url
  start_tunnel_and_reconcile new_url node =
      let started = record node { relay_running = true; tunnel_url = some new_url } in
      let healed =
        if not (new_url == "") && not (new_url == node.self_heal_url)
        then (reconcile_relay_url node.self_heal_url new_url started).0
        else started in
      record healed { self_heal_url = new_url; tunnel_enabled = true }
