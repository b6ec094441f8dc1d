-- ===== src/Relay/Healed.antt =====
-- What the self-healing leaves of every binding.
use nexus_grid_grid.Prelude.Dicts
use nexus_grid_grid.Prelude.Text.{strip}
use nexus_grid_grid.Prelude.{
  Bool, true, false, ◌&&◌, ◌||◌, ◌≡◌, ◌≢◌, refl, sym, ap, ◌∙◌, inl, inr, List, [], ◌∷◌, some,
  String, contains, if◌then◌else◌, ◌==◌, text_key, nat_eq, pair_key, arith, eq_of_beq, beq_refl,
  beq_comm, beq_false, length, Option-cases,
}
use nexus_grid_grid.Relay.SelfHeal.{
  Bindings, bound_groups, RelayNode, move_published, move_groups, reconcile_relay_url,
  start_tunnel_and_reconcile,
}
use nexus_grid_grid.Relay.Moved.{
  status_at, is_active, moved_status, status_at-move_group, moved_status_twice,
  contains-bound_groups,
}

ne_strip : (w : String) → strip w ≢ "" → (w == "") ≡ false
unfolding strip
ne_strip w n = beq_false w "" (λ e. n (ap strip e))

module _ (publishes : String → Bool) (me now : String) where
  status_at-move_published :
      (old_url new_url g gid url : String) (node : RelayNode)
      → (old_url == new_url) ≡ false
      → status_at gid url (move_published publishes me now old_url new_url g node).bindings ≡ (
          if (g == gid) && publishes g
          then moved_status old_url new_url url (status_at gid url node.bindings)
          else status_at gid url node.bindings)
  unfolding move_published
  status_at-move_published old_url new_url g gid url node n =
      ground (arith, status_at-move_group me now old_url new_url g gid url node.bindings n)

  status_at-move_groups :
      (old_url new_url gid url : String) (gids : List String) (node : RelayNode)
      → (old_url == new_url) ≡ false
      → status_at gid url (move_groups publishes me now old_url new_url gids node).bindings ≡ (
          if contains gids gid && publishes gid
          then moved_status old_url new_url url (status_at gid url node.bindings)
          else status_at gid url node.bindings)
  unfolding move_groups
  status_at-move_groups old_url new_url gid url [] node n = refl
  status_at-move_groups old_url new_url gid url (g ∷ gids) node n = ground (
    arith,
    status_at-move_groups old_url new_url gid url gids
        (move_published publishes me now old_url new_url g node) n,
    status_at-move_published old_url new_url g gid url node n,
    moved_status_twice old_url new_url url (status_at gid url node.bindings),
    ap publishes (eq_of_beq gid g _),
    beq_comm gid g,
  )

  -- When an address is replaced by another, neither blank, exactly the groups with an active binding of
  -- the old one whose updates are published move: their binding of the new address is active, that of the
  -- old one, if any, is retired, and every other binding of theirs, and every binding of the other
  -- groups, keeps its status. The number returned is that of the groups found. The table has one row
  -- for each group and address.
  pub reconcile_relay_url_moves :
      (old_raw new_raw gid url : String) (node : RelayNode)
      → Dicts.HasDistinctKeys node.bindings
      → strip old_raw ≢ ""
      → strip new_raw ≢ ""
      → strip old_raw ≢ strip new_raw
      → (status_at gid url (reconcile_relay_url publishes me now old_raw new_raw node).0.bindings
          ≡ (if is_active gid (strip old_raw) node.bindings && publishes gid
              then moved_status
                  (strip old_raw)
                  (strip new_raw)
                  url
                  (status_at gid url node.bindings)
              else status_at gid url node.bindings))
        × ((reconcile_relay_url publishes me now old_raw new_raw node).1
            ≡ length (bound_groups (strip old_raw) node.bindings))
  unfolding reconcile_relay_url
  reconcile_relay_url_moves old_raw new_raw gid url node distinct a b c =
      let old_url = strip old_raw in
      let new_url = strip new_raw in
      let guard : ((old_url == "") || (new_url == "") || (old_url == new_url)) ≡ false =
        ground
          (arith, beq_false old_url "" a, beq_false new_url "" b, beq_false old_url new_url c) in
      rw guard (
        ground (
          arith,
          status_at-move_groups old_url new_url gid url (bound_groups old_url node.bindings) node
              (beq_false old_url new_url c),
          contains-bound_groups old_url gid node.bindings distinct,
        ),
        refl,
      )

  is_active_moved :
      (old_url new_url gid : String) (before after : Bindings)
      → (old_url == new_url) ≡ false
      → status_at gid old_url after ≡ (
          if is_active gid old_url before && true
          then moved_status old_url new_url old_url (status_at gid old_url before)
          else status_at gid old_url before)
      → is_active gid old_url after ≡ false
  unfolding is_active moved_status
  is_active_moved old_url new_url gid before after n h =
      elim (Option-cases (status_at gid old_url before)) [
        | inl e ↦ ground (arith, h, e)
        | inr (s, e) ↦ ground (arith, h, e, beq_comm new_url old_url, beq_refl old_url)
      ]

  -- After the tunnel came up under a new address, no group whose updates are published has an active
  -- binding of the address tracked before, and the new address is tracked. The table has one row for each
  -- group and address; the addresses are not blank, and differ when stripped.
  pub start_tunnel_and_reconcile_heals :
      (new_url gid : String) (node : RelayNode)
      → Dicts.HasDistinctKeys node.bindings
      → publishes gid ≡ true
      → strip node.self_heal_url ≢ ""
      → strip new_url ≢ ""
      → strip node.self_heal_url ≢ strip new_url
      → (is_active gid
            (strip node.self_heal_url)
            (start_tunnel_and_reconcile publishes me now new_url node).bindings
          ≡ false)
        × ((start_tunnel_and_reconcile publishes me now new_url node).self_heal_url ≡ new_url)
  unfolding start_tunnel_and_reconcile
  start_tunnel_and_reconcile_heals new_url gid node distinct p a b c =
      let started = record node { relay_running = true; tunnel_url = some new_url } in
      let old_url = strip node.self_heal_url in
      let named = ne_strip new_url b in
      let fresh = beq_false new_url node.self_heal_url (λ e. c (ap strip (sym e))) in
      let healed =
        reconcile_relay_url_moves node.self_heal_url new_url gid old_url started distinct a b c in
      rw (named, fresh)
        (
          is_active_moved old_url (strip new_url) gid node.bindings
              (reconcile_relay_url publishes me now node.self_heal_url new_url started).0.bindings
              (beq_false old_url (strip new_url) c)
              (healed.0
                ∙ ap
                    (λ b.
                      if is_active gid old_url node.bindings && b
                      then moved_status old_url (strip new_url) old_url
                          (status_at gid old_url node.bindings)
                      else status_at gid old_url node.bindings)
                    p),
          refl,
        )
