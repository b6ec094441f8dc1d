-- ===== src/Relay/Moved.antt =====
-- Which bindings the self-healing changes, and how.
use mathlib.Core.Option
use nexus_grid_grid.Prelude.Dicts
use nexus_grid_grid.Prelude.{
  Bool, true, false, ◌&&◌, ◌||◌, ◌≡◌, refl, sym, ap, inl, inr, List, [], ◌∷◌, Option, none, some,
  String, contains, if◌then◌else◌, ◌==◌, text_key, nat_eq, pair_key, arith, Option-cases, and_parts,
  eq_of_beq, beq_comm,
}
use nexus_grid_grid.Relay.{Binding}
use nexus_grid_grid.Relay.SelfHeal.{
  Bindings, insert_sorted, bound_groups, new_binding, activate, retire, move_group,
}

-- The status of a group's binding of an address, and whether it takes traffic.
unfoldable pub status_at : String → String → Bindings → Option String
status_at gid url rows = Option.map (λ row. row.status) (Dicts.get (gid, url) rows)

unfoldable pub is_active : String → String → Bindings → Bool
unfolding status_at
is_active gid url rows = elim (status_at gid url rows) [ none ↦ false | some s ↦ s == "active" ]

-- The status of a binding of a group that moved from the old address to the new one.
unfoldable pub moved_status : String → String → String → Option String → Option String
moved_status old_url new_url url before =
    if new_url == url
    then some "active"
    else if old_url == url
    then Option.map (λ s. "retired") before
    else before

status_at-insert :
    (g u gid url : String) (row : Binding) (rows : Bindings)
    → status_at gid url (Dicts.insert (g, u) row rows)
      ≡ (if (g == gid) && (u == url) then some row.status else status_at gid url rows)
unfolding status_at
status_at-insert g u gid url row rows = ground (arith, Dicts.get-insert (g, u) (gid, url) row rows)

status_at-same :
    (g u gid url : String) (rows : Bindings)
    → ((g == gid) && (u == url)) ≡ true
    → Dicts.get (g, u) rows ≡ Dicts.get (gid, url) rows
status_at-same g u gid url rows e =
    let parts = and_parts (g == gid) (u == url) e in
    let left = eq_of_beq g gid parts.0 in
    let right = eq_of_beq u url parts.1 in λ i. Dicts.get (left i, right i) rows

status_at-missing :
    (g u gid url : String) (rows : Bindings)
    → Dicts.get (g, u) rows ≡ none
    → ((g == gid) && (u == url)) ≡ true
    → status_at gid url rows ≡ none
unfolding status_at
status_at-missing g u gid url rows h e = rw (sym (status_at-same g u gid url rows e), h) refl

status_at-found :
    (g u gid url : String) (row : Binding) (rows : Bindings)
    → Dicts.get (g, u) rows ≡ some row
    → ((g == gid) && (u == url)) ≡ true
    → status_at gid url rows ≡ some row.status
unfolding status_at
status_at-found g u gid url row rows h e = rw (sym (status_at-same g u gid url rows e), h) refl

status_at-retire :
    (g u gid url : String) (rows : Bindings)
    → status_at gid url (retire (g, u) rows) ≡ (
        if (g == gid) && (u == url)
        then Option.map (λ s. "retired") (status_at gid url rows)
        else status_at gid url rows)
unfolding retire
status_at-retire g u gid url rows = elim (Option-cases (Dicts.get (g, u) rows)) [
  | inl e ↦ rw (e, retire) (ground (arith, status_at-missing g u gid url rows e))
  | inr (row, e) ↦
      rw (e, retire)
        (ground (
          arith,
          status_at-insert g u gid url (record row { status = "retired" }) rows,
          status_at-found g u gid url row rows e,
        ))
]

status_activate : (me now : String) (row : Option Binding) → (activate me now row).status ≡ "active"
unfolding activate new_binding
status_activate me now none = refl
status_activate me now (some row) = refl

pub status_at-move_group :
    (me now old_url new_url g gid url : String) (rows : Bindings)
    → (old_url == new_url) ≡ false
    → status_at gid url (move_group me now old_url new_url g rows) ≡ (
        if g == gid
        then moved_status old_url new_url url (status_at gid url rows)
        else status_at gid url rows)
unfolding move_group moved_status
status_at-move_group me now old_url new_url g gid url rows n =
    let row = activate me now (Dicts.get (g, new_url) rows) in
    ground (
      arith,
      status_at-retire g old_url gid url (Dicts.insert (g, new_url) row rows),
      status_at-insert g new_url gid url row rows,
      status_activate me now (Dicts.get (g, new_url) rows),
      ap (λ k. k == new_url) (eq_of_beq old_url url _),
      beq_comm url new_url,
    )

contains-insert_sorted :
    (g x : String) (gs : List String)
    → contains (insert_sorted g gs) x ≡ ((x == g) || contains gs x)
unfolding insert_sorted
contains-insert_sorted g x [] = refl
contains-insert_sorted g x (h ∷ hs) =
    ground (arith, contains-insert_sorted g x hs, ap (λ k. x == k) (eq_of_beq g h _))

-- Moving twice is moving once.
pub moved_status_twice :
    (old_url new_url url : String) (before : Option String)
    → moved_status old_url new_url url (moved_status old_url new_url url before)
      ≡ moved_status old_url new_url url before
unfolding moved_status
moved_status_twice old_url new_url url none = ground arith
moved_status_twice old_url new_url url (some s) = ground arith

same_place :
    (g b gid url : String) (rows : Bindings)
    → (g == gid) ≡ true
    → (b == url) ≡ true
    → Dicts.get (g, b) rows ≡ Dicts.get (gid, url) rows
same_place g b gid url rows e f = status_at-same g b gid url rows (ground arith)

-- The groups found are those with an active binding of the address.
pub contains-bound_groups :
    (url gid : String) (rows : Bindings)
    → Dicts.HasDistinctKeys rows
    → contains (bound_groups url rows) gid ≡ is_active gid url rows
unfolding bound_groups is_active status_at Dicts.get
contains-bound_groups url gid [] h = refl
contains-bound_groups url gid (((g, b), binding) ∷ rows) h = ground (
  arith,
  contains-bound_groups url gid rows h.1,
  contains-insert_sorted g gid (bound_groups url rows),
  h.0,
  beq_comm g gid,
  same_place g b gid url rows,
)
