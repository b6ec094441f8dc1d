-- ===== src/Groups/Holders.antt =====
-- The join that finds the members with a permission, against the permissions of one member.
use nexus_grid_grid.Prelude.Dicts
use nexus_grid_grid.Prelude.Dicts.{HasDistinctKeys}
use nexus_grid_grid.Prelude.{
  contains-append, ◌≡◌, refl, sym, ◌∙◌, false, ◌&&◌, ◌||◌, List, [], ◌∷◌, none, String, any,
  contains, ◌==◌, text_key, pair_key, beq_comm, arith,
}
use nexus_grid_grid.Groups.{
  GroupRole, Roles, Assignments, Tables, role_names, permissions_of, effective_permissions,
  has_permission,
}
use nexus_grid_grid.Groups.Fanout.{role_holds, perm_holders}

-- One more role, which the rest does not define.
any-role_holds_cons :
    (perm g h n : String) (row : GroupRole) (roles : Roles) (names : List String)
    → Dicts.get (h, n) roles ≡ none
    → any (role_holds perm (((h, n), row) ∷ roles) g) names ≡ (
        ((h == g) && contains names n && contains row.permissions perm)
        || any (role_holds perm roles g) names)
unfolding role_holds Dicts.get
any-role_holds_cons perm g h n row roles [] absent = ground arith
any-role_holds_cons perm g h n row roles (name ∷ names) absent = ground (
  arith,
  absent,
  Dicts.get_same (h, n) (g, name) roles,
  beq_comm n name,
  any-role_holds_cons perm g h n row roles names absent,
)

none_holds : (perm g : String) (names : List String) → any (role_holds perm [] g) names ≡ false
unfolding role_holds Dicts.get
none_holds perm g [] = refl
none_holds perm g (name ∷ names) = none_holds perm g names

contains-permissions_of :
    (perm g : String) (names : List String) (roles : Roles)
    → HasDistinctKeys roles
    → contains (permissions_of g names roles) perm ≡ any (role_holds perm roles g) names
unfolding permissions_of
contains-permissions_of perm g names [] distinct = ground (arith, none_holds perm g names)
contains-permissions_of perm g names (((h, n), row) ∷ roles) distinct = ground (
  arith,
  any-role_holds_cons perm g h n row roles names distinct.0,
  contains-append row.permissions (permissions_of g names roles) perm,
  contains-permissions_of perm g names roles distinct.1,
)

contains-perm_holders :
    (perm g p : String) (roles : Roles) (rows : Assignments)
    → contains (perm_holders perm g roles rows) p
      ≡ any (role_holds perm roles g) (role_names g p rows)
unfolding perm_holders role_names
contains-perm_holders perm g p roles [] = refl
contains-perm_holders perm g p roles ((((h, q), n), row) ∷ rows) =
    ground (arith, beq_comm p q, contains-perm_holders perm g p roles rows)

-- The join of the role tables finds exactly the members that have the permission, in a table that
-- defines no role twice.
pub perm_holders-has_permission :
    (perm g p : String) (t : Tables)
    → HasDistinctKeys t.roles
    → contains (perm_holders perm g t.roles t.assignments) p ≡ has_permission t g p perm
unfolding has_permission effective_permissions
perm_holders-has_permission perm g p t distinct =
    contains-perm_holders perm g p t.roles t.assignments
    ∙ sym (contains-permissions_of perm g (role_names g p t.assignments) t.roles distinct)
