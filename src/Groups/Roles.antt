-- ===== src/Groups/Roles.antt =====
-- The frames about roles: `roles.assign` and `roles.def`.
use nexus_grid_grid.Prelude.Dicts
use nexus_grid_grid.Prelude.Text.{strip}
use nexus_grid_grid.Prelude.{
  Bool, true, false, not, ◌&&◌, ◌||◌, List, [], ◌∷◌, Option, none, some, String, select, contains,
  is_empty, if◌then◌else◌, ◌==◌, text_key, pair_key,
}
use nexus_grid_grid.Groups.{
  or_text, Group, GroupRole, GroupMemberRole, Roles, Assignments, Tables, tell,
}

-- Into a set without repeats.
unfoldable pub add_name : String → List String → List String
add_name name names = if contains names name then names else name ∷ names

unfoldable pub distinct_names : List String → List String
unfolding add_name
distinct_names [] = []
distinct_names (name ∷ names) = add_name name (distinct_names names)

-- The names of the roles that the group defines.
unfoldable pub is_known : String → Roles → String → Bool
is_known group_id roles name = elim (Dicts.get (group_id, name) roles) [
  | none ↦ false
  | some role ↦ true
]

-- The roles asked for, with the baseline and the founder's own, as far as they are known.
unfoldable pub granted_roles : String → Group → String → List String → Roles → List String
unfolding distinct_names add_name is_known
granted_roles group_id g pubkey asked roles =
    let requested = add_name "member" (distinct_names asked) in
    select (is_known group_id roles)
      (if pubkey == g.founder_pubkey then add_name "founder" requested else requested)

unfoldable pub assign_each :
    GroupMemberRole → String → String → List String → Assignments → Assignments
assign_each row group_id pubkey [] assignments = assignments
assign_each row group_id pubkey (name ∷ names) assignments =
    assign_each row group_id pubkey names (Dicts.insert ((group_id, pubkey), name) row assignments)

-- The old set is deleted before the new one is written.
unfoldable pub replace_roles :
    GroupMemberRole → String → String → List String → Assignments → Assignments
unfolding assign_each
replace_roles row group_id pubkey names assignments =
    assign_each row group_id pubkey names
      (select (λ e. not (e.0.0.0 == group_id && e.0.0.1 == pubkey)) assignments)

-- The part behind the guards, for a known group and a known member.
unfoldable pub assign_roles :
    String → String → String → Group → String → List String → String → Tables → Tables × Bool
unfolding granted_roles replace_roles tell
assign_roles now sender group_id g pubkey asked assigned_at t =
    let granted = granted_roles group_id g pubkey asked t.roles in
    let row : GroupMemberRole = record {
      assigned_by_pubkey = sender;
      assigned_at = or_text assigned_at now;
    } in
    if is_empty granted then (t, false) else (
      tell "group.roster" group_id
          (record t { assignments = replace_roles row group_id pubkey granted t.assignments }),
      true,
    )

unfoldable pub apply_roles_assign :
    String → String → String → String → String → List String → String → Tables → Tables × Bool
unfolding assign_roles
apply_roles_assign now channel sender group_id pubkey asked assigned_at t =
    if not (group_id == channel) || pubkey == ""
    then (t, false)
    else elim (Dicts.get group_id t.groups) [
      | none ↦ (t, false)
      | some g ↦ elim (Dicts.get (group_id, pubkey) t.members) [
        | none ↦ (t, false)
        | some member ↦ assign_roles now sender group_id g pubkey asked assigned_at t
      ]
    ]

-- A new definition, or new permissions for one that is there.
unfoldable pub defined : String → List String → Option GroupRole → GroupRole
defined at permissions none = record { permissions = permissions; created_at = at; updated_at = at }
defined at permissions (some role) = record role { permissions = permissions; updated_at = at }

unfoldable pub define_role : String → String → String → List String → Tables → Tables × Bool
unfolding defined distinct_names tell
define_role at group_id name permissions t =
    if name == "founder" || name == "member" then (t, false) else (
      tell "group.roster" group_id (record t {
        roles =
            Dicts.insert (group_id, name)
              (defined at (distinct_names permissions) (Dicts.get (group_id, name) t.roles))
              t.roles;
      }),
      true,
    )

unfoldable pub delete_role : String → String → Tables → Tables × Bool
unfolding is_known tell
delete_role group_id name t =
    if name == "founder" || (name == "admin" || name == "member")
    then (t, false)
    else if not (is_known group_id t.roles name)
    then (t, false)
    else (
      tell "group.roster" group_id (record t {
        assignments = select (λ e. not (e.0.0.0 == group_id && e.0.1 == name)) t.assignments;
        roles = Dicts.erase (group_id, name) t.roles;
      }),
      true,
    )

unfoldable pub apply_roles_def :
    String → String → String → String → String → List String → String → Tables → Tables × Bool
unfolding define_role delete_role strip
apply_roles_def now channel group_id op role_name permissions updated_at t =
    let name = strip role_name in
    if not (group_id == channel) || name == ""
    then (t, false)
    else if op == "upsert"
    then define_role (or_text updated_at now) group_id name permissions t
    else if op == "delete"
    then delete_role group_id name t
    else (t, false)
