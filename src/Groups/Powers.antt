-- ===== src/Groups/Powers.antt =====
-- Which roles and permissions a change of the tables of a group can give.
use nexus_grid_grid.Prelude.Dicts
use nexus_grid_grid.Prelude.{
  contains-append, ◌≡◌, sym, ap, ◌∙◌, Bool, true, ◌⊎◌, inl, List, [], ◌∷◌, String, select, contains,
  text_key, pair_key, eq_of_beq, beq_refl, arith,
}
use nexus_grid_grid.Groups.{
  GroupMemberRole, Roles, Assignments, Tables, role_names, permissions_of, effective_permissions,
  has_permission,
}

abbrev pub names_role : String → String → Assignments → String → Bool
unfolding role_names
names_role group_id pubkey rows name = contains (role_names group_id pubkey rows) name

pub names_role-insert :
    (g p h q n name : String) (row : GroupMemberRole) (rows : Assignments)
    → names_role g p (Dicts.insert ((h, q), n) row rows) name ≡ true
    → (names_role g p rows name ≡ true) ⊎ (name ≡ n)
unfolding role_names Dicts.insert
names_role-insert g p h q n name row [] e = ground (arith, eq_of_beq name n)
names_role-insert g p h q n name row ((((h1, q1), n1), row1) ∷ rows) e = ground (
  arith,
  eq_of_beq h1 h,
  eq_of_beq q1 q,
  eq_of_beq n1 n,
  eq_of_beq name n,
  names_role-insert g p h q n name row rows,
)

pub names_role-select :
    (g p name : String) (keep : (((String × String) × String) × GroupMemberRole) → Bool)
    (rows : Assignments)
    → names_role g p (select keep rows) name ≡ true
    → names_role g p rows name ≡ true
unfolding role_names
names_role-select g p name keep [] e = e
names_role-select g p name keep ((((h, q), n), row) ∷ rows) e =
    ground (arith, names_role-select g p name keep rows)

-- The permissions of some names come from the permissions of two lists that cover them.
permissions_of-cover :
    (g perm : String) (names olds more : List String) (roles : Roles)
    → ((n : String) → contains names n ≡ true → (contains olds n ≡ true) ⊎ (contains more n ≡ true))
    → contains (permissions_of g names roles) perm ≡ true
    → (contains (permissions_of g olds roles) perm ≡ true)
      ⊎ (contains (permissions_of g more roles) perm ≡ true)
unfolding permissions_of
permissions_of-cover g perm names olds more [] cover e = inl e
permissions_of-cover g perm names olds more (((h, n), role) ∷ roles) cover e = ground (
  arith,
  cover n,
  contains-append role.permissions (permissions_of g names roles) perm,
  contains-append role.permissions (permissions_of g olds roles) perm,
  contains-append role.permissions (permissions_of g more roles) perm,
  permissions_of-cover g perm names olds more roles cover,
)

-- Roles are as before, and nobody has a new one but the baseline.
pub record GivesBaseline (before after : Tables) : Type 0 where
  pub roles_kept : after.roles ≡ before.roles
  pub names_kept :
      (g p name : String)
      → names_role g p after.assignments name ≡ true
      → (names_role g p before.assignments name ≡ true) ⊎ (name ≡ "member")

-- The permissions of the role that every member has.
abbrev pub baseline : String → Tables → List String
baseline g t = permissions_of g ("member" ∷ []) t.roles

pub GivesBaseline-permissions :
    (before after : Tables) (g p perm : String)
    → GivesBaseline before after
    → has_permission after g p perm ≡ true
    → (has_permission before g p perm ≡ true) ⊎ (contains (baseline g before) perm ≡ true)
unfolding has_permission effective_permissions
GivesBaseline-permissions before after g p perm h e =
    permissions_of-cover g perm (role_names g p after.assignments)
      (role_names g p before.assignments) ("member" ∷ []) before.roles
      (λ n found. ground (arith, h.names_kept g p n, beq_refl n))
      (ap (λ roles. contains (permissions_of g (role_names g p after.assignments) roles) perm)
          (sym h.roles_kept)
        ∙ e)

pub GivesBaseline-same :
    (before after : Tables)
    → after.roles ≡ before.roles
    → after.assignments ≡ before.assignments
    → GivesBaseline before after
GivesBaseline-same before after r a = record {
  roles_kept = r;
  names_kept = λ g p name e. inl (ap (λ rows. names_role g p rows name) (sym a) ∙ e);
}
