-- ===== src/Groups/Builtin.antt =====
-- The roles that no frame redefines.
use nexus_grid_grid.Prelude.Dicts
use nexus_grid_grid.Prelude.Text.{strip}
use nexus_grid_grid.Prelude.{
  ◌≡◌, refl, ap, ◌∙◌, Bool, true, false, not, ◌||◌, inl, inr, List, none, some, String, ◌==◌,
  text_key, pair_key, eq_of_beq, Bool-cases, arith,
}
use nexus_grid_grid.Groups.{GroupRole, Tables, tell}
use nexus_grid_grid.Groups.Frames.{Payload, roles_assign, roles_def, group_meta, relay_code}
use nexus_grid_grid.Groups.Roles.{
  apply_roles_assign, assign_roles, apply_roles_def, define_role, delete_role, is_known,
}
use nexus_grid_grid.Groups.Relays.{apply_group_meta, set_avatar, apply_relay_code, put_code}
use nexus_grid_grid.Groups.Handlers.{GroupFrame, Outside, apply}
use nexus_grid_grid.Groups.Inbox.{InboxNode}
use nexus_grid_grid.Groups.Escalation.{apply-GivesBaseline}
use nexus_grid_grid.Groups.Steps.{dispatch_all, dispatch_all-steps}

-- The roles of the founder and of a plain member.
abbrev pub is_fixed : String → Bool
is_fixed name = name == "founder" || name == "member"

-- The fixed roles are as before, and the role of an admin is not lost.
pub record KeepsBuiltin (g : String) (before after : Tables) : Type 0 where
  pub fixed :
      (name : String)
      → is_fixed name ≡ true
      → Dicts.get (g, name) after.roles ≡ Dicts.get (g, name) before.roles
  pub admin : is_known g before.roles "admin" ≡ true → is_known g after.roles "admin" ≡ true

KeepsBuiltin-same :
    (g : String) (before after : Tables) → after.roles ≡ before.roles → KeepsBuiltin g before after
KeepsBuiltin-same g before after e = record {
  fixed = λ name h. ap (Dicts.get (g, name)) e;
  admin = λ h. ap (λ roles. is_known g roles "admin") e ∙ h;
}

inserted-KeepsBuiltin :
    (g h name : String) (row : GroupRole) (before after : Tables)
    → is_fixed name ≡ false
    → after.roles ≡ Dicts.insert (h, name) row before.roles
    → KeepsBuiltin g before after
unfolding is_known
inserted-KeepsBuiltin g h name row before after free e = record {
  fixed = λ other is.
      ap (Dicts.get (g, other)) e
      ∙ ground (
        arith,
        Dicts.get-insert (h, name) (g, other) row before.roles,
        eq_of_beq name other,
        is,
        free,
      );
  admin = λ known. ground (
    arith,
    known,
    ap (Dicts.get (g, "admin")) e,
    Dicts.get-insert (h, name) (g, "admin") row before.roles,
  );
}

erased-KeepsBuiltin :
    (g h name : String) (before after : Tables)
    → is_fixed name ≡ false
    → (name == "admin") ≡ false
    → after.roles ≡ Dicts.erase (h, name) before.roles
    → KeepsBuiltin g before after
unfolding is_known
erased-KeepsBuiltin g h name before after free other_name e = record {
  fixed = λ other is.
      ap (Dicts.get (g, other)) e
      ∙ ground (
        arith,
        Dicts.get-erase (h, name) (g, other) before.roles,
        eq_of_beq name other,
        is,
        free,
      );
  admin = λ known. ground (
    arith,
    known,
    other_name,
    ap (Dicts.get (g, "admin")) e,
    Dicts.get-erase (h, name) (g, "admin") before.roles,
  );
}

define_role-KeepsBuiltin :
    (g at h name : String) (permissions : List String) (t : Tables)
    → KeepsBuiltin g t (define_role at h name permissions t).0
unfolding define_role tell
define_role-KeepsBuiltin g at h name permissions t = elim (Bool-cases (is_fixed name)) [
  | inl e ↦ rw e (KeepsBuiltin-same g t t refl)
  | inr e ↦ rw e (inserted-KeepsBuiltin g h name _ t _ e refl)
]

delete_role-KeepsBuiltin :
    (g h name : String) (t : Tables) → KeepsBuiltin g t (delete_role h name t).0
unfolding delete_role tell
delete_role-KeepsBuiltin g h name t =
    elim (Bool-cases (name == "founder" || (name == "admin" || name == "member"))) [
      | inl e ↦ rw e (KeepsBuiltin-same g t t refl)
      | inr e ↦ rw e (elim (Bool-cases (is_known h t.roles name)) [
        | inr absent ↦ rw absent (KeepsBuiltin-same g t t refl)
        | inl present ↦
            rw present (erased-KeepsBuiltin g h name t _ (ground arith) (ground arith) refl)
      ])
    ]

roles_def-KeepsBuiltin :
    (g now channel h op role_name : String) (permissions : List String) (at : String) (t : Tables)
    → KeepsBuiltin g t (apply_roles_def now channel h op role_name permissions at t).0
unfolding apply_roles_def
roles_def-KeepsBuiltin g now channel h op role_name permissions at t =
    let name = strip role_name in
    elim (Bool-cases (not (h == channel) || name == "")) [
      | inl e ↦ rw e (KeepsBuiltin-same g t t refl)
      | inr e ↦ rw e (elim (Bool-cases (op == "upsert")) [
        | inl upsert ↦ rw upsert (define_role-KeepsBuiltin g _ h name permissions t)
        | inr f ↦ rw f (elim (Bool-cases (op == "delete")) [
          | inl erase ↦ rw erase (delete_role-KeepsBuiltin g h name t)
          | inr neither ↦ rw neither (KeepsBuiltin-same g t t refl)
        ])
      ])
    ]

apply-KeepsBuiltin :
    (g : String) (o : Outside) (now channel sender : String) (payload : Payload) (t : Tables)
    → KeepsBuiltin g t (apply o now channel sender payload t).0
unfolding apply apply_roles_assign assign_roles apply_group_meta set_avatar apply_relay_code
    put_code tell
apply-KeepsBuiltin g o now channel sender (roles_def h op name perms at) t =
    roles_def-KeepsBuiltin g now channel h op name perms at t
apply-KeepsBuiltin g o now channel sender (roles_assign h p asked at) t =
    KeepsBuiltin-same g t _ (ground arith)
apply-KeepsBuiltin g o now channel sender (group_meta h none) t = KeepsBuiltin-same g t t refl
apply-KeepsBuiltin g o now channel sender (group_meta h (some avatar)) t =
    KeepsBuiltin-same g t _ (ground arith)
apply-KeepsBuiltin g o now channel sender (relay_code h source at) t =
    KeepsBuiltin-same g t _ (ground arith)
apply-KeepsBuiltin g o now channel sender payload t =
    KeepsBuiltin-same g t _ (apply-GivesBaseline o now channel sender payload t refl).roles_kept

-- Whatever frames come, of whatever sender, the roles `founder` and `member` of every group keep
-- their permissions, and a group that has the role `admin` keeps one.
pub dispatch_all-KeepsBuiltin :
    (g : String) (o : Outside) (frames : List (String × GroupFrame)) (n : InboxNode)
    → KeepsBuiltin g n.tables (dispatch_all o frames n).tables
dispatch_all-KeepsBuiltin g o frames n =
    dispatch_all-steps (λ sender. true) o (λ frame symkey admins f e. refl) (KeepsBuiltin g)
      (λ t. KeepsBuiltin-same g t t refl)
      (λ now f t member allowed. apply-KeepsBuiltin g o now f.channel f.sender_pubkey f.payload t)
      (λ r s t one two. record {
        fixed = λ name is. two.fixed name is ∙ one.fixed name is;
        admin = λ known. two.admin (one.admin known);
      })
      frames n
