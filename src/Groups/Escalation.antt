-- ===== src/Groups/Escalation.antt =====
-- What frames of members without `role:assign` can give.
use nexus_grid_grid.Prelude.Dicts
use nexus_grid_grid.Prelude.{
  ◌≡◌, refl, sym, ap, ◌∙◌, Bool, true, false, not, ◌||◌, inl, inr, Option, some, String, ◌==◌,
  text_key, pair_key, Bool-cases, Option-cases, arith,
}
use nexus_grid_grid.Groups.{Tables, tell, has_permission, perm_role_assign}
use nexus_grid_grid.Groups.Frames.{
  NewMember, Payload, pending_request, pending_decision, roster_update, symkey_rotate, relay_update,
  roles_assign, roles_def, chat_message, chat_mute, chat_delete, presence_beacon, usage_receipt,
  group_meta, relay_code, unknown,
}
use nexus_grid_grid.Groups.Roster.{
  apply_roster_update, put_member, put_default_role, join_line, apply_symkey_rotate, leave_line,
  drop_member, adopt_symkey, system_message,
}
use nexus_grid_grid.Groups.Handlers.{Outside, refusal, governed, apply}
use nexus_grid_grid.Groups.Powers.{
  names_role, names_role-insert, names_role-select, GivesBaseline, GivesBaseline-same,
}
use nexus_grid_grid.Groups.Untouched.{
  powers, powers-pending_request, powers-pending_decision, powers-chat_message, powers-chat_mute,
  powers-chat_delete, powers-presence_beacon, powers-usage_receipt, powers-relay_update,
  powers-system_message, powers-adopt_symkey,
}

GivesBaseline-powers :
    (before after : Tables) → powers after ≡ powers before → GivesBaseline before after
GivesBaseline-powers before after h = GivesBaseline-same before after (λ i. (h i).0) (λ i. (h i).1)

powers-put_member :
    (now g : String) (m : NewMember) (t : Tables) → powers (put_member now g m t) ≡ powers t
unfolding put_member join_line system_message
powers-put_member now g m t = ground arith

told-GivesBaseline :
    (kind g : String) (before t : Tables)
    → powers t ≡ powers before
    → GivesBaseline before (tell kind g t)
unfolding tell
told-GivesBaseline kind g before t h = GivesBaseline-powers before (tell kind g t) h

roster-GivesBaseline :
    (now sender g p : String) (before t : Tables)
    → powers t ≡ powers before
    → GivesBaseline before (tell "group.roster" g (put_default_role now sender g p t))
unfolding put_default_role tell
roster-GivesBaseline now sender g p before t h =
    elim (Option-cases (Dicts.get ((g, p), "member") t.assignments)) [
      | inr found ↦ rw (put_default_role, found.1) (told-GivesBaseline "group.roster" g before t h)
      | inl none_yet ↦
          rw (put_default_role, none_yet)
            (record {
              roles_kept = λ i. (h i).0;
              names_kept = λ g1 p1 name e.
                  elim (names_role-insert g1 p1 g p "member" name
                    (record { assigned_by_pubkey = sender; assigned_at = now }) t.assignments e) [
                      | inl before_it ↦
                          inl
                            (ap (λ rows. names_role g1 p1 rows name) (λ i. (sym h i).1) ∙ before_it)
                      | inr it ↦ inr it
                    ];
            })
    ]

roster_update-GivesBaseline :
    (now channel sender g action : String) (m : NewMember) (t : Tables)
    → GivesBaseline t (apply_roster_update now channel sender g action m t).0
unfolding apply_roster_update
roster_update-GivesBaseline now channel sender g action m t =
    elim (Bool-cases (not (g == channel) || not (action == "add") || m.pubkey == "")) [
      | inl e ↦ rw e (GivesBaseline-powers t t refl)
      | inr e ↦ rw e (
          roster-GivesBaseline now sender g m.pubkey t (put_member now g m t)
            (powers-put_member now g m t))
    ]

powers-rotated :
    (reseal : String → Option String) (now sender g kicked : String) (envelope : Option String)
    (t : Tables)
    → powers (leave_line now sender g kicked (adopt_symkey reseal g envelope t)) ≡ powers t
unfolding leave_line
powers-rotated reseal now sender g kicked envelope t =
    powers-system_message now g _ _ (adopt_symkey reseal g envelope t)
    ∙ powers-adopt_symkey reseal g envelope t

dropped-GivesBaseline :
    (g kicked : String) (before t : Tables)
    → powers t ≡ powers before
    → GivesBaseline before (tell "group.roster" g (drop_member g kicked t))
unfolding drop_member tell
dropped-GivesBaseline g kicked before t h = record {
  roles_kept = λ i. (h i).0;
  names_kept = λ g1 p1 name e. inl (
      ap (λ rows. names_role g1 p1 rows name) (λ i. (sym h i).1)
      ∙ names_role-select g1 p1 name _ t.assignments e);
}

symkey_rotate-GivesBaseline :
    (reseal : String → Option String) (now me channel sender g kicked : String)
    (envelope : Option String) (t : Tables)
    → GivesBaseline t (apply_symkey_rotate reseal now me channel sender g kicked envelope t).0
unfolding apply_symkey_rotate
symkey_rotate-GivesBaseline reseal now me channel sender g kicked envelope t =
    elim (Bool-cases (not (g == channel))) [
      | inl e ↦ rw e (GivesBaseline-powers t t refl)
      | inr e ↦ rw e (elim (Bool-cases (kicked == "" || kicked == me)) [
        | inl f ↦ rw f (
            told-GivesBaseline "group.roster" g t (adopt_symkey reseal g envelope t)
              (powers-adopt_symkey reseal g envelope t))
        | inr f ↦ rw f (
            dropped-GivesBaseline g kicked t
              (leave_line now sender g kicked (adopt_symkey reseal g envelope t))
              (powers-rotated reseal now sender g kicked envelope t))
      ])
    ]

-- A frame type whose gate is the permission to assign roles.
abbrev pub is_governed : Payload → Bool
is_governed (roles_assign group_id member_pubkey roles assigned_at) = true
is_governed (roles_def group_id op role_name permissions updated_at) = true
is_governed (group_meta group_id avatar) = true
is_governed (relay_code group_id source published_at) = true
is_governed payload = false

pub apply-GivesBaseline :
    (o : Outside) (now channel sender : String) (payload : Payload) (t : Tables)
    → is_governed payload ≡ false
    → GivesBaseline t (apply o now channel sender payload t).0
unfolding apply
apply-GivesBaseline o now channel sender (pending_request g id details at) t h =
    GivesBaseline-powers t _ (powers-pending_request now channel g id details at t)
apply-GivesBaseline o now channel sender (pending_decision g id v) t h =
    GivesBaseline-powers t _ (powers-pending_decision now channel g id v t)
apply-GivesBaseline o now channel sender (roster_update g action m) t h =
    roster_update-GivesBaseline now channel sender g action m t
apply-GivesBaseline o now channel sender (symkey_rotate g kicked envelope) t h =
    symkey_rotate-GivesBaseline o.reseal now o.me channel sender g kicked envelope t
apply-GivesBaseline o now channel sender (relay_update g c) t h =
    GivesBaseline-powers t _ (powers-relay_update now channel sender g c t)
apply-GivesBaseline o now channel sender (chat_message g id content at to) t h =
    GivesBaseline-powers t _ (powers-chat_message now o.me channel sender g id content at to t)
apply-GivesBaseline o now channel sender (chat_mute g target muted) t h =
    GivesBaseline-powers t _ (powers-chat_mute channel g target muted t)
apply-GivesBaseline o now channel sender (chat_delete g id) t h =
    GivesBaseline-powers t _ (powers-chat_delete channel sender g id t)
apply-GivesBaseline o now channel sender (presence_beacon ts) t h =
    GivesBaseline-powers t _ (powers-presence_beacon now channel sender ts t)
apply-GivesBaseline o now channel sender (usage_receipt r sig) t h =
    GivesBaseline-powers t _ (powers-usage_receipt o.verify o.me now channel r sig t)
apply-GivesBaseline o now channel sender (unknown frame_type) t h = GivesBaseline-powers t t refl
apply-GivesBaseline o now channel sender (roles_assign g p roles at) t h = ground arith
apply-GivesBaseline o now channel sender (roles_def g op name perms at) t h = ground arith
apply-GivesBaseline o now channel sender (group_meta g avatar) t h = ground arith
apply-GivesBaseline o now channel sender (relay_code g source at) t h = ground arith

-- A governed frame of a sender without the permission is refused.
pub refusal-governed :
    (channel sender : String) (payload : Payload) (t : Tables)
    → is_governed payload ≡ true
    → has_permission t channel sender perm_role_assign ≡ false
    → refusal channel sender payload t ≡ some "sender lacks role:assign"
unfolding refusal governed
refusal-governed channel sender (roles_assign g p roles at) t h lacks = rw lacks refl
refusal-governed channel sender (roles_def g op name perms at) t h lacks = rw lacks refl
refusal-governed channel sender (group_meta g avatar) t h lacks = rw lacks refl
refusal-governed channel sender (relay_code g source at) t h lacks = rw lacks refl
refusal-governed channel sender payload t h lacks = ground arith
