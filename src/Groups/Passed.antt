-- ===== src/Groups/Passed.antt =====
-- To whom the host of a relay passes a frame on.
use nexus_grid_grid.Prelude.Dicts
use nexus_grid_grid.Prelude.Dicts.{HasDistinctKeys}
use nexus_grid_grid.Prelude.Text.{strip}
use nexus_grid_grid.Prelude.{
  some, All-map, ◌≡◌, refl, sym, ◌∙◌, ℕ, Bool, true, false, not, ◌&&◌, ◌||◌, ◌⊎◌, inl, inr, [], ◌∷◌,
  Option, none, String, Dict, All, contains, is_empty, ◌==◌, text_key, pair_key, Bool-cases,
  Option-cases, arith,
}
use nexus_grid_grid.Groups.{GroupMember, Tables, has_permission, admin_pubkeys, perm_group_approve}
use nexus_grid_grid.Groups.Frames.{Payload, OpenedFrame}
use nexus_grid_grid.Groups.Handlers.{GroupFrame, Outside, refusal}
use nexus_grid_grid.Groups.Inbox.{InboxNode, seen, dedupe_capacity, is_group_paused, local_symkey}
use nexus_grid_grid.Groups.Fanout.{
  Target, targets_of, perm_holders, resolve_perm_holders, resolve_all_member_targets, for_approvers,
  resolve_audience, not_relayed, gate_channel, pass_on, relay_opened, relay_verified,
  relay_accepted, relay_inbound_frame,
}
use nexus_grid_grid.Groups.Holders.{perm_holders-has_permission}

targets_of-wanted :
    (wanted : String → Bool) (g : String) (members : Dict (String × String) GroupMember)
    → All (λ target. wanted target.member_pubkey ≡ true) (targets_of wanted g members)
unfolding targets_of
targets_of-wanted wanted g [] = tt
targets_of-wanted wanted g (((h, p), m) ∷ members) =
    elim (Bool-cases (not (h == g) || not (wanted p))) [
      | inl e ↦ rw e (targets_of-wanted wanted g members)
      | inr e ↦ rw e (elim (Bool-cases (strip m.peer_address == "" && strip m.node_id == "")) [
        | inl far ↦ rw far (targets_of-wanted wanted g members)
        | inr near ↦ rw near (ground (arith, e), targets_of-wanted wanted g members)
      ])
    ]

-- A target may get the frame: it is neither the sender nor the host, and a frame for those who approve
-- requests goes to those only.
pub record MayGet (g me sender : String) (payload : Payload) (t : Tables) (target : Target)
    : Type 0 where
  pub not_sender : (target.member_pubkey == sender) ≡ false
  pub not_me : (target.member_pubkey == me) ≡ false
  pub may_approve :
      for_approvers payload ≡ true
      → has_permission t g target.member_pubkey perm_group_approve ≡ true

resolve_audience-MayGet :
    (g me sender : String) (payload : Payload) (t : Tables)
    → HasDistinctKeys t.roles
    → All (MayGet g me sender payload t) (resolve_audience g payload (sender ∷ me ∷ []) t)
unfolding resolve_audience resolve_perm_holders resolve_all_member_targets
resolve_audience-MayGet g me sender payload t distinct =
    let holders = perm_holders perm_group_approve g t.roles t.assignments in
    elim (Bool-cases (for_approvers payload)) [
      | inl approvers ↦ rw approvers (elim (Bool-cases (is_empty holders)) [
        | inl none_there ↦ rw none_there tt
        | inr there ↦ rw there (
            All-map
              (targets_of (λ p. contains holders p && not (contains (sender ∷ me ∷ []) p)) g
                t.members)
              (λ target h. record {
                not_sender = ground (arith, h);
                not_me = ground (arith, h);
                may_approve = λ yes.
                    sym (
                      perm_holders-has_permission perm_group_approve g target.member_pubkey t
                        distinct)
                    ∙ ground (arith, h);
              })
              (targets_of-wanted (λ p. contains holders p && not (contains (sender ∷ me ∷ []) p)) g
                t.members))
      ])
      | inr all_members ↦ rw all_members (
          All-map (targets_of (λ p. not (contains (sender ∷ me ∷ []) p)) g t.members)
            (λ target h. record {
              not_sender = ground (arith, h);
              not_me = ground (arith, h);
              may_approve = λ yes. ground (arith, yes, all_members);
            })
            (targets_of-wanted (λ p. not (contains (sender ∷ me ∷ []) p)) g t.members))
    ]

-- The frame opens with the keys of its channel, its sender may send it, and the target may get it.
pub record PassedOn (o : Outside) (frame : GroupFrame) (t : Tables) (target : Target) : Type 0 where
  pub opened : OpenedFrame
  pub symkey : String
  pub not_paused : is_group_paused (Dicts.get frame.channel t.groups) ≡ false
  pub has_key : local_symkey o.open_symkey (Dicts.get frame.channel t.groups) ≡ some symkey
  pub opens : o.open_frame frame symkey (admin_pubkeys frame.channel t.assignments) ≡ inr opened
  pub allowed :
      refusal
        (gate_channel frame.channel opened.channel opened.payload)
        opened.sender_pubkey
        opened.payload
        t
      ≡ none
  pub may_get : MayGet frame.channel o.me opened.sender_pubkey opened.payload t target

module _ (poster : Target → GroupFrame → Option ℕ) (o : Outside) where
  posted-relay_opened :
      (now : String) (frame : GroupFrame) (n : InboxNode) (symkey : String)
      (r : String ⊎ OpenedFrame)
      → HasDistinctKeys n.tables.roles
      → is_group_paused (Dicts.get frame.channel n.tables.groups) ≡ false
      → local_symkey o.open_symkey (Dicts.get frame.channel n.tables.groups) ≡ some symkey
      → o.open_frame frame symkey (admin_pubkeys frame.channel n.tables.assignments) ≡ r
      → All (PassedOn o frame n.tables) (relay_opened poster o now frame n r).posted
  unfolding relay_opened not_relayed pass_on
  posted-relay_opened now frame n symkey (inl failure) distinct awake key e = tt
  posted-relay_opened now frame n symkey (inr f) distinct awake key e =
      elim (Option-cases (
        refusal (gate_channel frame.channel f.channel f.payload) f.sender_pubkey f.payload
          n.tables)) [
            | inr refused ↦ rw (relay_opened, refused.1) tt
            | inl allowed ↦
                rw (relay_opened, allowed)
                  (All-map
                    (resolve_audience frame.channel f.payload (f.sender_pubkey ∷ o.me ∷ [])
                      n.tables)
                    (λ target may. record {
                      opened = f;
                      symkey = symkey;
                      not_paused = awake;
                      has_key = key;
                      opens = e;
                      allowed = allowed;
                      may_get = may;
                    })
                    (resolve_audience-MayGet frame.channel o.me f.sender_pubkey f.payload n.tables
                      distinct))
          ]

  posted-relay_verified :
      (now : String) (frame : GroupFrame) (symkey : String) (n : InboxNode)
      → HasDistinctKeys n.tables.roles
      → is_group_paused (Dicts.get frame.channel n.tables.groups) ≡ false
      → local_symkey o.open_symkey (Dicts.get frame.channel n.tables.groups) ≡ some symkey
      → All (PassedOn o frame n.tables) (relay_verified poster o now frame symkey n).posted
  unfolding relay_verified not_relayed
  posted-relay_verified now frame symkey n distinct awake key =
      let admins = admin_pubkeys frame.channel n.tables.assignments in
      elim (Bool-cases (is_empty admins)) [
        | inl e ↦ rw e tt
        | inr e ↦ rw e (
            posted-relay_opened now frame n symkey (o.open_frame frame symkey admins) distinct awake
              key refl)
      ]

  posted-relay_accepted :
      (now : String) (frame : GroupFrame) (n : InboxNode)
      → HasDistinctKeys n.tables.roles
      → All (PassedOn o frame n.tables) (relay_accepted poster o now frame n).posted
  unfolding relay_accepted not_relayed
  posted-relay_accepted now frame n distinct =
      let g = Dicts.get frame.channel n.tables.groups in
      elim (Bool-cases (is_group_paused g)) [
        | inl e ↦ rw e tt
        | inr e ↦ rw e (elim (Option-cases (local_symkey o.open_symkey g)) [
          | inl no_key ↦ rw no_key tt
          | inr key ↦ rw key.1 (posted-relay_verified now frame key.0 n distinct e key.1)
        ])
      ]

  -- Whatever frame comes to the host of a relay whose table defines no role twice, it is posted only
  -- when the host has not paused its group, the frame opens with the key of its channel that the host
  -- keeps, under the founder and the admins of the channel, and its sender may send it; then to neither
  -- the sender nor the host, and, when it is a request or a decision, only to members that may approve
  -- requests.
  pub relay_inbound_frame-PassedOn :
      (now : String) (frame : GroupFrame) (n : InboxNode)
      → HasDistinctKeys n.tables.roles
      → All (PassedOn o frame n.tables) (relay_inbound_frame poster o now frame n).posted
  unfolding relay_inbound_frame not_relayed
  relay_inbound_frame-PassedOn now frame n distinct =
      let looked_up = seen dedupe_capacity frame.frame_id n.seen_ids in
      elim (Bool-cases looked_up.1) [
        | inl e ↦ rw e tt
        | inr e ↦
            rw e (posted-relay_accepted now frame (record n { seen_ids = looked_up.0 }) distinct)
      ]
