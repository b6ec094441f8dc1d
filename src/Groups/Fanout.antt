-- ===== src/Groups/Fanout.antt =====
-- `relay_inbound_frame` of runtime/group_inbox.py: a host of a relay applies a frame and passes it on.
use nexus_grid_grid.Prelude.Dicts
use nexus_grid_grid.Prelude.Text.{strip, append_text}
use nexus_grid_grid.Prelude.{
  ℕ, suc, Bool, true, false, not, ◌&&◌, ◌||◌, List, [], ◌∷◌, Option, none, some, ◌⊎◌, inl, inr,
  String, Dict, contains, is_empty, leb, ltb, if◌then◌else◌, ◌==◌, text_key, pair_key,
}
use nexus_grid_grid.Groups.{
  GroupMember, Roles, Assignments, Tables, has_permission, admin_pubkeys, perm_group_approve,
}
use nexus_grid_grid.Groups.Frames.{
  Payload, pending_request, pending_decision, symkey_rotate, relay_update, OpenedFrame,
}
use nexus_grid_grid.Groups.Handlers.{GroupFrame, Outside, type_of, refusal, apply}
use nexus_grid_grid.Groups.Inbox.{
  InboxNode, seen, dedupe_capacity, capture_frame_to_log, is_group_paused, local_symkey,
}

pub record Target : Type 0 where
  pub member_pubkey : String
  pub peer_address : String
  pub node_id : String

-- Of the members that are wanted, those that an address or a node id reaches.
unfoldable pub targets_of :
    (String → Bool) → String → Dict (String × String) GroupMember → List Target
unfolding strip
targets_of wanted group_id [] = []
targets_of wanted group_id (((g, pubkey), m) ∷ members) =
    let rest = targets_of wanted group_id members in
    let target : Target = record {
      member_pubkey = pubkey;
      peer_address = strip m.peer_address;
      node_id = strip m.node_id;
    } in
    if not (g == group_id) || not (wanted pubkey)
    then rest
    else if strip m.peer_address == "" && strip m.node_id == ""
    then rest
    else target ∷ rest

-- The role of a row, where the group defines it, holds the permission.
unfoldable pub role_holds : String → Roles → String → String → Bool
role_holds perm roles group_id role = elim (Dicts.get (group_id, role) roles) [
  | none ↦ false
  | some row ↦ contains row.permissions perm
]

-- The members with a role that holds the permission: the join of the two tables.
unfoldable pub perm_holders : String → String → Roles → Assignments → List String
unfolding role_holds
perm_holders perm group_id roles [] = []
perm_holders perm group_id roles ((((g, pubkey), role), row) ∷ rows) =
    let rest = perm_holders perm group_id roles rows in
    if (g == group_id) && role_holds perm roles group_id role then pubkey ∷ rest else rest

unfoldable pub resolve_perm_holders : String → String → List String → Tables → List Target
unfolding perm_holders targets_of
resolve_perm_holders group_id perm exclude t =
    let holders = perm_holders perm group_id t.roles t.assignments in
    if is_empty holders
    then []
    else targets_of (λ p. contains holders p && not (contains exclude p)) group_id t.members

unfoldable pub resolve_all_member_targets : String → List String → Tables → List Target
unfolding targets_of
resolve_all_member_targets group_id exclude t =
    targets_of (λ p. not (contains exclude p)) group_id t.members

-- The frames that only those who approve requests are to get.
unfoldable pub for_approvers : Payload → Bool
for_approvers (pending_request group_id request_id details created_at) = true
for_approvers (pending_decision group_id request_id verdict) = true
for_approvers payload = false

unfoldable pub resolve_audience : String → Payload → List String → Tables → List Target
unfolding for_approvers resolve_perm_holders resolve_all_member_targets
resolve_audience group_id payload exclude t =
    if for_approvers payload
    then resolve_perm_holders group_id perm_group_approve exclude t
    else resolve_all_member_targets group_id exclude t

-- The fan-out: what is posted, and how many of the targets took it. The poster is a parameter; none
-- stands for its exception.
unfoldable pub fan_out : (Target → GroupFrame → Option ℕ) → GroupFrame → List Target → ℕ
fan_out poster frame [] = 0
fan_out poster frame (target ∷ targets) =
    let rest = fan_out poster frame targets in
    elim (poster target frame) [
      | none ↦ rest
      | some status ↦ if leb 200 status && ltb status 300 then suc rest else rest
    ]

pub record RelayReply : Type 0 where
  pub ok : Bool
  pub applied : Bool
  pub relayed : ℕ
  pub reason : String

-- The node after, the answer, and the targets that the frame was posted to.
pub record Relaying : Type 0 where
  pub node : InboxNode
  pub reply : RelayReply
  pub posted : List Target

unfoldable pub not_relayed : Bool → String → InboxNode → Relaying
not_relayed ok reason n = record {
  node = n;
  reply = record { ok = ok; applied = false; relayed = 0; reason = reason };
  posted = [];
}

unfoldable pub in_audience : Outside → String → Payload → Tables → Bool
unfolding for_approvers has_permission
in_audience o channel payload t =
    not (for_approvers payload) || has_permission t channel o.me perm_group_approve

unfoldable pub apply_as_audience : Outside → String → String → OpenedFrame → Tables → Tables × Bool
unfolding in_audience apply
apply_as_audience o now channel f t =
    if in_audience o channel f.payload t
    then apply o now f.channel f.sender_pubkey f.payload t
    else (t, false)

-- The channel whose permissions a gate asks for: that of the opened frame for two of the types.
unfoldable pub gate_channel : String → String → Payload → String
gate_channel channel opened (symkey_rotate group_id kicked_pubkey my_envelope) = opened
gate_channel channel opened (relay_update group_id change) = opened
gate_channel channel opened payload = channel

module _ (poster : Target → GroupFrame → Option ℕ) where
  -- The audience is read before the frame is applied.
  unfoldable pub pass_on : Outside → String → GroupFrame → OpenedFrame → InboxNode → Relaying
  unfolding apply_as_audience resolve_audience fan_out capture_frame_to_log type_of
  pass_on o now frame f n =
      let targets =
        resolve_audience frame.channel f.payload (f.sender_pubkey ∷ o.me ∷ []) n.tables in
      let after = apply_as_audience o now frame.channel f n.tables in
      record {
        node = record n {
          tables = after.0;
          frame_log = capture_frame_to_log now frame (type_of f.payload) n.frame_log;
        };
        reply = record {
          ok = true;
          applied = after.1;
          relayed = fan_out poster frame targets;
          reason = "";
        };
        posted = targets;
      }

  unfoldable pub relay_opened :
      Outside → String → GroupFrame → InboxNode → String ⊎ OpenedFrame → Relaying
  unfolding not_relayed refusal gate_channel pass_on
  relay_opened o now frame n (inl failure) = not_relayed false (append_text "verify: " failure) n
  relay_opened o now frame n (inr f) =
      elim (refusal (gate_channel frame.channel f.channel f.payload) f.sender_pubkey f.payload
        n.tables) [ some reason ↦ not_relayed true reason n | none ↦ pass_on o now frame f n ]

  unfoldable pub relay_verified : Outside → String → GroupFrame → String → InboxNode → Relaying
  unfolding admin_pubkeys not_relayed relay_opened
  relay_verified o now frame symkey n =
      let admins = admin_pubkeys frame.channel n.tables.assignments in
      if is_empty admins
      then not_relayed false "no admin pubkeys" n
      else relay_opened o now frame n (o.open_frame frame symkey admins)

  unfoldable pub relay_accepted : Outside → String → GroupFrame → InboxNode → Relaying
  unfolding is_group_paused local_symkey not_relayed relay_verified
  relay_accepted o now frame n =
      let g = Dicts.get frame.channel n.tables.groups in
      if is_group_paused g
      then not_relayed true "group paused locally" n
      else elim (local_symkey o.open_symkey g) [
        | none ↦ not_relayed false "no symkey for channel" n
        | some symkey ↦ relay_verified o now frame symkey n
      ]

  unfoldable pub relay_inbound_frame : Outside → String → GroupFrame → InboxNode → Relaying
  unfolding seen not_relayed relay_accepted
  relay_inbound_frame o now frame n =
      let looked_up = seen dedupe_capacity frame.frame_id n.seen_ids in
      let marked = record n { seen_ids = looked_up.0 } in
      if looked_up.1 then not_relayed true "duplicate" marked else relay_accepted o now frame marked
