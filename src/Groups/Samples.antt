-- ===== src/Groups/Samples.antt =====
-- Test data of the group inbox: a group of two, with a message, a relay and a request.
use nexus_grid_grid.Prelude.{
  Bool, true, false, List, [], ◌∷◌, inr, none, some, String, if◌then◌else◌, ◌==◌, text_key,
}
use nexus_grid_grid.Prelude.Int.{pos}
use nexus_grid_grid.Groups.{
  GroupMember, GroupRole, GroupMemberRole, GroupPendingJoinRequest, Content, GroupMessage,
  GroupRelayBinding, Tables, perm_group_read, perm_group_approve, perm_relay_use, perm_role_assign,
}
use nexus_grid_grid.Groups.Frames.{
  RelayConfig, Payload, pending_decision, relay_update, roles_assign, roles_def, chat_delete,
  chat_message,
}
use nexus_grid_grid.Groups.Handlers.{GroupFrame, Outside}
use nexus_grid_grid.Groups.Inbox.{InboxNode}

abbrev pub plain_content : Content
plain_content = record {
  sender_name = "Ann";
  body = "hello";
  reply_to = "";
  reply_snippet = "";
  reply_sender = "";
  attach_kind = "";
  attach_name = "";
  attach_mime = "";
  attach_size = pos 0;
  attach_data = "";
}

abbrev pub anns_message : GroupMessage
anns_message = record {
  sender_pubkey = "ann";
  content = plain_content;
  sent_at = "t1";
  received_at = "t1";
  deleted = false;
}

abbrev pub deleted_message : GroupMessage
deleted_message = record anns_message {
  content = record plain_content { body = "" };
  deleted = true;
}

abbrev pub waiting_request : GroupPendingJoinRequest
waiting_request = record {
  group_id = "g";
  details = record {
    joiner_pubkey = "eve";
    joiner_address = "";
    joiner_x25519_pub = "";
    joiner_node_id = "node-e";
    invite_token = "token";
    message = "";
    display_name = "Eve";
  };
  status = "pending";
  created_at = "t0";
  decided_at = "";
  decided_by_pubkey = "";
  decision_reason = "";
  delivered_at = "";
}

abbrev pub closed_relay : GroupRelayBinding
closed_relay = record {
  operator_pubkey = "bob";
  registered_at = "t0";
  status = "active";
  content_share = false;
  content_share_by = "";
  content_share_at = "";
  label = "";
  region = "";
  priority = pos 0;
}

abbrev pub member_row : GroupMember
member_row = record {
  joined_at = "t0";
  display_name = "";
  peer_address = "";
  node_id = "";
  muted = false;
  last_seen_at = "t0";
}

abbrev pub role_with : List String → GroupRole
role_with permissions = record { permissions = permissions; created_at = "t0"; updated_at = "t0" }

abbrev pub given_by_ann : GroupMemberRole
given_by_ann = record { assigned_by_pubkey = "ann"; assigned_at = "t0" }

abbrev pub sample_tables : Tables
sample_tables = record {
  groups =
      (
        "g",
        record {
          founder_pubkey = "ann";
          paused = false;
          avatar = "";
          relay_code_fingerprint = "";
          group_symkey = some "key";
        },
      )
      ∷ [];
  members = (("g", "ann"), member_row) ∷ (("g", "bob"), member_row) ∷ [];
  roles =
      (("g", "founder"), role_with (perm_role_assign ∷ []))
      ∷ (("g", "member"), role_with (perm_group_read ∷ perm_relay_use ∷ []))
      ∷ [];
  assignments =
      ((("g", "ann"), "founder"), given_by_ann) ∷ ((("g", "bob"), "member"), given_by_ann) ∷ [];
  requests = ("r1", waiting_request) ∷ [];
  messages = (("g", "m1"), anns_message) ∷ (("g", "m0"), deleted_message) ∷ [];
  bindings =
      (("g", "https://relay"), closed_relay)
      ∷ (("g", "https://open"), record closed_relay { content_share = true })
      ∷ [];
  codes = [];
  grants = [];
  ledger = record { receipts = []; stats = []; counters = [] };
  notices = [];
}

abbrev pub sample_node : InboxNode
sample_node = record { tables = sample_tables; seen_ids = []; frame_log = [] }

abbrev pub no_config : RelayConfig
no_config = record { label = none; region = none; priority = none }

-- The same group, whose founder may approve requests and can be reached.
abbrev pub approving_node : InboxNode
approving_node = record sample_node {
  tables = record sample_tables {
    roles =
        (("g", "founder"), role_with (perm_group_approve ∷ perm_role_assign ∷ []))
        ∷ (("g", "member"), role_with (perm_group_read ∷ perm_relay_use ∷ []))
        ∷ [];
    members =
        (("g", "ann"), record member_row { node_id = "node-a" })
        ∷ (("g", "bob"), record member_row { node_id = "node-b" })
        ∷ [];
  };
}

-- What the sender writes into the sealed part, here in plain words.
abbrev pub payload_of : String → Payload
payload_of words =
    if words == "delete"
    then chat_delete "g" "m1"
    else if words == "approve"
    then pending_decision "g" "r1"
        (record { status = "approved"; decided_at = "t2"; decided_by = "bob"; reason = "" })
    else if words == "grant"
    then roles_assign "g" "bob" ("founder" ∷ []) "t2"
    else if words == "redefine"
    then roles_def "g" "upsert" "member" (perm_role_assign ∷ []) "t2"
    else if words == "share"
    then relay_update "g" (record {
      action = "content_share";
      relay_url = "https://relay";
      operator_pubkey = "bob";
      share_by = "";
      config = no_config;
    })
    else chat_message "g" "m1" (record plain_content { body = "other" }) "t2" ""

-- Every envelope opens, as one that bob sent.
abbrev pub bobs_outside : Outside
bobs_outside = record {
  me = "zoe";
  open_symkey = λ sealed. some sealed;
  reseal = λ sealed. some sealed;
  open_frame = λ frame symkey admins. inr (record {
    channel = frame.channel;
    sender_pubkey = "bob";
    payload = payload_of frame.ciphertext_b64;
  });
  verify = λ receipt sig. true;
  fingerprint_for_bytes = λ bytes. bytes;
}

abbrev pub frame_saying : String → String → GroupFrame
frame_saying id words = record {
  frame_id = id;
  channel = "g";
  frame_type = "";
  sender_grant_b64 = "";
  nonce_b64 = "";
  ciphertext_b64 = words;
  signature_b64 = "";
}

abbrev pub bobs_frames : List (String × GroupFrame)
bobs_frames =
    ("t2", frame_saying "f1" "delete")
    ∷ ("t2", frame_saying "f2" "grant")
    ∷ ("t2", frame_saying "f3" "share")
    ∷ ("t2", frame_saying "f4" "approve")
    ∷ ("t2", frame_saying "f5" "redefine")
    ∷ ("t2", frame_saying "f6" "text")
    ∷ []

abbrev pub is_bob : String → Bool
is_bob pubkey = pubkey == "bob"
