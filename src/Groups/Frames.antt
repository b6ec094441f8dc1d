-- ===== src/Groups/Frames.antt =====
-- The payloads of frames of runtime/group_inbox.py, one constructor for each frame type. Their fields
-- are read as text and numbers; a key that may be missing is an option.
use nexus_grid_grid.Prelude.{Bool, List, Option, String}
use nexus_grid_grid.Prelude.Int.{ℤ}
use nexus_grid_grid.Usage.{Receipt}
use nexus_grid_grid.Groups.{JoinDetails, Content}
use nexus_grid_grid.Groups.Requests.{Verdict}

pub record NewMember : Type 0 where
  pub pubkey : String
  pub joined_at : String
  pub display_name : String
  pub peer_address : String
  pub node_id : String

-- The changes of a relay's settings, each present or not.
pub record RelayConfig : Type 0 where
  pub label : Option String
  pub region : Option String
  pub priority : Option ℤ

pub record RelayChange : Type 0 where
  pub action : String
  pub relay_url : String
  pub operator_pubkey : String
  pub share_by : String
  pub config : RelayConfig

pub data Payload : Type 0 where
  pending_request :
      (group_id request_id : String) (details : JoinDetails) (created_at : String) → Payload
  pending_decision : (group_id request_id : String) (verdict : Verdict) → Payload
  roster_update : (group_id action : String) (member : NewMember) → Payload
  symkey_rotate : (group_id kicked_pubkey : String) (my_envelope : Option String) → Payload
  relay_update : (group_id : String) (change : RelayChange) → Payload
  roles_assign :
      (group_id member_pubkey : String) (roles : List String) (assigned_at : String) → Payload
  roles_def :
      (group_id op role_name : String) (permissions : List String) (updated_at : String) → Payload
  chat_message :
      (group_id msg_id : String) (content : Content) (sent_at reply_to_pubkey : String) → Payload
  chat_mute : (group_id member_pubkey : String) (muted : Bool) → Payload
  chat_delete : (group_id msg_id : String) → Payload
  presence_beacon : (ts : String) → Payload
  usage_receipt : (receipt : Receipt) (sig : String) → Payload
  group_meta : (group_id : String) (avatar : Option String) → Payload
  relay_code : (group_id source published_at : String) → Payload
  unknown : (frame_type : String) → Payload

-- A frame whose signature, grant and seal were checked.
pub record OpenedFrame : Type 0 where
  pub channel : String
  pub sender_pubkey : String
  pub payload : Payload
