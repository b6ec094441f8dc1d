-- ===== src/Groups.antt =====
-- The tables of a group that frames change (nexus/storage/models.py), and the permissions that its
-- roles give (security/group_permissions.py). A JSON column of permissions is the list that it is
-- read as, empty where it is malformed; time stamps are the texts that the clock gives.
use Prim.Native.Nat.{Ordering}
use Prim.Native.String.{compare}
use nexus_grid_grid.Prelude.Dicts
use nexus_grid_grid.Prelude.{
  Bool, true, false, not, ◌&&◌, ◌||◌, List, [], ◌∷◌, ◌++◌, Option, none, some, String, Dict, select,
  any, contains, if◌then◌else◌, ◌==◌, text_key, pair_key,
}
use nexus_grid_grid.Prelude.Int.{ℤ}
use nexus_grid_grid.Usage.{Ledger}
pub mod Frames
pub mod Roster
pub mod Roles
pub mod Chat
pub mod Requests
pub mod Relays
pub mod Handlers
pub mod Inbox
pub mod Fanout
pub mod Powers
pub mod Untouched
pub mod Escalation
pub mod Steps
pub mod Outsiders
pub mod Dedupe
pub mod Replay
pub mod Authors
pub mod Messages
pub mod Fates
pub mod Builtin
pub mod Sharing
pub mod Holders
pub mod Hosts
pub mod Passed
pub mod Delivery
pub mod Attempts
pub mod Round
pub mod Rounds
pub mod Delivered
pub mod Samples
pub mod Tests

-- `str(text or default)`
abbrev pub or_text : String → String → String
or_text text default = if text == "" then default else text

abbrev pub perm_group_read : String
perm_group_read = "group:read"

abbrev pub perm_group_approve : String
perm_group_approve = "group:approve"

abbrev pub perm_member_kick : String
perm_member_kick = "member:kick"

abbrev pub perm_member_mute : String
perm_member_mute = "member:mute"

abbrev pub perm_role_assign : String
perm_role_assign = "role:assign"

abbrev pub perm_relay_host : String
perm_relay_host = "relay:host"

abbrev pub perm_relay_use : String
perm_relay_use = "relay:use"

abbrev pub perm_relay_share_content : String
perm_relay_share_content = "relay:share_content"

abbrev pub perm_task_run : String
perm_task_run = "task:run"

-- `_ALL_NONPARAMETRIC`
unfoldable pub all_nonparametric : List String
all_nonparametric =
    perm_group_read ∷ "group:invite" ∷ perm_group_approve ∷ perm_member_kick ∷ perm_member_mute
    ∷ perm_role_assign ∷ "service:list" ∷ "service:host" ∷ perm_relay_host ∷ perm_relay_use
    ∷ perm_relay_share_content ∷ perm_task_run ∷ []

-- DEFAULT_ROLES
unfoldable pub default_roles : Dict String (List String)
unfolding all_nonparametric
default_roles =
    ("founder", all_nonparametric)
    ∷ ("admin", all_nonparametric)
    ∷ ("member", perm_group_read ∷ perm_relay_use ∷ perm_task_run ∷ [])
    ∷ []

pub record Group : Type 0 where
  pub founder_pubkey : String
  pub paused : Bool
  pub avatar : String
  pub relay_code_fingerprint : String
  pub group_symkey : Option String

pub record GroupMember : Type 0 where
  pub joined_at : String
  pub display_name : String
  pub peer_address : String
  pub node_id : String
  pub muted : Bool
  pub last_seen_at : String

pub record GroupRole : Type 0 where
  pub permissions : List String
  pub created_at : String
  pub updated_at : String

pub record GroupMemberRole : Type 0 where
  pub assigned_by_pubkey : String
  pub assigned_at : String

-- What a request and a message carry beside the columns that the handlers test.
pub record JoinDetails : Type 0 where
  pub joiner_pubkey : String
  pub joiner_address : String
  pub joiner_x25519_pub : String
  pub joiner_node_id : String
  pub invite_token : String
  pub message : String
  pub display_name : String

pub record GroupPendingJoinRequest : Type 0 where
  pub group_id : String
  pub details : JoinDetails
  pub status : String
  pub created_at : String
  pub decided_at : String
  pub decided_by_pubkey : String
  pub decision_reason : String
  pub delivered_at : String

pub record Content : Type 0 where
  pub sender_name : String
  pub body : String
  pub reply_to : String
  pub reply_snippet : String
  pub reply_sender : String
  pub attach_kind : String
  pub attach_name : String
  pub attach_mime : String
  pub attach_size : ℤ
  pub attach_data : String

pub record GroupMessage : Type 0 where
  pub sender_pubkey : String
  pub content : Content
  pub sent_at : String
  pub received_at : String
  pub deleted : Bool

pub record GroupRelayBinding : Type 0 where
  pub operator_pubkey : String
  pub registered_at : String
  pub status : String
  pub content_share : Bool
  pub content_share_by : String
  pub content_share_at : String
  pub label : String
  pub region : String
  pub priority : ℤ

pub record GroupRelayCode : Type 0 where
  pub source : String
  pub fingerprint : String
  pub published_by : String
  pub published_at : String

-- What the user interface is told, and the pulls of attachments that are started.
pub data GroupNotice : Type 0 where
  notice : (kind group_id : String) → GroupNotice
  replied : (group_id : String) (to_me : Bool) (sender : String) → GroupNotice
  pull_attachment : (group_id msg_id sender : String) → GroupNotice

abbrev pub Assignments : Type 0
Assignments = Dict ((String × String) × String) GroupMemberRole

abbrev pub Roles : Type 0
Roles = Dict (String × String) GroupRole

-- The tables, each by its primary key.
pub record Tables : Type 0 where
  pub groups : Dict String Group
  pub members : Dict (String × String) GroupMember
  pub roles : Roles
  pub assignments : Assignments
  pub requests : Dict String GroupPendingJoinRequest
  pub messages : Dict (String × String) GroupMessage
  pub bindings : Dict (String × String) GroupRelayBinding
  pub codes : Dict String GroupRelayCode
  pub grants : Dict (String × String) String
  pub ledger : Ledger
  pub notices : List GroupNotice

unfoldable pub tell : String → String → Tables → Tables
tell kind group_id t = record t { notices = t.notices ++ notice kind group_id ∷ [] }

-- The names of the roles that a member holds.
unfoldable pub role_names : String → String → Assignments → List String
role_names group_id pubkey [] = []
role_names group_id pubkey ((((g, member), role), row) ∷ rows) =
    let rest = role_names group_id pubkey rows in
    if (g == group_id) && (member == pubkey) then role ∷ rest else rest

-- The permissions of the roles of a group that are among the names.
unfoldable pub permissions_of : String → List String → Roles → List String
permissions_of group_id names [] = []
permissions_of group_id names (((g, name), role) ∷ roles) =
    let rest = permissions_of group_id names roles in
    if (g == group_id) && contains names name then role.permissions ++ rest else rest

unfoldable pub effective_permissions : Tables → String → String → List String
unfolding role_names permissions_of
effective_permissions t group_id pubkey =
    permissions_of group_id (role_names group_id pubkey t.assignments) t.roles

unfoldable pub has_permission : Tables → String → String → String → Bool
unfolding effective_permissions
has_permission t group_id pubkey permission =
    contains (effective_permissions t group_id pubkey) permission

-- `s < t` on texts.
unfoldable pub text_less : String → String → Bool
text_less s t = elim (compare s t) [ Ordering.lt ↦ true | _ ↦ false ]

-- Into a sorted list without repeats.
unfoldable pub put_sorted : String → List String → List String
unfolding text_less
put_sorted name [] = name ∷ []
put_sorted name (other ∷ names) =
    let rest = put_sorted name names in
    if name == other
    then other ∷ names
    else if text_less name other
    then name ∷ other ∷ names
    else other ∷ rest

-- The members that hold the role of a founder or an admin, sorted.
unfoldable pub admin_pubkeys : String → Assignments → List String
unfolding put_sorted
admin_pubkeys group_id [] = []
admin_pubkeys group_id ((((g, member), role), row) ∷ rows) =
    let rest = admin_pubkeys group_id rows in
    if (g == group_id) && (role == "founder" || role == "admin")
    then put_sorted member rest
    else rest
