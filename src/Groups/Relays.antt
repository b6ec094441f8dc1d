-- ===== src/Groups/Relays.antt =====
-- The frames about the group's relays and its settings: `relay.update`, `relay.code` and
-- `group.meta`.
use Prim.Native.String.{len}
use nexus_grid_grid.Prelude.Dicts
use nexus_grid_grid.Prelude.Text.{strip, take_text, starts_with, has_part, drop_cr, cr_to_lf}
use nexus_grid_grid.Prelude.{
  ℕ, Bool, true, false, not, ◌&&◌, ◌||◌, Option, none, some, String, leb, if◌then◌else◌, ◌==◌,
  text_key, pair_key,
}
use nexus_grid_grid.Prelude.Int.{pos}
use nexus_grid_grid.Groups.{
  or_text, GroupRelayBinding, GroupRelayCode, Tables, tell, has_permission, perm_relay_host,
  perm_relay_share_content,
}
use nexus_grid_grid.Groups.Frames.{RelayConfig, RelayChange}

unfoldable pub set_binding : String → String → GroupRelayBinding → Tables → Tables × Bool
unfolding tell
set_binding group_id relay_url row t = (
  tell "group.relays" group_id
      (record t { bindings = Dicts.insert (group_id, relay_url) row t.bindings }),
  true,
)

unfoldable pub added_binding : String → String → GroupRelayBinding
added_binding now operator = record {
  operator_pubkey = operator;
  registered_at = now;
  status = "active";
  content_share = false;
  content_share_by = "";
  content_share_at = "";
  label = "";
  region = "";
  priority = pos 0;
}

abbrev pub given {ℓ} : {A : Type ℓ} → Option A → A → A
given none old = old
given (some new) old = new

unfoldable pub configured : RelayConfig → GroupRelayBinding → GroupRelayBinding
configured c row = record row {
  label = given c.label row.label;
  region = given c.region row.region;
  priority = given c.priority row.priority;
}

-- The row after an action on a binding that is there.
unfoldable pub changed_binding :
    String → String → RelayChange → GroupRelayBinding → GroupRelayBinding
unfolding configured
changed_binding now sender c row =
    if c.action == "content_share"
    then record row {
      content_share = true;
      content_share_by = or_text c.share_by sender;
      content_share_at = now;
    }
    else if c.action == "content_revoke"
    then record row { content_share = false; content_share_by = ""; content_share_at = "" }
    else if c.action == "add"
    then record row { status = "active" }
    else if c.action == "config"
    then configured c.config row
    else record row { status = "retired" }

unfoldable pub is_relay_action : String → Bool
is_relay_action action =
    action == "add"
    || (action == "remove"
        || (action == "config" || (action == "content_share" || action == "content_revoke")))

unfoldable pub change_relay :
    String → String → String → String → RelayChange → Tables → Tables × Bool
unfolding set_binding added_binding changed_binding
change_relay now sender group_id relay_url c t = elim (Dicts.get (group_id, relay_url) t.bindings) [
  | some row ↦ set_binding group_id relay_url (changed_binding now sender c row) t
  | none ↦
      if c.action == "add"
      then set_binding group_id relay_url (added_binding now (or_text c.operator_pubkey sender)) t
      else (t, false)
]

unfoldable pub apply_relay_update :
    String → String → String → String → RelayChange → Tables → Tables × Bool
unfolding change_relay is_relay_action strip
apply_relay_update now channel sender group_id c t =
    let relay_url = strip c.relay_url in
    if not (group_id == channel) || (not (is_relay_action c.action) || relay_url == "")
    then (t, false)
    else change_relay now sender group_id relay_url c t

-- Who may read content is not for the operator of a relay to say.
unfoldable pub relay_update_sender_authorized : String → String → String → Tables → Bool
unfolding has_permission
relay_update_sender_authorized channel sender action t =
    if action == "content_share" || action == "content_revoke"
    then has_permission t channel sender perm_relay_share_content
    else has_permission t channel sender perm_relay_host

abbrev pub avatar_max_chars : ℕ
avatar_max_chars = 65536

unfoldable pub avatar_valid : String → Bool
avatar_valid avatar =
    avatar == ""
    || (leb (len avatar) avatar_max_chars
        && (starts_with "data:image/" avatar && has_part ";base64," (take_text 64 avatar)))

unfoldable pub set_avatar : String → String → Tables → Tables × Bool
set_avatar group_id avatar t = elim (Dicts.get group_id t.groups) [
  | none ↦ (t, false)
  | some g ↦
      (record t { groups = Dicts.insert group_id (record g { avatar = avatar }) t.groups }, true)
]

unfoldable pub apply_group_meta : String → String → Option String → Tables → Tables × Bool
unfolding set_avatar avatar_valid
apply_group_meta channel group_id none t = (t, false)
apply_group_meta channel group_id (some avatar) t =
    if not (group_id == channel) || not (avatar_valid avatar)
    then (t, false)
    else set_avatar group_id avatar t

-- The line ends as they are written to the disk.
unfoldable pub normalized : String → String
normalized source = cr_to_lf (drop_cr source)

unfoldable pub put_code : String → GroupRelayCode → Tables → Tables × Bool
unfolding tell
put_code group_id row t =
    (tell "group.relays" group_id (record t { codes = Dicts.insert group_id row t.codes }), true)

unfoldable pub new_code : String → String → String → String → String → GroupRelayCode
new_code now sender source fp published_at = record {
  source = source;
  fingerprint = fp;
  published_by = sender;
  published_at = or_text published_at now;
}

-- `fingerprint_for_bytes` is a parameter.
unfoldable pub apply_relay_code :
    (String → String) → String → String → String → String → String → String → Tables → Tables × Bool
unfolding put_code new_code normalized strip
apply_relay_code fingerprint_for_bytes now channel sender group_id source published_at t =
    let kept = normalized source in
    let fp = fingerprint_for_bytes kept in
    if not (group_id == channel) || strip source == ""
    then (t, false)
    else elim (Dicts.get group_id t.groups) [
      | none ↦ (t, false)
      | some g ↦
          if strip g.relay_code_fingerprint == "" || not (fp == strip g.relay_code_fingerprint)
          then (t, false)
          else put_code group_id (new_code now sender kept fp published_at) t
    ]
