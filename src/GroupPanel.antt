-- ===== src/GroupPanel.antt =====
-- src/ui/sbv-groups-panel.c: the panel of the groups, as a state that handlers of the main loop
-- change, with the objects that they share.
pub mod Members
pub mod Saving
pub mod Detail
pub mod Dangling
use sambervise.Base.{ℕ, ◌==◌, Bool, true, false, Option, none, some, List, [], ◌∷◌, if◌then◌else◌}
use sambervise.Base.Int.{ℤ}
use sambervise.Base.Bytes.{Bytes}
use sambervise.Groups.{Group}
use sambervise.Users.{User}
use sambervise.Idmap.{Hints}
use sambervise.Panel.{Page, loading}

-- `AddMemberCtx` with its window: the users that it lists, and the one that is selected.
pub record AddDialog : Type 0 where
  pub number : ℕ
  pub users : List User
  pub selected : Option User
  pub add_sensitive : Bool

-- `SbvGroupsPanel`. A connection, an `SbvGroup` and a `RemoveCtx` are named by numbers, as pointers
-- are; `groups` is what an `SbvGroup` holds, and `contexts` the `member_dn` of a `RemoveCtx`, `none`
-- where it has been freed. `remove_buttons` are the contexts of the rows of members. `warning` is
-- the gid of the dialog that warns of a built-in group, and `confirm` is the dialog for a deletion.
pub record GroupPanel : Type 0 where
  pub gid_text : Bytes
  pub outer : Page
  pub detail_shown : Bool
  pub gid_collision : Option Bytes
  pub gid_timer : Bool
  pub suggest_sensitive : Bool
  pub save_sensitive : Bool
  pub delete_sensitive : Bool
  pub rfc_error : Option Bytes
  pub member_error : Option Bytes
  pub delete_error : Option Bytes
  pub idmap_hints : Option Hints
  pub conn : Option ℕ
  pub selected_group : Option ℕ
  pub pending_select_sam : Option Bytes
  pub rows : List ℕ
  pub groups : ℕ → Group
  pub unused : ℕ
  pub remove_buttons : List ℕ
  pub contexts : ℕ → Option Bytes
  pub unused_context : ℕ
  pub add_dialog : Option AddDialog
  pub unused_dialog : ℕ
  pub warning : Option ℤ
  pub confirm : Option (Bytes × Bool)

-- The asynchronous calls, with the connection first, and what the callback is given with the reply.
pub data GroupRequest : Type 0 where
  list_groups_request : ℕ → GroupRequest
  list_users_request : ℕ → ℕ → GroupRequest
  add_member_request : ℕ → ℕ → Bytes → ℕ → GroupRequest
  remove_member_request : ℕ → ℕ → Bytes → ℕ → GroupRequest
  set_unix_attrs_request : ℕ → Option ℕ → ℤ → GroupRequest
  delete_request : ℕ → ℕ → GroupRequest
  gid_check_request : ℕ → ℤ → Option Bytes → GroupRequest
  next_free_gid_request : ℕ → ℤ → ℤ → GroupRequest
  hints_request : ℕ → GroupRequest

-- The state after a handler, and the calls that it starts.
abbrev pub Handled : Type 0
Handled = GroupPanel × List GroupRequest

abbrev same_conn : Option ℕ → ℕ → Bool
same_conn none c = false
same_conn (some d) c = d == c

-- `sbv_groups_panel_load`.
unfoldable pub load_groups : ℕ → GroupPanel → Handled
load_groups c p = (
  record p {
    idmap_hints = if same_conn p.conn c then p.idmap_hints else none;
    conn = some c;
    outer = loading;
  },
  list_groups_request c ∷ [],
)
