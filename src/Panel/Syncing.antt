-- ===== src/Panel/Syncing.antt =====
-- src/ui/sbv-users-panel.c: how `on_save_clicked` keeps the full name and its parts together.
use sambervise.Base.{Bool, ◌&&◌, ◌||◌, ◌++◌, ◌∷◌, if◌then◌else◌}
use sambervise.Base.Bytes.{Bytes, or_empty, after_char, before_char}
use sambervise.Editor.{is_nonempty}
use sambervise.Panel.{Form}

-- "%s %s".
abbrev pub full_name : Bytes → Bytes → Bytes
full_name given sn = given ++ (b' ' ∷ sn)

-- What is saved, which is what the entries hold afterwards; the first box goes before the second.
unfoldable pub sync_names : Bool → Bool → Form → Form
sync_names full_from_parts parts_from_full f =
    if full_from_parts && (is_nonempty f.given_name || is_nonempty f.sn)
    then record f { cn = full_name f.given_name f.sn; display_name = full_name f.given_name f.sn }
    else if parts_from_full && is_nonempty f.cn
    then record f { given_name = before_char b' ' f.cn; sn = or_empty (after_char b' ' f.cn) }
    else f
