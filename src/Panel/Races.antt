-- ===== src/Panel/Races.antt =====
-- src/ui/sbv-users-panel.c: replies that come when another user is selected, or another connection
-- is made.
use sambervise.Base.{
  ℕ, Bool, true, not, none, some, [], ◌∷◌, ◌≡◌, arith, if◌then◌else◌, ap, ◌∙◌, Option, false,
}
use sambervise.Base.Bytes.{Bytes, codes}
use sambervise.Ldap.{Call, Handle, Library, succeeded, failed, ldap}
use sambervise.Connection.{World, err}
use sambervise.Connection.Valid.{IsReady}
use sambervise.Backend.{read_entry}
use sambervise.Users.Account.{set_enabled}
use sambervise.Users.Enabling.{uac_read, set_enabled_unread}
use sambervise.Idmap.{Hints}
use sambervise.Panel.{
  Panel, Form, save_btn, load, update_attrs_request, set_enabled_request, hints_request,
  list_request,
}
use sambervise.Panel.Syncing.{sync_names}
use sambervise.Panel.Expiry.{Dates}
use sambervise.Panel.Detail.{row_selected, load_user_into_detail}
use sambervise.Panel.Saving.{save_clicked, update_attrs_done, names_of, update_model, renamed}
use sambervise.Panel.Ids.{do_suggest, hints_done, scan_request}

sync_names-enabled : (a b : Bool) (f : Form) → (sync_names a b f).enabled ≡ f.enabled
unfolding sync_names
sync_names-enabled a b f = ground arith

-- If the user `r` is saved with the box "enabled" changed, and the row of the user `s` is selected
-- before the reply that the names were saved, then it is `s` that is enabled or disabled, as the
-- box said for `r`.
pub save_enables_selected :
    (d : Dates) (p : Panel) (c r s : ℕ)
    → p.conn ≡ some c
    → p.selected_user ≡ some r
    → p.form.enabled ≡ not (p.users r).enabled
    → let (p', qs) = save_clicked p in
      let f = sync_names p.sync_full_from_parts p.sync_parts_from_full p.form in
      (qs ≡ update_attrs_request c r (names_of f) true p.form.enabled ∷ [])
      × ((update_attrs_done c true p.form.enabled none (row_selected d (some s) p')).1
          ≡ set_enabled_request c (some s) p.form.enabled ∷ [])
unfolding save_clicked update_attrs_done row_selected load_user_into_detail
save_enables_selected d p c r s conn selected changed =
    ground (arith, sync_names-enabled p.sync_full_from_parts p.sync_parts_from_full p.form)

abbrev read_of : Handle → Option Bytes → Call
read_of h dn = Call.search h (read_entry dn (codes "userAccountControl" ∷ []) 10)

-- If the selection stays until the reply that the names of the user were saved, then the user has the
-- names that the entries hold and its old DN, also after a rename; where the box was changed, the
-- user is enabled or disabled next, and otherwise the button is sensitive again and the list is
-- loaded anew.
update_attrs_done_lem :
    (p : Panel) (c r : ℕ) (need enabled : Bool)
    → p.selected_user ≡ some r
    → let (p', qs) = update_attrs_done c need enabled none p in
      (p'.users r ≡ renamed p.form (p.users r))
      × ((p'.users r).dn ≡ (p.users r).dn)
      × (qs ≡ (if need then set_enabled_request c (some r) enabled ∷ [] else list_request c ∷ []))
      × ((p'.buttons save_btn).sensitive ≡ (if need then (p.buttons save_btn).sensitive else true))
unfolding update_attrs_done update_model load renamed
update_attrs_done_lem p c r need enabled selected = ground arith

-- If the selection stays, the reply that the names of the user were saved is followed, where the box
-- was changed, by a request to enable or disable the user, who has the new name by then. That
-- request reads the entry of the DN from before the save: on a connection that is up, where that
-- read fails, as it does after a rename, it is the only call, and the request ends with its error.
pub set_enabled_at_old_dn :
    (lib : Library) (w : World) (h : Handle) (p : Panel) (c r : ℕ) (enabled : Bool)
    → IsReady h w
    → p.selected_user ≡ some r
    → succeeded (lib.reply w.calls (uac_read h (p.users r))) ≡ false
    → let read = uac_read h (p.users r) in
      let (p', qs) = update_attrs_done c true enabled none p in
      (qs ≡ set_enabled_request c (some r) enabled ∷ [])
      × ((p'.users r).cn ≡ some p.form.cn)
      × ((set_enabled (p'.users r) enabled lib w).0
          ≡ err (failed ldap "Read failed: " (lib.reply w.calls read).rc))
      × ((set_enabled (p'.users r) enabled lib w).1.calls ≡ read ∷ w.calls)
unfolding renamed
set_enabled_at_old_dn lib w h p c r enabled ready selected missing =
    let (saved, dn, qs, _) = update_attrs_done_lem p c r true enabled selected in
    let u = (update_attrs_done c true enabled none p).0.users r in
    let e : uac_read h u ≡ uac_read h (p.users r) = ap (read_of h) dn in
    let (result, calls) =
      set_enabled_unread lib w h u enabled ready
        (ap (λ x. succeeded (lib.reply w.calls x)) e ∙ missing) in
    (
      qs,
      ap (λ x. x.cn) saved,
      result ∙ ap (λ x. err (failed ldap "Read failed: " (lib.reply w.calls x).rc)) e,
      calls ∙ ap (λ x. x ∷ w.calls) e,
    )

-- If the hints are asked for on one connection and another is made before the reply, then the reply
-- is kept as the hints of the new connection, and the ids that it gives are looked for there.
hints_done_stale :
    (p : Panel) (is_uid : Bool) (c c' : ℕ) (h : Hints)
    → p.conn ≡ some c
    → p.idmap_hints ≡ none
    → let (p', qs) = do_suggest is_uid p in
      let (p'', qs') = hints_done is_uid h (load c' p').0 in
      (qs ≡ hints_request is_uid c ∷ [])
      × (p''.conn ≡ some c')
      × (p''.idmap_hints ≡ some h)
      × (qs' ≡ scan_request is_uid c' h ∷ [])
unfolding do_suggest hints_done load
hints_done_stale p is_uid c c' h conn hints = ground arith
