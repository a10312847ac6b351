-- ===== src/ComputerPanel/Races.antt =====
-- src/ui/sbv-computers-panel.c: replies that come after another computer was selected.
use sambervise.Base.{ℕ, true, false, some, [], ◌∷◌, ◌≡◌, refl, arith}
use sambervise.Base.Bytes.{Bytes}
use sambervise.SpnEditor.{
  SpnEditor, load_spns, is_uninitialized, save_clicked, save_failed, spns_of,
}
use sambervise.ComputerPanel.{
  ComputerPanel, set_spn_request, computer_selected, load_computer_into_detail,
}
use sambervise.ComputerPanel.Saving.{spn_save_clicked, spn_save_done, spn_edited}

-- If the names of the computer `r` are saved, a computer `s` that has not joined is selected before
-- the reply, and the reply is an error, then the editor of `s` shows that error, and its button is
-- sensitive, although the names of `s` cannot be edited and none was changed.
pub spn_save_done_elsewhere :
    (p : ComputerPanel) (e : SpnEditor) (c r s : ℕ) (message : Bytes)
    → p.conn ≡ some c
    → p.selected_computer ≡ some r
    → p.editor ≡ some e
    → is_uninitialized e.selected ≡ false
    → is_uninitialized (p.computers s) ≡ true
    → let (p₁, qs₁) = spn_save_clicked p in
      let (p₂, qs₂) = spn_save_done c (some message) (computer_selected (some s) p₁) in
      (qs₁ ≡ set_spn_request c r e.working_spns ∷ [])
      × (qs₂ ≡ [])
      × (e' : SpnEditor) × (p₂.editor ≡ some e')
      × (e'.selected ≡ p.computers s)
      × (e'.error ≡ some message)
      × (e'.save_sensitive ≡ true)
      × (e'.editable ≡ false)
      × (e'.working_spns ≡ spns_of (p.computers s))
unfolding spn_save_clicked spn_save_done computer_selected load_computer_into_detail load_spns
    save_clicked save_failed spn_edited
spn_save_done_elsewhere p e c r s message conn selected edited joined waiting = (
  ground arith,
  refl,
  save_failed message (load_spns (p.computers s)),
  ground arith,
  ground arith,
  refl,
  refl,
  ground arith,
  ground arith,
)
