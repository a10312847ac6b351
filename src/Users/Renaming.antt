-- ===== src/Users/Renaming.antt =====
-- Renaming a user: where the modification that follows the rename goes.
use sambervise.Base.{refl, ap, ◌+◌, ℕ, ◌≡◌, ◌≢◌, true, false, some, List, ◌∷◌, ◌++◌, arith}
use sambervise.Base.Bytes.{Bytes, codes, Lacks, after_char-append}
use sambervise.Base.Lists.{length, length-append}
use sambervise.Ldap.{Call, Handle, Mod, Library, succeeded, failed, ldap}
use sambervise.Connection.{World, err}
use sambervise.Connection.Valid.{IsReady}
use sambervise.Users.{User}
use sambervise.Users.Edit.{Names, names_mods, update_attrs, rename_user}

-- The DN of a name `cn` under `parent`.
abbrev pub named : Bytes → Bytes → Bytes
named cn parent = codes "CN=" ++ (cn ++ (codes "," ++ parent))

length-named : (cn parent : Bytes) → length (named cn parent) ≡ 4 + length cn + length parent
length-named cn parent = omega (arith, length-append {0} cn (b',' ∷ parent))

-- A parent that is longer makes another DN.
named-ne : (cn end parent : Bytes) → named cn (end ++ (b',' ∷ parent)) ≢ named cn parent
named-ne cn end parent e =
    let same = ap length e in
    absurd (
      omega (
        arith,
        length-named cn (end ++ (b',' ∷ parent)),
        length-named cn parent,
        length-append {0} end (b',' ∷ parent),
        same,
      ))

module _ (lib : Library) (w : World) (h : Handle) (u : User) (n : Names) (ready : IsReady h w) where
  -- On a connection that is up, take a user whose DN is `rdn`, a comma and `parent`, with no comma in `rdn`, a new name that is
  -- not empty, and something else to change. If the rename succeeds, the one call after it modifies
  -- the entry of the new name under the same parent.
  pub update_attrs_renamed :
      (rdn parent : Bytes) {c : ℕ} {cn : Bytes} {m : Mod} {ms : List Mod}
      → u.dn ≡ some (rdn ++ (b',' ∷ parent))
      → Lacks b',' rdn
      → n.cn ≡ some (c ∷ cn)
      → names_mods n ≡ m ∷ ms
      → succeeded (lib.reply w.calls (Call.rename h u.dn (codes "CN=" ++ (c ∷ cn)))) ≡ true
      → (update_attrs u n lib w).1.calls
        ≡ Call.modify h (some (named (c ∷ cn) parent)) (m ∷ ms)
          ∷ Call.rename h u.dn (codes "CN=" ++ (c ∷ cn))
          ∷ w.calls
  unfolding update_attrs rename_user
  update_attrs_renamed rdn parent dn lacks name mods done =
      ground (arith, after_char-append b',' rdn parent lacks)

  -- On a connection that is up, for a user that has a DN and a new name that is not empty: if the
  -- rename fails, it is the only call, and the task gets the error of the rename.
  update_attrs_not_renamed :
      {dn : Bytes} {c : ℕ} {cn : Bytes}
      → u.dn ≡ some dn
      → n.cn ≡ some (c ∷ cn)
      → let rename = Call.rename h u.dn (codes "CN=" ++ (c ∷ cn)) in
        succeeded (lib.reply w.calls rename) ≡ false
        → ((update_attrs u n lib w).0
            ≡ err (failed ldap "Rename failed: " (lib.reply w.calls rename).rc))
          × ((update_attrs u n lib w).1.calls ≡ rename ∷ w.calls)
  unfolding update_attrs rename_user
  update_attrs_not_renamed dn name denied = ground arith

  -- On a connection that is up, with a new name that is not empty: if the RDN of the user's DN has a
  -- comma, as an escaped one in "CN=Smith\, John", the rename succeeds and something else is to
  -- change, then the modification goes to a DN that is not the
  -- one of the new name under the user's parent, but one that keeps the end of the old RDN.
  pub update_attrs_comma :
      (start end parent : Bytes) {c : ℕ} {cn : Bytes} {m : Mod} {ms : List Mod}
      → u.dn ≡ some (start ++ (b',' ∷ (end ++ (b',' ∷ parent))))
      → Lacks b',' start
      → n.cn ≡ some (c ∷ cn)
      → names_mods n ≡ m ∷ ms
      → let rename = Call.rename h u.dn (codes "CN=" ++ (c ∷ cn)) in
        succeeded (lib.reply w.calls rename) ≡ true
        → (used : Bytes) × ((update_attrs u n lib w).1.calls
            ≡ Call.modify h (some used) (m ∷ ms) ∷ rename ∷ w.calls)
          × (used ≡ named (c ∷ cn) (end ++ (b',' ∷ parent)))
          × (used ≢ named (c ∷ cn) parent)
  update_attrs_comma start end parent {c} {cn} dn lacks name mods done = (
    named (c ∷ cn) (end ++ (b',' ∷ parent)),
    update_attrs_renamed start (end ++ (b',' ∷ parent)) dn lacks name mods done,
    refl,
    named-ne (c ∷ cn) end parent,
  )
