-- ===== src/Profiles/Keys.antt =====
-- Reading back the settings of one group of a key file.
use sambervise.Base.{
  ◌≡◌, refl, ◌∙◌, true, false, Option, none, some, List, [], ◌∷◌, arith, if◌then◌else◌, inl, inr,
  Option-cases,
}
use sambervise.Base.Bytes.{Bytes, bytes_eq, bytes_eq_iff}
use sambervise.Profiles.{set_all}
use sambervise.Profiles.Ini.{KeyFile, KeyFileLaws, Value, text, integer, boolean, int64, Setting}

-- The value that the last setting of a key puts.
abbrev pub last_of : Bytes → List Setting → Option Value
last_of key [] = none
last_of key ((key', v) ∷ rest) =
    let later = last_of key rest in
    elim later [ none ↦ if bytes_eq key key' then some v else none | some v' ↦ some v' ]

-- Every setting is one that GLib takes.
abbrev pub AllFit : {K : Type 0} → KeyFile K → Bytes → List Setting → Type 0
AllFit kf g [] = Unit
AllFit kf g ((key, v) ∷ rest) = (kf.fits g v ≡ true) × AllFit kf g rest

-- What the four getters give for one key of one group, side by side.
abbrev pub Reads : {K : Type 0} → KeyFile K → Bytes → Bytes → K → K → Type 0
Reads kf g key k k' =
    (kf.get_string g key k ≡ kf.get_string g key k')
    × (kf.get_integer g key k ≡ kf.get_integer g key k')
    × (kf.get_boolean g key k ≡ kf.get_boolean g key k')
    × (kf.get_int64 g key k ≡ kf.get_int64 g key k')

-- The getter of a value's own kind gives that value.
abbrev pub Gives : {K : Type 0} → KeyFile K → Bytes → Bytes → K → Value → Type 0
Gives kf g key k (text s) = kf.get_string g key k ≡ some s
Gives kf g key k (integer z) = kf.get_integer g key k ≡ some z
Gives kf g key k (boolean b) = kf.get_boolean g key k ≡ b
Gives kf g key k (int64 z) = kf.get_int64 g key k ≡ some z

module _ {K : Type 0} (kf : KeyFile K) (laws : KeyFileLaws kf) where
  Gives-set :
      (g key : Bytes) (v : Value) (k : K) → kf.fits g v ≡ true → Gives kf g key (kf.set g key v k) v
  Gives-set g key (text s) k fit = laws.string_set g key s k fit
  Gives-set g key (integer z) k fit = laws.integer_set g key z k fit
  Gives-set g key (boolean b) k fit = laws.boolean_set g key b k fit
  Gives-set g key (int64 z) k fit = laws.int64_set g key z k fit

  Gives-Reads :
      (g key : Bytes) (v : Value) (k k' : K)
      → Reads kf g key k k'
      → Gives kf g key k' v
      → Gives kf g key k v
  Gives-Reads g key (text s) k k' r e = r.0 ∙ e
  Gives-Reads g key (integer z) k k' r e = r.1 ∙ e
  Gives-Reads g key (boolean b) k k' r e = r.2 ∙ e
  Gives-Reads g key (int64 z) k k' r e = r.3 ∙ e

  Reads-trans :
      {g key : Bytes} {k k' k'' : K}
      → Reads kf g key k k'
      → Reads kf g key k' k''
      → Reads kf g key k k''
  Reads-trans r s = (r.0 ∙ s.0, r.1 ∙ s.1, r.2 ∙ s.2, r.3 ∙ s.3)

  -- Settings of another group are not seen.
  pub set_all-other :
      (g g' key : Bytes) (ss : List Setting) (k : K)
      → bytes_eq g g' ≡ false
      → Reads kf g key (set_all kf g' ss k) k
  unfolding set_all
  set_all-other g g' key [] k e = (refl, refl, refl, refl)
  set_all-other g g' key ((key', v) ∷ rest) k e =
      Reads-trans (set_all-other g g' key rest (kf.set g' key' v k) e)
        (laws.others g key g' key' v k (ground arith))

  -- A key that is not set keeps its value.
  pub set_all-unset :
      (g key : Bytes) (ss : List Setting) (k : K)
      → last_of key ss ≡ none
      → Reads kf g key (set_all kf g ss k) k
  unfolding set_all
  set_all-unset g key [] k e = (refl, refl, refl, refl)
  set_all-unset g key ((key', v) ∷ rest) k e =
      Reads-trans (set_all-unset g key rest (kf.set g key' v k) (ground arith))
        (laws.others g key g key' v k (ground arith))

  -- A key that is set is read back as its last setting puts it.
  pub set_all-Gives :
      (g key : Bytes) (ss : List Setting) (k : K) (v : Value)
      → AllFit kf g ss
      → last_of key ss ≡ some v
      → Gives kf g key (set_all kf g ss k) v
  unfolding set_all
  set_all-Gives g key [] k v fit e = absurd (ground arith)
  set_all-Gives g key ((key', u) ∷ rest) k v (fit, fits) e =
      elim (Option-cases (last_of key rest)) [
        | inr (v', later) ↦ set_all-Gives g key rest (kf.set g key' u k) v fits (ground arith)
        | inl last ↦
            Gives-Reads g key v _ _ (set_all-unset g key rest (kf.set g key' u k) last)
              (here (ground arith) (ground arith))
      ]
    where
      here : bytes_eq key key' ≡ true → u ≡ v → Gives kf g key (kf.set g key' u k) v
      here same e' = rw (← (bytes_eq_iff key key').0 same, ← e') (Gives-set g key u k fit)
