-- ===== src/Browse/Keeps.antt =====
-- Every operation of the browser ends, and leaves the shared connection as it should be.
use sambervise.Base.{Option, List, arith}
use sambervise.Base.Bytes.{Bytes}
use sambervise.Connection.Valid.{Keeps}
use sambervise.Browse.{
  Collation, StagedMod, browse_children, browse_attrs, browse_search, browse_modify,
}

pub browse_children-Keeps : (c : Collation) (dn : Option Bytes) → Keeps (browse_children c dn)
unfolding browse_children
browse_children-Keeps c dn lib w v = ground arith

pub browse_attrs-Keeps : (dn : Option Bytes) → Keeps (browse_attrs dn)
unfolding browse_attrs
browse_attrs-Keeps dn lib w v = ground arith

pub browse_search-Keeps :
    (c : Collation) (dn filter : Option Bytes) → Keeps (browse_search c dn filter)
unfolding browse_search
browse_search-Keeps c dn filter lib w v = ground arith

pub browse_modify-Keeps :
    (dn : Option Bytes) (mods : List StagedMod) → Keeps (browse_modify dn mods)
unfolding browse_modify
browse_modify-Keeps dn mods lib w v = ground arith
