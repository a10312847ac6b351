-- ===== src/Computers/Keeps.antt =====
-- Every operation on computers ends, and leaves the shared connection as it should be.
use sambervise.Base.{Bool, Option, List, arith}
use sambervise.Base.Bytes.{Bytes}
use sambervise.Connection.Valid.{Keeps}
use sambervise.Computers.{Computer, list_computers}
use sambervise.Computers.Change.{
  set_computer_enabled, update_computer, set_spn, NewComputer, create_computer, delete_computer,
}

pub list_computers-Keeps : Keeps list_computers
unfolding list_computers
list_computers-Keeps lib w v = ground arith

pub set_computer_enabled-Keeps :
    (k : Computer) (enabled : Bool) → Keeps (set_computer_enabled k enabled)
unfolding set_computer_enabled
set_computer_enabled-Keeps k enabled lib w v = ground arith

pub update_computer-Keeps :
    (k : Computer) (description dns_hostname : Option Bytes)
    → Keeps (update_computer k description dns_hostname)
unfolding update_computer
update_computer-Keeps k description dns_hostname lib w v = ground arith

pub set_spn-Keeps : (k : Computer) (spns : Option (List Bytes)) → Keeps (set_spn k spns)
unfolding set_spn
set_spn-Keeps k spns lib w v = ground arith

pub create_computer-Keeps : (n : NewComputer) → Keeps (create_computer n)
unfolding create_computer
create_computer-Keeps n lib w v = ground arith

pub delete_computer-Keeps : (k : Computer) → Keeps (delete_computer k)
unfolding delete_computer
delete_computer-Keeps k lib w v = ground arith
