-- ===== src/Atoms/Tests.antt =====
-- The atom theorems at concrete inputs.
use psl_xserver.Atoms.{intern, last_predefined, new_table}
use psl_xserver.Atoms.Bijection.{
  Interns, IsBijection, Reachable, Reachable-IsBijection, intern_lem, interned, started,
}
use psl_xserver.Atoms.Names.{text}
use psl_xserver.Prelude.{List, [], arith, false, ℕ, ◌<◌, ◌∷◌}

-- A name that is not predefined.
abbrev my_name : List ℕ
my_name = 77 ∷ 89 ∷ []

interned_once : Reachable (intern my_name false new_table).1
interned_once = interned {t = new_table} my_name false (unfold new_table in omega arith) started

Reachable-IsBijection_example :
    IsBijection (intern my_name false new_table).1.next_id (intern my_name false new_table).1
    × (last_predefined < (intern my_name false new_table).1.next_id)
Reachable-IsBijection_example =
    Reachable-IsBijection (intern my_name false new_table).1 interned_once

intern_lem_example : Interns new_table my_name (text "PRIMARY") (intern my_name false new_table)
intern_lem_example = intern_lem new_table my_name (text "PRIMARY") started
