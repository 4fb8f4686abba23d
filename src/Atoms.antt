-- ===== src/Atoms.antt =====
-- The atom table: src/server/atoms.rs. A name is the list of its bytes; the two maps are
-- association lists, and the counter wraps at 2 ^ 32.
pub mod Names
pub mod Bijection
mod Tests
use Names.{predefined_names}
use psl_xserver.Prelude.{
  Bool, List, Option, [], if◌then◌else◌, none, some, ℕ, ◌%◌, ◌+◌, ◌==◌, ◌^◌, ◌∷◌,
}
use psl_xserver.Prelude.Assoc.{bytes_eq, insert, list_beq, lookup, nat_eq}

-- `predefined::LAST_PREDEFINED`.
abbrev pub last_predefined : ℕ
last_predefined = 68

pub record AtomTable : Type 0 where
  pub name_to_id : List (List ℕ × ℕ)
  pub id_to_name : List (ℕ × List ℕ)
  pub next_id : ℕ

-- Both maps get the pair.
pub bind_atom : List ℕ → ℕ → AtomTable → AtomTable
bind_atom name id t = record t {
  name_to_id = insert name id t.name_to_id;
  id_to_name = insert id name t.id_to_name;
}

-- The loop over the predefined names, from an index on; index 0 is skipped.
pub register : ℕ → List (List ℕ) → AtomTable → AtomTable
register i [] t = t
register i (name ∷ names) t = register (i + 1) names (if i == 0 then t else bind_atom name i t)

abbrev empty_table : AtomTable
empty_table = record { name_to_id = []; id_to_name = []; next_id = 0 }

pub new_table : AtomTable
unfolding bind_atom register predefined_names lookup insert list_beq
new_table = record (register 0 predefined_names empty_table) { next_id = last_predefined + 1 }

-- `fetch_add` wraps.
abbrev pub next_atom : ℕ → ℕ
next_atom id = (id + 1) % 2 ^ 32

pub intern : List ℕ → Bool → AtomTable → Option ℕ × AtomTable
unfolding bind_atom
intern name only_if_exists t = elim (lookup name t.name_to_id) [
  | some id ↦ (some id, t)
  | none ↦
      if only_if_exists
      then (none, t)
      else (some t.next_id, bind_atom name t.next_id (record t { next_id = next_atom t.next_id }))
]

pub get_name : ℕ → AtomTable → Option (List ℕ)
get_name id t = lookup id t.id_to_name

pub get_id : List ℕ → AtomTable → Option ℕ
get_id name t = lookup name t.name_to_id
