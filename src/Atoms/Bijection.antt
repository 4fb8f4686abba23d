-- ===== src/Atoms/Bijection.antt =====
-- The two maps are inverse to one another, and stay so.
use mathlib.Core.List.{tail}
use psl_xserver.Atoms.{
  AtomTable, bind_atom, empty_table, get_id, get_name, intern, last_predefined, new_table,
  next_atom, register,
}
use psl_xserver.Atoms.Names.{predefined_names}
use psl_xserver.Prelude.{
  Bool, Bool-cases, List, Option, Option-cases, [], ap, arith, false, inl, inr, length, none, refl,
  some, subst, true, ℕ, ◌+◌, ◌<◌, ◌^◌, ◌∷◌, ◌≡◌, ◌≤◌, ◌⊎◌,
}
use psl_xserver.Prelude.Assoc.{
  bytes_eq, insert, list_beq, list_beq_iff, lookup, lookup-insert, nat_eq,
}

-- Every binding of one map is one of the other, and ids lie between 1 and the counter.
pub record IsBijection (bound : ℕ) (t : AtomTable) : Type 0 where
  pub forward :
      (name : List ℕ) (id : ℕ)
      → lookup name t.name_to_id ≡ some id
      → (lookup id t.id_to_name ≡ some name) × (0 < id) × (id < bound)
  pub backward :
      (id : ℕ) (name : List ℕ)
      → lookup id t.id_to_name ≡ some name
      → (lookup name t.name_to_id ≡ some id) × (0 < id) × (id < bound)

bind_atom-IsBijection :
    (name : List ℕ) (id : ℕ) (t : AtomTable)
    → IsBijection id t
    → 0 < id
    → lookup name t.name_to_id ≡ none
    → IsBijection (id + 1) (bind_atom name id t)
unfolding bind_atom
bind_atom-IsBijection name id t v positive fresh = record {
  forward = λ n i e. ground (
    arith,
    lookup-insert name n id t.name_to_id,
    lookup-insert id i name t.id_to_name,
    v.forward n i,
    v.backward i n,
    list_beq_iff name n,
  );
  backward = λ i n e. ground (
    arith,
    lookup-insert name n id t.name_to_id,
    lookup-insert id i name t.id_to_name,
    v.forward n i,
    v.backward i n,
    list_beq_iff name n,
  );
}

-- Names that are bound neither yet nor by an earlier place of the list.
all_new : ℕ → List (List ℕ) → AtomTable → Bool
unfolding bind_atom lookup insert list_beq
all_new i [] t = true
all_new i (name ∷ names) t = elim (lookup name t.name_to_id) [
  | some id ↦ false
  | none ↦ all_new (i + 1) names (bind_atom name i t)
]

IsBijection-cast : {m n : ℕ} {t u : AtomTable} → m ≡ n → t ≡ u → IsBijection m t → IsBijection n u
IsBijection-cast {m} {n} {t} {u} e f v = subst (IsBijection n) f (subst (λ k. IsBijection k t) e v)

register-IsBijection :
    (i : ℕ) (names : List (List ℕ)) (t : AtomTable)
    → 0 < i
    → all_new i names t ≡ true
    → IsBijection i t
    → IsBijection (i + length names) (register i names t)
unfolding register
register-IsBijection i [] t positive fresh v = IsBijection-cast (omega arith) refl v
register-IsBijection i (name ∷ names) t positive fresh v =
    elim (Option-cases (lookup name t.name_to_id)) [
      | inl e ↦ IsBijection-cast (omega arith) (ap (register (i + 1) names) (ground arith)) (
          register-IsBijection (i + 1) names (bind_atom name i t) (omega arith)
            (unfold all_new in rw (e, all_new) at fresh)
            (bind_atom-IsBijection name i t v positive e))
      | inr (id, e) ↦ absurd (unfold all_new in cc (rw (e, all_new) at fresh))
    ]

empty_table-IsBijection : (bound : ℕ) → IsBijection bound empty_table
unfolding lookup
empty_table-IsBijection bound = record { forward = λ n i e. cc; backward = λ i n e. cc }

-- The counter is no part of the maps.
with_next_id :
    {bound : ℕ} {t : AtomTable} (n : ℕ)
    → IsBijection bound t
    → IsBijection bound (record t { next_id = n })
with_next_id n v = record { forward = v.forward; backward = v.backward }

new_table-IsBijection : IsBijection new_table.next_id new_table
unfolding new_table all_new
new_table-IsBijection = with_next_id (last_predefined + 1) (
    register-IsBijection 1 (tail predefined_names) empty_table (omega arith) refl
      (empty_table-IsBijection 1))

intern-IsBijection :
    (name : List ℕ) (only_if_exists : Bool) (t : AtomTable)
    → 0 < t.next_id
    → t.next_id + 1 < 2 ^ 32
    → IsBijection t.next_id t
    → let t' = (intern name only_if_exists t).1 in
      IsBijection t'.next_id t' × (t.next_id ≤ t'.next_id)
unfolding intern
intern-IsBijection name only_if_exists t positive room v =
    elim (Option-cases (lookup name t.name_to_id)) [
      | inr (id, e) ↦ rw (e, intern) (v, omega arith)
      | inl e ↦ elim (Bool-cases only_if_exists) [
        | inl only ↦ rw (e, intern, only) (v, omega arith)
        | inr create ↦
            rw (e, intern, create)
              (
                IsBijection-cast (omega arith) refl (
                    bind_atom-IsBijection name t.next_id
                      (record t { next_id = next_atom t.next_id }) (with_next_id _ v) positive e),
                omega arith,
              )
      ]
    ]

-- The tables that a server can have: the new one, and what interning makes of one, while ids are left.
pub data Reachable : AtomTable → Type 0 where
  started : Reachable new_table
  interned :
      {t : AtomTable} (name : List ℕ) (only_if_exists : Bool)
      → t.next_id + 1 < 2 ^ 32
      → Reachable t
      → Reachable (intern name only_if_exists t).1

reachable : {t : AtomTable} → Reachable t → IsBijection t.next_id t × (last_predefined < t.next_id)
reachable started = (new_table-IsBijection, unfold new_table in omega arith)
reachable (interned {t} name only room r) =
    let (v, above) = reachable r in
    let (v', grows) = intern-IsBijection name only t (omega arith) room v in (v', omega arith)

-- In every table that a server can reach the two maps are inverse to one another, and every id lies
-- between 1 and the counter, which is above the predefined atoms.
pub Reachable-IsBijection :
    (t : AtomTable) → Reachable t → IsBijection t.next_id t × (last_predefined < t.next_id)
Reachable-IsBijection t r = reachable r

intern-hit :
    (t : AtomTable) (name : List ℕ) (id : ℕ)
    → lookup name t.name_to_id ≡ some id
    → intern name false t ≡ (some id, t)
unfolding intern
intern-hit t name id e = rw (e, intern)

intern-miss :
    (t : AtomTable) (name : List ℕ)
    → lookup name t.name_to_id ≡ none
    → intern name false t
      ≡ (some t.next_id, bind_atom name t.next_id (record t { next_id = next_atom t.next_id }))
unfolding intern
intern-miss t name e = rw (e, intern)

-- What interning promises of its id and of the table after it.
abbrev pub Interns : AtomTable → List ℕ → List ℕ → Option ℕ × AtomTable → Type 0
Interns t name other (result, t') =
    (id : ℕ) × (result ≡ some id)
    × (get_name id t' ≡ some name)
    × (get_id name t' ≡ some id)
    × (intern name false t' ≡ (some id, t'))
    × ((get_id other t ≡ none) ⊎ (get_id other t' ≡ get_id other t))

bound_new :
    (t : AtomTable) (name other : List ℕ)
    → lookup name t.name_to_id ≡ none
    → Interns t name other
        (some t.next_id, bind_atom name t.next_id (record t { next_id = next_atom t.next_id }))
unfolding bind_atom get_name get_id
bound_new t name other e = (
  t.next_id,
  refl,
  ground (arith, lookup-insert t.next_id t.next_id name t.id_to_name),
  found,
  intern-hit _ name t.next_id found,
  ground (arith, lookup-insert name other t.next_id t.name_to_id, list_beq_iff name other, e),
)
  where
    found : lookup name (insert name t.next_id t.name_to_id) ≡ some t.next_id
    found = ground (arith, lookup-insert name name t.next_id t.name_to_id, list_beq_iff name name)

-- In every table that a server can reach, interning a name gives an id by which the name is found
-- again, and back; interning it once more gives the same id and changes nothing; every name that
-- was bound keeps its id.
pub intern_lem :
    (t : AtomTable) (name other : List ℕ) → Reachable t → Interns t name other (intern name false t)
unfolding get_name get_id
intern_lem t name other r = elim (Option-cases (lookup name t.name_to_id)) [
  | inr (id, e) ↦
      rw (intern-hit t name id e)
        (id, refl, ((reachable r).0.forward name id e).0, e, intern-hit t name id e, inr refl)
  | inl e ↦ rw (intern-miss t name e) (bound_new t name other e)
]

-- With `only_if_exists` the table never changes, and the answer is the id of the name, if it has one.
intern_only : (t : AtomTable) (name : List ℕ) → intern name true t ≡ (get_id name t, t)
unfolding intern get_id
intern_only t name = elim (Option-cases (lookup name t.name_to_id)) [
  | inr (id, e) ↦ rw (e, intern) refl
  | inl e ↦ rw (e, intern) refl
]
