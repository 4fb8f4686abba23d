-- ===== src/Resources/Properties.antt =====
-- The properties of a window as a map from atoms.
use psl_xserver.Prelude.{List, [], ap, arith, if◌then◌else◌, none, refl, some, ℕ, ◌==◌, ◌∷◌, ◌≡◌}
use psl_xserver.Resources.{
  Property, WindowState, delete_property, drop_property, find_property, get_property, put_property,
  set_property,
}

find-put :
    (prop : Property) (atom : ℕ) (ps : List Property)
    → find_property atom (put_property prop ps)
      ≡ (if prop.name == atom then some prop else find_property atom ps)
unfolding find_property put_property
find-put prop atom [] = refl
find-put prop atom (p ∷ ps) = ground (arith, find-put prop atom ps)

find-drop :
    (gone atom : ℕ) (ps : List Property)
    → find_property atom (drop_property gone ps)
      ≡ (if gone == atom then none else find_property atom ps)
unfolding find_property drop_property
find-drop gone atom [] = ground arith
find-drop gone atom (p ∷ ps) = ground (arith, find-drop gone atom ps)

-- What is set is found under its name, until another value is set there or the name is deleted;
-- no other name is affected.
pub get_property-update :
    (w : WindowState) (prop : Property) (gone atom : ℕ)
    → (get_property (set_property prop w) atom
        ≡ (if prop.name == atom then some prop else get_property w atom))
      × (get_property (delete_property gone w) atom
          ≡ (if gone == atom then none else get_property w atom))
unfolding get_property set_property delete_property
get_property-update w prop gone atom =
    (find-put prop atom w.properties, find-drop gone atom w.properties)

-- No name occurs twice.
abbrev pub HasDistinctNames : List Property → Type 0
HasDistinctNames [] = Unit {0}
HasDistinctNames (p ∷ ps) = (find_property p.name ps ≡ none) × HasDistinctNames ps

put_property-HasDistinctNames :
    (prop : Property) (ps : List Property)
    → HasDistinctNames ps
    → HasDistinctNames (put_property prop ps)
unfolding put_property
put_property-HasDistinctNames prop [] d = (unfold find_property in refl, tt)
put_property-HasDistinctNames prop (p ∷ ps) d = ground (
  arith,
  find-put prop p.name ps,
  put_property-HasDistinctNames prop ps d.1,
  ap (λ n. find_property n ps ≡ none),
)

drop_property-HasDistinctNames :
    (gone : ℕ) (ps : List Property) → HasDistinctNames ps → HasDistinctNames (drop_property gone ps)
unfolding drop_property
drop_property-HasDistinctNames gone [] d = tt
drop_property-HasDistinctNames gone (p ∷ ps) d =
    ground (arith, find-drop gone p.name ps, drop_property-HasDistinctNames gone ps d.1)

-- If no two properties of a window have one name, setting or deleting a property leaves it so.
pub properties-HasDistinctNames :
    (w : WindowState) (prop : Property) (gone : ℕ)
    → HasDistinctNames w.properties
    → HasDistinctNames (set_property prop w).properties
      × HasDistinctNames (delete_property gone w).properties
unfolding set_property delete_property
properties-HasDistinctNames w prop gone d = (
  put_property-HasDistinctNames prop w.properties d,
  drop_property-HasDistinctNames gone w.properties d,
)
