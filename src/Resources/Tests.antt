-- ===== src/Resources/Tests.antt =====
-- The theorems on properties and event masks at concrete inputs.
use psl_xserver.Prelude.{[], if◌then◌else◌, none, refl, some, ◌==◌, ◌∷◌, ◌≡◌}
use psl_xserver.Resources.{
  Property, WindowState, delete_property, find_property, get_property, set_property,
}
use psl_xserver.Resources.Properties.{
  HasDistinctNames, get_property-update, properties-HasDistinctNames,
}
use psl_xserver.Samples.{plain_window}

abbrev title : Property
title = record { name = 39; type_atom = 31; format = 8; bytes = 104 ∷ 105 ∷ [] }

abbrev titled : WindowState
titled = record (plain_window 0x00200001 0x80 []) { properties = title ∷ [] }

get_property-update_example :
    (get_property (set_property title titled) 40
      ≡ (if 39 == 40 then some title else get_property titled 40))
    × (get_property (delete_property 39 titled) 40
        ≡ (if 39 == 40 then none else get_property titled 40))
get_property-update_example = get_property-update titled title 39 40

properties-HasDistinctNames_example :
    HasDistinctNames (set_property title titled).properties
    × HasDistinctNames (delete_property 39 titled).properties
properties-HasDistinctNames_example =
    properties-HasDistinctNames titled title 39 (unfold find_property in refl, tt)
