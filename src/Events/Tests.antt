-- ===== src/Events/Tests.antt =====
-- The event theorems at concrete inputs.
use psl_xserver.Events.{KeyEvent, build_configure_notify, build_key_event}
use psl_xserver.Events.Fields.{
  GeometryFits, HasConfigureFields, HasKeyFields, KeyFits, build_configure_notify_fields,
  build_key_event_fields, set_event_sequence_lem,
}
use psl_xserver.Outcome.{ok}
use psl_xserver.Prelude.{[], arith, drop, false, take, true, ◌∷◌, ◌≡◌}
use psl_xserver.Prelude.Int.{negsuc, pos}
use psl_xserver.Samples.{big_client, client}
use psl_xserver.Wire.{big_endian, set_event_sequence, u16_at}

abbrev press : KeyEvent
press = record {
  event_type = 2;
  keycode = 38;
  time = 70000;
  root = 0x80;
  event_window = 0x00200001;
  child = 0;
  root_x = pos 300;
  root_y = negsuc 4;
  event_x = pos 12;
  event_y = pos 5;
  state = 1;
  same_screen = true;
}

press-KeyFits : KeyFits press
press-KeyFits = record {
  time = omega arith;
  root = omega arith;
  event_window = omega arith;
  child = omega arith;
  root_x = omega arith;
  root_y = omega arith;
  event_x = omega arith;
  event_y = omega arith;
  state = omega arith;
}

geometry-GeometryFits : GeometryFits (negsuc 9) (pos 20) 640 480 1
geometry-GeometryFits = record {
  x_fits = omega arith;
  y_fits = omega arith;
  width_fits = omega arith;
  height_fits = omega arith;
  border_width_fits = omega arith;
}

build_key_event_fields_example : HasKeyFields big_client press (build_key_event big_client press)
build_key_event_fields_example = build_key_event_fields big_client press press-KeyFits

build_configure_notify_fields_example :
    HasConfigureFields client 0x00200001 0x00200001 0
      (negsuc 9)
      (pos 20)
      640
      480
      1
      false
      (build_configure_notify client 0x00200001 0x00200001 0 (negsuc 9) (pos 20) 640 480 1 false)
build_configure_notify_fields_example =
    build_configure_notify_fields client 0x00200001 0x00200001 0 (negsuc 9) (pos 20) 640 480 1 false
      (omega arith) (omega arith) (omega arith) geometry-GeometryFits

set_event_sequence_lem_example :
    let event = set_event_sequence big_endian (12 ∷ 0 ∷ 9 ∷ 9 ∷ 5 ∷ 6 ∷ []) 258 in
    (u16_at big_endian event 2 ≡ ok 258)
    × (take 2 event ≡ 12 ∷ 0 ∷ [])
    × (drop 4 event ≡ 5 ∷ 6 ∷ [])
set_event_sequence_lem_example =
    set_event_sequence_lem big_endian 12 0 9 9 (5 ∷ 6 ∷ []) 258 (omega arith)
