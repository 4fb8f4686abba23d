-- ===== src/Samples.antt =====
-- Concrete connections, windows and servers, at which the theorems are tried.
use psl_xserver.Connection.{ClientConnection}
use psl_xserver.Prelude.{List, [], false, none, true, ℕ, ◌∷◌}
use psl_xserver.Prelude.Int.{pos}
use psl_xserver.Resources.{GContextState, WindowState, copy, gcontext, input_output, window}
use psl_xserver.Server.{XServer}
use psl_xserver.Wire.{big_endian, little_endian}

-- A client with little-endian order.
abbrev pub client : ClientConnection
client = record {
  id = 1;
  resource_id_base = 0x00200000;
  resource_id_mask = 0x001FFFFF;
  byte_order = little_endian;
  sequence_number = 7;
  event_tx = [];
  mapping_gen = 0;
}

-- A client with big-endian order.
abbrev pub big_client : ClientConnection
big_client = record {
  id = 2;
  resource_id_base = 0x00400000;
  resource_id_mask = 0x001FFFFF;
  byte_order = big_endian;
  sequence_number = 0;
  event_tx = [];
  mapping_gen = 0;
}

abbrev pub plain_window : (id parent : ℕ) → List ℕ → WindowState
plain_window id parent children = record {
  id = id;
  parent = parent;
  children = children;
  x = pos 0;
  y = pos 0;
  width = 100;
  height = 50;
  border_width = 1;
  depth = 24;
  class = input_output;
  visual = 0x21;
  background_pixel = none;
  border_pixel = none;
  event_mask = 0;
  do_not_propagate_mask = 0;
  override_redirect = false;
  backing_store = 0;
  colormap = 0;
  cursor = 0;
  bit_gravity = 0;
  win_gravity = 1;
  event_selections = (1, 0x8000) ∷ (2, 0x20000) ∷ [];
  xi2_event_selections = [];
  mapped = true;
  viewable = true;
  properties = [];
  native_window = none;
}

abbrev pub plain_gc : GContextState
plain_gc = record {
  id = 0x00200003;
  drawable = 0x00200001;
  function = copy;
  plane_mask = 0xFFFFFFFF;
  foreground = 0;
  background = 0x00FFFFFF;
  line_width = 0;
  line_style = 0;
  cap_style = 1;
  join_style = 0;
  fill_style = 0;
  fill_rule = 0;
  arc_mode = 1;
  font = 0;
  subwindow_mode = 0;
  graphics_exposures = true;
  clip_x_origin = pos 0;
  clip_y_origin = pos 0;
  clip_mask = 0;
  dash_offset = 0;
  dashes = 4;
}

-- The root window, a window of the first client with a child, and a graphics context.
abbrev pub sample_server : XServer
sample_server = record {
  connections = (1, client) ∷ (2, big_client) ∷ [];
  resources =
      (0x80, window (plain_window 0x80 0 (0x00200001 ∷ [])))
      ∷ (0x00200001, window (plain_window 0x00200001 0x80 (0x00200002 ∷ [])))
      ∷ (0x00200002, window (plain_window 0x00200002 0x00200001 []))
      ∷ (0x00200003, gcontext plain_gc)
      ∷ [];
  atoms = record { name_to_id = []; id_to_name = []; next_id = 69 };
  screen = record {
    root_window = 0x80;
    width_in_pixels = 1920;
    height_in_pixels = 1080;
    root_depth = 24;
  };
  display_cmds = [];
  next_conn_id = 3;
  next_resource_id_base = 0x00600000;
  startup_time = 1000;
  selections = (1, (0x00200001, 5)) ∷ (2, (0x00400001, 6)) ∷ [];
  focus_window = 1;
  focus_revert_to = 1;
  pending_clipboard_copy = false;
  pasteboard = [];
}
