-- ===== src/Resources.antt =====
-- The resources of the server: src/server/resources.rs. Colours, masks, ids and sizes are numbers;
-- positions are integers. `backing_buffer`, `ime_spot` and `ime_focus`, which no request reads, are
-- left out.
pub mod Properties
mod Tests
use psl_xserver.Prelude.{
  Bool, List, Option, [], false, get_or, if◌then◌else◌, none, some, true, ℕ, ◌==◌, ◌∷◌,
}
use psl_xserver.Prelude.Int.{pos, ℤ}

pub data WindowClass : Type 0 where
  copy_from_parent input_output input_only : WindowClass

-- `From<u16>`: an unknown class is `CopyFromParent`.
unfoldable pub window_class : ℕ → WindowClass
window_class v =
    if v == 0
    then copy_from_parent
    else if v == 1
    then input_output
    else if v == 2
    then input_only
    else copy_from_parent

pub record Property : Type 0 where
  pub name : ℕ
  pub type_atom : ℕ
  pub format : ℕ
  pub bytes : List ℕ

pub record NativeWindowHandle : Type 0 where
  pub handle_id : ℕ

pub record WindowState : Type 0 where
  pub id : ℕ
  pub parent : ℕ
  pub children : List ℕ
  pub x : ℤ
  pub y : ℤ
  pub width : ℕ
  pub height : ℕ
  pub border_width : ℕ
  pub depth : ℕ
  pub class : WindowClass
  pub visual : ℕ
  pub background_pixel : Option ℕ
  pub border_pixel : Option ℕ
  pub event_mask : ℕ
  pub do_not_propagate_mask : ℕ
  pub override_redirect : Bool
  pub backing_store : ℕ
  pub colormap : ℕ
  pub cursor : ℕ
  pub bit_gravity : ℕ
  pub win_gravity : ℕ
  -- Connection and event mask.
  pub event_selections : List (ℕ × ℕ)
  -- Connection, device and mask.
  pub xi2_event_selections : List (ℕ × ℕ × ℕ)
  pub mapped : Bool
  pub viewable : Bool
  pub properties : List Property
  pub native_window : Option NativeWindowHandle

unfoldable pub new_window :
    (id parent : ℕ) (x y : ℤ) (width height border_width depth : ℕ) → WindowClass → ℕ → WindowState
new_window id parent x y width height border_width depth class visual = record {
  id = id;
  parent = parent;
  children = [];
  x = x;
  y = y;
  width = width;
  height = height;
  border_width = border_width;
  depth = depth;
  class = class;
  visual = visual;
  background_pixel = none;
  border_pixel = none;
  event_mask = 0;
  do_not_propagate_mask = 0;
  override_redirect = false;
  backing_store = 0;
  colormap = 0;
  cursor = 0;
  bit_gravity = 0;
  win_gravity = 1;
  event_selections = [];
  xi2_event_selections = [];
  mapped = false;
  viewable = false;
  properties = [];
  native_window = none;
}

-- `iter().find(|p| p.name == atom)`.
unfoldable pub find_property : ℕ → List Property → Option Property
find_property atom [] = none
find_property atom (p ∷ ps) = if p.name == atom then some p else find_property atom ps

-- The first property of that name is overwritten, or the property goes to the end.
pub put_property : Property → List Property → List Property
put_property prop [] = prop ∷ []
put_property prop (p ∷ ps) = if p.name == prop.name then prop ∷ ps else p ∷ put_property prop ps

pub drop_property : ℕ → List Property → List Property
drop_property atom [] = []
drop_property atom (p ∷ ps) =
    if p.name == atom then drop_property atom ps else p ∷ drop_property atom ps

unfoldable pub get_property : WindowState → ℕ → Option Property
get_property w atom = find_property atom w.properties

pub set_property : Property → WindowState → WindowState
set_property prop w = record w { properties = put_property prop w.properties }

pub delete_property : ℕ → WindowState → WindowState
delete_property atom w = record w { properties = drop_property atom w.properties }

pub record PixmapState : Type 0 where
  pub id : ℕ
  pub drawable : ℕ
  pub width : ℕ
  pub height : ℕ
  pub depth : ℕ
  pub pixels : List ℕ

pub data GcFunction : Type 0 where
  clear and and_reverse copy and_inverted noop xor or : GcFunction
  nor equiv invert or_reverse copy_inverted or_inverted nand set_all : GcFunction

pub record GContextState : Type 0 where
  pub id : ℕ
  pub drawable : ℕ
  pub function : GcFunction
  pub plane_mask : ℕ
  pub foreground : ℕ
  pub background : ℕ
  pub line_width : ℕ
  pub line_style : ℕ
  pub cap_style : ℕ
  pub join_style : ℕ
  pub fill_style : ℕ
  pub fill_rule : ℕ
  pub arc_mode : ℕ
  pub font : ℕ
  pub subwindow_mode : ℕ
  pub graphics_exposures : Bool
  pub clip_x_origin : ℤ
  pub clip_y_origin : ℤ
  pub clip_mask : ℕ
  pub dash_offset : ℕ
  pub dashes : ℕ

pub new_gcontext : ℕ → ℕ → GContextState
new_gcontext id drawable = record {
  id = id;
  drawable = drawable;
  function = copy;
  plane_mask = 0xFFFFFFFF;
  foreground = 0;
  background = 0x00FFFFFF;
  line_width = 0;
  line_style = 0;
  cap_style = 1;
  join_style = 0;
  fill_style = 0;
  fill_rule = 0;
  arc_mode = 1;
  font = 0;
  subwindow_mode = 0;
  graphics_exposures = true;
  clip_x_origin = pos 0;
  clip_y_origin = pos 0;
  clip_mask = 0;
  dash_offset = 0;
  dashes = 4;
}

gc_functions : List GcFunction
gc_functions =
    clear ∷ and ∷ and_reverse ∷ copy ∷ and_inverted ∷ noop ∷ xor ∷ or ∷ nor ∷ equiv ∷ invert
    ∷ or_reverse ∷ copy_inverted ∷ or_inverted ∷ nand ∷ set_all ∷ []

-- `From<u8>`: the sixteen functions in the order of their codes; any other code is `Copy`.
pub gc_function : ℕ → GcFunction
unfolding gc_functions
gc_function v = get_or gc_functions v copy

pub record FontState : Type 0 where
  pub id : ℕ
  pub font_name : List ℕ
  pub ascent : ℤ
  pub descent : ℤ
  pub max_char_width : ℤ
  pub min_char_width : ℤ
  pub default_char : ℕ
  pub is_2byte : Bool

pub record CursorState : Type 0 where
  pub id : ℕ
  pub source_font : ℕ
  pub source_char : ℕ
  pub mask_font : ℕ
  pub mask_char : ℕ
  pub fore_red : ℕ
  pub fore_green : ℕ
  pub fore_blue : ℕ
  pub back_red : ℕ
  pub back_green : ℕ
  pub back_blue : ℕ
  pub macos_type : ℕ

pub data Resource : Type 0 where
  window : WindowState → Resource
  pixmap : PixmapState → Resource
  gcontext : GContextState → Resource
  font : FontState → Resource
  cursor : CursorState → Resource
