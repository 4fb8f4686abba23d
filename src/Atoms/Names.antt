-- ===== src/Atoms/Names.antt =====
-- The names of the predefined atoms, in the order of their ids; the first is no atom.
use Prim.Native.Char.{code}
use Prim.Native.String.{String}
use psl_xserver.Prelude.{List, [], ℕ, ◌∷◌}

-- The bytes of an ASCII text.
abbrev pub text : String → List ℕ
text String.[] = []
text (String.◌∷◌ c s) = code c ∷ text s

unfoldable pub predefined_names : List (List ℕ)
predefined_names =
    text ""
    ∷ text "PRIMARY"
    ∷ text "SECONDARY"
    ∷ text "ARC"
    ∷ text "ATOM"
    ∷ text "BITMAP"
    ∷ text "CARDINAL"
    ∷ text "COLORMAP"
    ∷ text "CURSOR"
    ∷ text "CUT_BUFFER0"
    ∷ text "CUT_BUFFER1"
    ∷ text "CUT_BUFFER2"
    ∷ text "CUT_BUFFER3"
    ∷ text "CUT_BUFFER4"
    ∷ text "CUT_BUFFER5"
    ∷ text "CUT_BUFFER6"
    ∷ text "CUT_BUFFER7"
    ∷ text "DRAWABLE"
    ∷ text "FONT"
    ∷ text "INTEGER"
    ∷ text "PIXMAP"
    ∷ text "POINT"
    ∷ text "RECTANGLE"
    ∷ text "RESOURCE_MANAGER"
    ∷ text "RGB_COLOR_MAP"
    ∷ text "RGB_BEST_MAP"
    ∷ text "RGB_BLUE_MAP"
    ∷ text "RGB_DEFAULT_MAP"
    ∷ text "RGB_GRAY_MAP"
    ∷ text "RGB_GREEN_MAP"
    ∷ text "RGB_RED_MAP"
    ∷ text "STRING"
    ∷ text "VISUALID"
    ∷ text "WINDOW"
    ∷ text "WM_COMMAND"
    ∷ text "WM_HINTS"
    ∷ text "WM_CLIENT_MACHINE"
    ∷ text "WM_ICON_NAME"
    ∷ text "WM_ICON_SIZE"
    ∷ text "WM_NAME"
    ∷ text "WM_NORMAL_HINTS"
    ∷ text "WM_SIZE_HINTS"
    ∷ text "WM_ZOOM_HINTS"
    ∷ text "MIN_SPACE"
    ∷ text "NORM_SPACE"
    ∷ text "MAX_SPACE"
    ∷ text "END_SPACE"
    ∷ text "SUPERSCRIPT_X"
    ∷ text "SUPERSCRIPT_Y"
    ∷ text "SUBSCRIPT_X"
    ∷ text "SUBSCRIPT_Y"
    ∷ text "UNDERLINE_POSITION"
    ∷ text "UNDERLINE_THICKNESS"
    ∷ text "STRIKEOUT_ASCENT"
    ∷ text "STRIKEOUT_DESCENT"
    ∷ text "ITALIC_ANGLE"
    ∷ text "X_HEIGHT"
    ∷ text "QUAD_WIDTH"
    ∷ text "WEIGHT"
    ∷ text "POINT_SIZE"
    ∷ text "RESOLUTION"
    ∷ text "COPYRIGHT"
    ∷ text "NOTICE"
    ∷ text "FONT_NAME"
    ∷ text "FAMILY_NAME"
    ∷ text "FULL_NAME"
    ∷ text "CAP_HEIGHT"
    ∷ text "WM_CLASS"
    ∷ text "WM_TRANSIENT_FOR"
    ∷ []
