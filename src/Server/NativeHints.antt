-- ===== src/Server/NativeHints.antt =====
-- What a changed property means to the native side: src/server/connection.rs,
-- `send_icon_from_property` and the parts of `handle_change_property` on the clipboard, the title and
-- the icon.
pub mod Frame
use psl_xserver.Atoms.Names.{text}
use psl_xserver.Outcome.{ok}
use psl_xserver.Prelude.{
  List, [], drop, false, get_or, if◌then◌else◌, leb, length, ltb, min, none, not, some, suc, take,
  zero, ℕ, ◌%◌, ◌&&◌, ◌*◌, ◌++◌, ◌+◌, ◌-◌, ◌==◌, ◌^◌, ◌||◌, ◌∷◌,
}
use psl_xserver.Prelude.Assoc.{list_beq}
use psl_xserver.Resources.{NativeWindowHandle, WindowState, get_property}
use psl_xserver.Server.{XServer, command, set_native_icon, set_native_title}
use psl_xserver.Utf8.{is_utf8}
use psl_xserver.Wire.{ByteOrder, read_u32}

-- The words of the icon data, `chunks_exact(4)`.
icon_words : ByteOrder → List ℕ → List ℕ
unfolding read_u32
icon_words order (a ∷ b ∷ c ∷ d ∷ rest) = elim (read_u32 order (a ∷ b ∷ c ∷ d ∷ [])) [
  | ok v ↦ v ∷ icon_words order rest
  | _ ↦ []
]
icon_words order _ = []

-- `(v as i32 - 48).unsigned_abs()`, wrapping.
distance_48 : ℕ → ℕ
distance_48 v = let d = (v + 2 ^ 32 - 48) % 2 ^ 32 in if ltb d (2 ^ 31) then d else 2 ^ 32 - d

-- The best icon so far.
pub record Best : Type 0 where
  pub best_w : ℕ
  pub best_h : ℕ
  pub best_offset : ℕ
  pub best_score : ℕ

better : ℕ → ℕ → ℕ → Best → Best
unfolding distance_48
better iw ih offset best =
    let score = min (distance_48 iw + distance_48 ih) (2 ^ 32 - 1) in
    if ltb score best.best_score
    then record { best_w = iw; best_h = ih; best_offset = offset + 2; best_score = score }
    else best

-- The icons of the data, one after the other; the fuel is the number of words.
best_icon : ℕ → List ℕ → ℕ → Best → Best
unfolding better
best_icon zero words offset best = best
best_icon (suc fuel) words offset best =
    let iw = get_or words offset 0 in
    let ih = get_or words (offset + 1) 0 in
    let next = best_icon fuel words (offset + (2 + iw * ih)) (better iw ih offset best) in
    if ltb (offset + 2) (length words) && leb (offset + 2 + iw * ih) (length words)
    then next
    else best

send_icon_from_property : ByteOrder → WindowState → ℕ → NativeWindowHandle → XServer → XServer
send_icon_from_property order w property handle server = elim (get_property w property) [
  | none ↦ server
  | some prop ↦
      let words = icon_words order prop.bytes in
      let best =
        best_icon (length words) words 0
          (record { best_w = 0; best_h = 0; best_offset = 0; best_score = 2 ^ 32 - 1 }) in
      if ltb 0 best.best_w && ltb 0 best.best_h
      then command
          (set_native_icon handle best.best_w best.best_h
            (take (best.best_w * best.best_h) (drop best.best_offset words)))
          server
      else server
]

-- A clipboard copy that is awaited ends with the property `_PSLX_CLIP`.
pub answer_clipboard : List ℕ → List ℕ → XServer → XServer
answer_clipboard prop_name bytes server =
    if server.pending_clipboard_copy && list_beq prop_name (text "_PSLX_CLIP")
    then record server {
      pending_clipboard_copy = false;
      pasteboard =
          if is_utf8 bytes && not (length bytes == 0)
          then server.pasteboard ++ bytes ∷ []
          else server.pasteboard;
    }
    else server

-- The title of the native window follows WM_NAME (atom 39) and `_NET_WM_NAME`.
pub follow_title : ℕ → List ℕ → WindowState → XServer → XServer
follow_title property prop_name w server =
    if property == 39 || list_beq prop_name (text "_NET_WM_NAME")
    then elim (get_property w property) [
      | none ↦ server
      | some prop ↦ elim w.native_window [
        | some handle ↦
            if is_utf8 prop.bytes
            then command (set_native_title handle prop.bytes) server
            else server
        | none ↦ server
      ]
    ]
    else server

pub follow_icon : ByteOrder → ℕ → List ℕ → ℕ → WindowState → XServer → XServer
follow_icon order property prop_name format w server =
    if list_beq prop_name (text "_NET_WM_ICON") && format == 32
    then elim w.native_window [
      | some handle ↦ send_icon_from_property order w property handle server
      | none ↦ server
    ]
    else server
