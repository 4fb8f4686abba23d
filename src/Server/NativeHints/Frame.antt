-- ===== src/Server/NativeHints/Frame.antt =====
-- The native side follows by commands and texts only: the resources stay as they are.
use psl_xserver.Prelude.{List, Option-cases, arith, inl, inr, ℕ, ◌≡◌}
use psl_xserver.Resources.{NativeWindowHandle, WindowState}
use psl_xserver.Server.{XServer, command}
use psl_xserver.Server.NativeHints.{
  answer_clipboard, follow_icon, follow_title, send_icon_from_property,
}
use psl_xserver.Wire.{ByteOrder}

send_icon_from_property-resources :
    (order : ByteOrder) (w : WindowState) (property : ℕ) (handle : NativeWindowHandle)
    (server : XServer)
    → XServer.resources (send_icon_from_property order w property handle server) ≡ server.resources
unfolding send_icon_from_property command
send_icon_from_property-resources order w property handle server = ground arith

pub follow_title-resources :
    (property : ℕ) (name : List ℕ) (w : WindowState) (server : XServer)
    → XServer.resources (follow_title property name w server) ≡ server.resources
unfolding follow_title command
follow_title-resources property name w server = ground arith

pub follow_icon-resources :
    (order : ByteOrder) (property : ℕ) (name : List ℕ) (format : ℕ) (w : WindowState)
    (server : XServer)
    → XServer.resources (follow_icon order property name format w server) ≡ server.resources
unfolding follow_icon
follow_icon-resources order property name format w server = elim (Option-cases w.native_window) [
  | inl none_e ↦ rw none_e (ground arith)
  | inr (handle, handle_e) ↦
      let same = send_icon_from_property-resources order w property handle server in
      rw handle_e (ground (arith, same))
]

pub answer_clipboard-resources :
    (name bytes : List ℕ) (server : XServer)
    → XServer.resources (answer_clipboard name bytes server) ≡ server.resources
unfolding answer_clipboard
answer_clipboard-resources name bytes server = ground arith
