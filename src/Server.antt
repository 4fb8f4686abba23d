-- ===== src/Server.antt =====
-- The shared state of the server: src/server/mod.rs (`XServer`, `Screen`) and the commands for the
-- native display of src/display/mod.rs. Every map is an association list. What a request writes to
-- its client's stream is its result; what it sends to other parties joins a list of the state.
pub mod NativeHints
pub mod PropertyRequests
pub mod AtomRequests
pub mod ValueLists
pub mod Lookup
pub mod GcRequests
pub mod Windows
pub mod Disconnect
pub mod Selections
pub mod Replies
pub mod Focus
use psl_xserver.Atoms.{AtomTable}
use psl_xserver.Connection.{ClientConnection}
use psl_xserver.Outcome.{Result, ok, panic}
use psl_xserver.Prelude.{Bool, List, Option, [], get_elem?, none, some, ℕ, ◌%◌, ◌++◌, ◌-◌, ◌∷◌}
use psl_xserver.Prelude.Assoc.{bytes_eq, insert, lookup, nat_eq}
use psl_xserver.Resources.{
  NativeWindowHandle, Resource, WindowState, cursor, font, gcontext, pixmap, window,
}
use psl_xserver.Wire.{ByteOrder, u32_bytes}

pub record Screen : Type 0 where
  pub root_window : ℕ
  pub width_in_pixels : ℕ
  pub height_in_pixels : ℕ
  pub root_depth : ℕ

-- The commands that the modelled requests send.
pub data DisplayCommand : Type 0 where
  destroy_native : NativeWindowHandle → DisplayCommand
  set_native_title : NativeWindowHandle → List ℕ → DisplayCommand
  set_native_icon : NativeWindowHandle → ℕ → ℕ → List ℕ → DisplayCommand

pub record XServer : Type 0 where
  pub connections : List (ℕ × ClientConnection)
  pub resources : List (ℕ × Resource)
  pub atoms : AtomTable
  pub screen : Screen
  pub display_cmds : List DisplayCommand
  pub next_conn_id : ℕ
  pub next_resource_id_base : ℕ
  pub startup_time : ℕ
  -- Selection atom to owner window and time.
  pub selections : List (ℕ × (ℕ × ℕ))
  -- 0 is no window, 1 is PointerRoot.
  pub focus_window : ℕ
  pub focus_revert_to : ℕ
  pub pending_clipboard_copy : Bool
  -- The texts handed to the system clipboard.
  pub pasteboard : List (List ℕ)

-- The new state and the bytes written to the client's stream.
abbrev pub Reply : Type 0
Reply = Result (XServer × List ℕ)

abbrev as_window : Option Resource → Option WindowState
as_window (some (window w)) = some w
as_window (some (pixmap p)) = none
as_window (some (gcontext g)) = none
as_window (some (font f)) = none
as_window (some (cursor c)) = none
as_window none = none

-- `resources.get(&xid)`, if it is a window.
pub find_window : XServer → ℕ → Option WindowState
find_window server xid = as_window (lookup xid server.resources)

-- The window under its lock is written back.
pub put_window : ℕ → WindowState → XServer → XServer
put_window xid w server = record server { resources = insert xid (window w) server.resources }

pub update_window : ℕ → (WindowState → WindowState) → XServer → XServer
update_window xid f server = elim (find_window server xid) [
  | some w ↦ put_window xid (f w) server
  | none ↦ server
]

pub command : DisplayCommand → XServer → XServer
command c server = record server { display_cmds = server.display_cmds ++ c ∷ [] }

-- `data[i]`.
pub byte_at : List ℕ → ℕ → Result ℕ
byte_at bytes i = elim (get_elem? bytes i) [ some b ↦ ok b | none ↦ panic ]

-- The zero bytes that fill a length up to whole words.
abbrev pub pad_of : ℕ → ℕ
pad_of n = (4 - n % 4) % 4

-- Words one after the other.
pub all_words : ByteOrder → List ℕ → List ℕ
all_words order [] = []
all_words order (v ∷ vs) = u32_bytes order v ++ all_words order vs
