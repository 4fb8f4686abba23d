-- ===== src/Lib.antt =====
-- The X11 server core of pslXserver: the part of src/server that keeps the protocol's state and
-- answers requests, the pixels of its software renderer, and its PulseAudio server.
--
-- The parts, and the files that model them:
-- - Wire.antt, Wire/: numbers in the byte order that a client chose (src/server/connection.rs,
--   read_u16 to write_u16_at).
-- - Outcome.antt: how a handler ends. It succeeds, it returns a ServerError, or it panics on a slice
--   or an index out of bounds, which Rust turns into the end of the connection's task.
-- - Connection.antt and Connection/Framing.antt with its children: ClientConnection and the request
--   loop of handle_connection. Bytes arrive in chunks, requests are cut off (BIG-REQUESTS included),
--   numbered, handed to a dispatcher, and errors are answered by packets. A chunk has a byte at
--   least: a read of no bytes ends the connection, as Server/Disconnect models. The dispatcher is a
--   parameter over any server state. The loop runs on the number of pending bytes as its fuel, which
--   is enough since every request takes four bytes at least.
-- - Events.antt, Events/: the 32-byte events of src/server/events.rs.
-- - Atoms.antt, Atoms/: the atom table of src/server/atoms.rs with its predefined names.
-- - Resources.antt, Resources/: windows with their properties and selected events, pixmaps, graphics
--   contexts, fonts and cursors (src/server/resources.rs).
-- - Server.antt: the shared state XServer of src/server/mod.rs and how a handler reaches a window.
--   Server/AtomRequests, PropertyRequests, GcRequests, Selections, Focus and Windows are the handlers of
--   src/server/connection.rs, named as there; Server/Replies is what a client reads in the
--   replies that they write; Server/Disconnect is the clean-up at the end of
--   handle_connection. Server/NativeHints is what a changed property means to the clipboard, the
--   title and the icon. Server/ValueLists is the format that requests with a mask share, and
--   Server/Lookup what is found in the table after a change.
-- - Fonts.antt, Fonts/: the pattern match of font names and ListFonts (src/server/connection.rs). The
--   font table and the lower case of a text are parameters. The loop of the match runs on a fuel; the
--   number of bytes of the text, plus one, times the number of bytes of the pattern, plus one, is
--   enough. Fonts/Glob is what a pattern means.
-- - Clipping.antt, Clipping/: the clip of a cleared area by the windows inside it
--   (src/server/connection.rs, `clip_clear_by_children`). Strips are the parts that a child leaves, Area,
--   Middle and Clip what they cover, Fitting their bounds, and Loop what is left after all children.
-- - Renderer.antt, Renderer/: raster operations, single pixels and lines of src/display/renderer.rs on a
--   buffer of bytes. A line's loop runs on its width and its height as fuel.
-- - Audio.antt, Audio/: src/audio.rs. Tags and Reader are TagWriter and TagReader, Packets the frames of
--   the stream, Commands the replies, and Commands/Stream the loop of a connection as a function on
--   events: a packet, a tick of the timer, or the audio queue's call for bytes. The locks of the
--   statics are taken one at a time, and a lock poisoned by a panic is not modelled.
-- - Utf8.antt: which bytes std::str::from_utf8 takes, by the table of the Unicode standard.
-- - Prelude.antt, Prelude/: shared names, lists, integers, masks and association lists. Samples.antt
--   and the modules named Tests hold concrete servers, runs, and the theorems at concrete inputs.
--
-- How the code is read. A concurrent map is an association list, and a window under its lock is read,
-- changed and written back. One handler runs at a time: two connections that change the same window
-- at the same moment are not modelled. A handler takes the server, the connection and the request's
-- bytes, and gives the new server and the bytes it writes to its client's stream. Commands to the
-- native display and texts handed to the clipboard join lists of the state. A failed write to the
-- stream is not modelled, nor is logging. Numbers of 8, 16 and 32 bits are natural numbers with their
-- wrap-around written out; lengths and offsets are usize and do not overflow on 64 bits. Positions are
-- integers of 16 bits.
--
-- The recursion of destroy_window_recursive has no bound in the code. Here it runs on a fuel that
-- bounds the depth of the tree; its result is none when the depth exceeds the fuel. The depth of the
-- tree is enough fuel.
--
-- Not modelled: the setup handshake, the delivery of queued events between requests, the delivery of
-- input events to the listeners of a window (should_deliver_event of src/server/resources.rs serves
-- unit tests only), the other drawing requests and shapes, the metrics of fonts, cursors, pointer and keyboard input, the conversion of
-- selections, SendEvent, the extensions, XIM, the set-up of the audio queue, and the native
-- code of src/display and src/input. In the audio server the log, the client's name and the cookie
-- are left out, since nothing depends on them.
pub mod Prelude
pub mod Outcome
pub mod Utf8
pub mod Wire
pub mod Connection
pub mod Events
pub mod Atoms
pub mod Resources
pub mod Fonts
pub mod Clipping
pub mod Renderer
pub mod Audio
pub mod Server
pub mod Samples
