-- ===== src/Server/Lookup.antt =====
-- Windows looked up after a change of the table.
use psl_xserver.Prelude.{
  Bool-cases, Option-cases, arith, false, if◌then◌else◌, inl, inr, none, refl, some, true, ℕ, ◌==◌,
  ◌≡◌, ◌≢◌,
}
use psl_xserver.Prelude.Assoc.{bytes_eq, lookup-insert, lookup-remove, nat_eq, remove}
use psl_xserver.Resources.{WindowState, window}
use psl_xserver.Server.{XServer, find_window, put_window, update_window}

pub find_window-put_window :
    (wid xid : ℕ) (w : WindowState) (server : XServer)
    → find_window (put_window wid w server) xid
      ≡ (if wid == xid then some w else find_window server xid)
unfolding find_window put_window
find_window-put_window wid xid w server = elim (Bool-cases (wid == xid)) [
  | inl e ↦ rw (lookup-insert wid xid (window w) server.resources, e) refl
  | inr e ↦ rw (lookup-insert wid xid (window w) server.resources, e) refl
]

pub find_window-remove :
    (wid xid : ℕ) (server : XServer)
    → find_window (record server { resources = remove wid server.resources }) xid
      ≡ (if wid == xid then none else find_window server xid)
unfolding find_window
find_window-remove wid xid server = elim (Bool-cases (wid == xid)) [
  | inl e ↦ rw (lookup-remove wid xid server.resources, e) refl
  | inr e ↦ rw (lookup-remove wid xid server.resources, e) refl
]

pub find_window-update_same :
    (wid : ℕ) (f : WindowState → WindowState) (w : WindowState) (server : XServer)
    → find_window server wid ≡ some w
    → find_window (update_window wid f server) wid ≡ some (f w)
unfolding update_window
find_window-update_same wid f w server found =
    let itself : (wid == wid) ≡ true = ground arith in
    rw (found, update_window, find_window-put_window wid wid (f w) server, itself) refl

pub find_window-update_other :
    (wid xid : ℕ) (f : WindowState → WindowState) (server : XServer)
    → wid ≢ xid
    → find_window (update_window wid f server) xid ≡ find_window server xid
unfolding update_window
find_window-update_other wid xid f server other =
    let differs : (wid == xid) ≡ false = ground arith in
    elim (Option-cases (find_window server wid)) [
      | inl e ↦ rw (e, update_window) refl
      | inr (w, e) ↦
          rw (e, update_window, find_window-put_window wid xid (f w) server, differs) refl
    ]

pub update_window-gone :
    (wid : ℕ) (f : WindowState → WindowState) (server : XServer)
    → find_window server wid ≡ none
    → update_window wid f server ≡ server
unfolding update_window
update_window-gone wid f server gone = rw (gone, update_window) refl

pub find_window-of_remove :
    (wid xid : ℕ) (w : WindowState) (server : XServer)
    → find_window (record server { resources = remove wid server.resources }) xid ≡ some w
    → find_window server xid ≡ some w
find_window-of_remove wid xid w server found = elim (Bool-cases (wid == xid)) [
  | inl e ↦ absurd (cc (rw (find_window-remove wid xid server, e) at found))
  | inr e ↦ rw (find_window-remove wid xid server, e) at found
]
