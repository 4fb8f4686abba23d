-- ===== src/Server/Windows/Destroy.antt =====
-- The destruction of a tree of windows ends when the tree is finite, and not when it has a cycle.
use psl_xserver.Prelude.{
  Bool, Bool-cases, List, Option, Option-cases, [], ap, arith, false, if◌then◌else◌, inl, inr, none,
  refl, some, subst, suc, sym, true, unwrap_or, zero, ℕ, ◌==◌, ◌∙◌, ◌∷◌, ◌≡◌, ◌≢◌, ◌⊎◌,
}
use psl_xserver.Prelude.Assoc.{bytes_eq, nat_eq, remove}
use psl_xserver.Resources.{NativeWindowHandle, WindowState}
use psl_xserver.Server.{XServer, command, find_window, update_window}
use psl_xserver.Server.Lookup.{
  find_window-of_remove, find_window-remove, find_window-update_other, find_window-update_same,
  update_window-gone,
}
use psl_xserver.Server.Windows.{
  destroy_handle, destroy_window_recursive, drop_child, for_each, take_out, unlink_parent, without,
}

abbrev pub IsIn : ℕ → List ℕ → Type 0
IsIn c [] = ⊥
IsIn c (d ∷ ds) = (c ≡ d) ⊎ IsIn c ds

-- The paths down from the window, itself included, have at most that many ids.
abbrev pub HasDepth : ℕ → XServer → ℕ → Type 0
HasDepth zero server wid = ⊥
HasDepth (suc n) server wid =
    (w : WindowState)
    → find_window server wid ≡ some w
    → (c : ℕ) → IsIn c w.children
    → HasDepth n server c

-- The windows of the second state are in the first, with all their children.
abbrev pub Shrinks : XServer → XServer → Type 0
Shrinks old new =
    (xid : ℕ) (w : WindowState)
    → find_window new xid ≡ some w
    → (v : WindowState) × (find_window old xid ≡ some v)
      × ((c : ℕ) → IsIn c w.children → IsIn c v.children)

Shrinks-trans : (a b c : XServer) → Shrinks a b → Shrinks b c → Shrinks a c
Shrinks-trans a b c ab bc xid w found =
    let (v, found_b, sub) = bc xid w found in
    let (u, found_a, sub') = ab xid v found_b in (u, found_a, λ x i. sub' x (sub x i))

pub HasDepth-Shrinks :
    (n : ℕ) (old new : XServer) (wid : ℕ)
    → Shrinks old new
    → HasDepth n old wid
    → HasDepth n new wid
HasDepth-Shrinks zero old new wid s h = h
HasDepth-Shrinks (suc n) old new wid s h = λ w found c i.
    let (v, found', sub) = s wid w found in HasDepth-Shrinks n old new c s (h v found' c (sub c i))

IsIn-if :
    (b : Bool) (d : ℕ) (xs : List ℕ) (c : ℕ)
    → IsIn c (if b then xs else d ∷ xs)
    → (c ≡ d) ⊎ IsIn c xs
IsIn-if true d xs c i = inr i
IsIn-if false d xs c i = i

IsIn-without : (wid : ℕ) (cs : List ℕ) (c : ℕ) → IsIn c (without wid cs) → IsIn c cs
unfolding without
IsIn-without wid [] c i = i
IsIn-without wid (d ∷ ds) c i = elim (IsIn-if (d == wid) d (without wid ds) c i) [
  | inl same ↦ inl same
  | inr later ↦ inr (IsIn-without wid ds c later)
]

some-injective : (v w : WindowState) → some v ≡ some w → v ≡ w
some-injective v w e = ap (unwrap_or v) e

update_window-Shrinks :
    (wid parent : ℕ) (server : XServer)
    → Shrinks server (update_window parent (drop_child wid) server)
update_window-Shrinks wid parent server xid w found = elim (Bool-cases (parent == xid)) [
  | inr e ↦
      let other : parent ≢ xid = ground arith in
      (w, sym (find_window-update_other parent xid (drop_child wid) server other) ∙ found, λ c i. i)
  | inl e ↦
      let same : parent ≡ xid = ground arith in
      elim (Option-cases (find_window server xid)) [
        | inl gone ↦
            let missing : find_window server parent ≡ none = rw same gone in
            let unchanged = update_window-gone parent (drop_child wid) server missing in
            (w, sym (ap (λ s. find_window s xid) unchanged) ∙ found, λ c i. i)
        | inr (v, there) ↦
            let now = find_window-update_same xid (drop_child wid) v server there in
            let here' : find_window (update_window xid (drop_child wid) server) xid ≡ some w =
              subst (λ p. find_window (update_window p (drop_child wid) server) xid ≡ some w) same
                found in
            let w_is = some-injective (drop_child wid v) w (sym now ∙ here') in
            let listed : (c : ℕ) → IsIn c w.children → IsIn c (without wid v.children) = λ c i.
              unfold drop_child in subst (λ u. IsIn c (WindowState.children u)) (sym w_is) i in
            (v, there, λ c i. IsIn-without wid v.children c (listed c i))
      ]
]

destroy_handle-windows :
    (native : Option NativeWindowHandle) (server : XServer) (xid : ℕ)
    → find_window (destroy_handle native server) xid ≡ find_window server xid
unfolding destroy_handle command find_window
destroy_handle-windows none server xid = refl
destroy_handle-windows (some handle) server xid = refl

unlink_parent-Shrinks :
    (wid parent : ℕ) (server : XServer) → Shrinks server (unlink_parent wid parent server)
unfolding unlink_parent
unlink_parent-Shrinks wid parent server = elim (Bool-cases (parent == 0)) [
  | inl e ↦ rw e (λ xid w found. (w, found, λ c i. i))
  | inr e ↦ rw e (update_window-Shrinks wid parent server)
]

-- The window is gone, and nothing is new.
take_out-Shrinks :
    (wid parent : ℕ) (native : Option NativeWindowHandle) (server : XServer)
    → Shrinks server (take_out wid parent native server)
      × (find_window (take_out wid parent native server) wid ≡ none)
unfolding take_out
take_out-Shrinks wid parent native server =
    let unlinked = unlink_parent wid parent server in
    let closed = destroy_handle native unlinked in
    let itself : (wid == wid) ≡ true = ground arith in
    let later : Shrinks unlinked
        (record closed { resources = remove wid (XServer.resources closed) }) =
      λ xid w found. (
        w,
        sym (destroy_handle-windows native unlinked xid)
            ∙ find_window-of_remove wid xid w closed found,
        λ c i. i,
      ) in
    (
      Shrinks-trans server unlinked
          (record closed { resources = remove wid (XServer.resources closed) })
          (unlink_parent-Shrinks wid parent server) later,
      rw (find_window-remove wid wid closed, itself) refl,
    )

module _ (step : ℕ → XServer → Option XServer) (n : ℕ)
    (step_total : (wid : ℕ) (server : XServer)
      → HasDepth n server wid
      → (server' : XServer) × (step wid server ≡ some server')
        × Shrinks server server'
        × (find_window server' wid ≡ none)) where
  pub for_each_total :
      (cs : List ℕ) (server : XServer)
      → ((c : ℕ) → IsIn c cs → HasDepth n server c)
      → (server' : XServer) × (for_each step cs server ≡ some server') × Shrinks server server'
  unfolding for_each
  for_each_total [] server h = (server, refl, λ xid w found. (w, found, λ c i. i))
  for_each_total (c ∷ cs) server h =
      let (mid, done, shrunk, gone) = step_total c server (h c (inl refl)) in
      let (last, rest, shrunk') =
        for_each_total cs mid (λ d i. HasDepth-Shrinks n server mid d shrunk (h d (inr i))) in
      (last, rw (done, for_each) rest, Shrinks-trans server mid last shrunk shrunk')

-- A window whose tree is no deeper than the fuel is destroyed: the recursion ends, the window is
-- gone from the table, and the windows that are left were there before and have no new children.
-- The depth counts the ids on a path down from the window, its own included.
pub destroy_window_recursive_total :
    (fuel wid : ℕ) (server : XServer)
    → HasDepth fuel server wid
    → (server' : XServer) × (destroy_window_recursive fuel wid server ≡ some server')
      × Shrinks server server'
      × (find_window server' wid ≡ none)
unfolding destroy_window_recursive
destroy_window_recursive_total zero wid server h = absurd h
destroy_window_recursive_total (suc fuel) wid server h =
    elim (Option-cases (find_window server wid)) [
      | inl gone ↦ (
        server,
        rw (gone, destroy_window_recursive) refl,
        λ xid w found. (w, found, λ c i. i),
        gone,
      )
      | inr (w, found) ↦
          let (mid, done, shrunk) =
            for_each_total (destroy_window_recursive fuel) fuel
              (destroy_window_recursive_total fuel) w.children server (h w found) in
          let (shrunk', gone) = take_out-Shrinks wid w.parent w.native_window mid in
          (
            take_out wid w.parent w.native_window mid,
            rw (found, destroy_window_recursive, done) refl,
            Shrinks-trans server mid (take_out wid w.parent w.native_window mid) shrunk shrunk',
            gone,
          )
    ]
