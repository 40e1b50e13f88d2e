-- ===== src/Client/Display/Linked.antt =====
-- src/client/server_handlers.rs: requests on clients whose surfaces refer to each other.
use mathlib.Core.Path.{fun_ext, subst}
use wprs.Base.{
  ℕ, Option, none, some, ◌++◌, ◌==◌, ◌≡◌, refl, sym, ◌∙◌, inl, inr, Option-cases, Bool-cases, guard,
}
use wprs.Geometry.{ℤ, Point}
use wprs.Client.{
  RemoteRole, RemoteSurface, RemoteXdgToplevel, Asked, Compositor, ClientState, Outcome, left_by,
  Action, ◌>>=◌, ◌>>◌, pure, lift, get, put, ask, wl_surface, or_insert_new, Surfaces,
  fresh_surface, as_sub_surface,
}
use wprs.Client
use wprs.Client.Commit.Roles.{no_sub_surface}
use wprs.Client.Settled.{Settled, Leaves, >>=-Leaves, lift_any-Leaves, ask-Leaves}
use wprs.Client.Settled.Lent.{rerole-IsLinked}
use wprs.Client.Subsurface.{sub_surface_of, dropped, unlink, handle_surface_destroy}
use wprs.Client.Subsurface.Linked.{IsLinked, insert-same}
use wprs.Client.Subsurface.Linking.{fresh-IsLinked}
use wprs.Client.Subsurface.Unlinking.{handle_surface_destroy-IsLinked}
use wprs.Client.XdgToplevel.{xdg_toplevel}
use wprs.Client.Display.{ToplevelRequestPayload, ToplevelRequest, PopupRequest, Seats}
use wprs.Client.Display.Requests.{
  drop_role, role_destroyed, cursor_surface, set_role, window_request, toplevel_request,
  popup_request, cursor_request,
}

none-some : {A : Type 0} {a : A} → none ≡ some a → ⊥
none-some e = cc

abbrev pub CanBeCursor : Option RemoteRole → Type 0
CanBeCursor none = Unit
CanBeCursor (some (RemoteRole.cursor c)) = Unit
CanBeCursor (some _) = ⊥

-- A surface that has kept its local surface.
keeps_local :
    (s : RemoteSurface) (role : Option RemoteRole)
    → s.role ≡ role
    → CanBeCursor role
    → (sub_surface_of s ≡ none) × (wl_surface s ≡ s.local_surface)
unfolding sub_surface_of wl_surface as_sub_surface
keeps_local s none e f = (rw e refl, rw e refl)
keeps_local s (some (RemoteRole.cursor c)) e f = (rw e refl, rw e refl)
keeps_local s (some (RemoteRole.sub_surface r)) e f = absurd f
keeps_local s (some (RemoteRole.xdg_toplevel r)) e f = absurd f
keeps_local s (some (RemoteRole.xdg_popup r)) e f = absurd f

remove-insert :
    (k : ℕ) (t : RemoteSurface) (m : Surfaces)
    → Client.remove k (Client.insert k t m) ≡ Client.remove k m
remove-insert k t m =
    fun_ext
      (λ j. elim (Bool-cases (j == k)) [ inl same ↦ rw same refl | inr other ↦ rw other refl ])

abbrev Held : ℕ → RemoteSurface → Surfaces → Type 0
Held k s m = IsLinked m × (m k ≡ some s) × CanBeCursor s.role

module _ {B : Type 0} (k : ℕ) where
  -- The end of a surface that is no subsurface.
  root-destroyed :
      (s : RemoteSurface) (c : ClientState B)
      → c.surfaces k ≡ some s
      → sub_surface_of s ≡ none
      → handle_surface_destroy k c
        ≡ Outcome.ok
            (record c { surfaces = Client.remove k c.surfaces; asked = c.asked ++ dropped s })
            tt
  unfolding handle_surface_destroy unlink
  root-destroyed s c there root = rw (handle_surface_destroy, there, unlink, root) refl

  role_destroyed-eq :
      (s : RemoteSurface) (c : ClientState B)
      → sub_surface_of s ≡ none
      → role_destroyed k s c
        ≡ handle_surface_destroy k
            (record c { surfaces = Client.insert k (record s { role = none }) c.surfaces })
  unfolding role_destroyed drop_role put
  role_destroyed-eq s c root = rw (role_destroyed, drop_role, root) refl

  -- A surface that is no subsurface, at the end of its role.
  role_destroyed-IsLinked :
      (s : RemoteSurface) (c : ClientState B)
      → IsLinked c.surfaces
      → c.surfaces k ≡ some s
      → sub_surface_of s ≡ none
      → Settled (λ u. IsLinked) IsLinked (role_destroyed k s c)
  unfolding sub_surface_of
  role_destroyed-IsLinked s c h there root =
      let t = record s { role = none } in
      let c1 = record c { surfaces = Client.insert k t c.surfaces } in
      rw (role_destroyed-eq s c root, root-destroyed t c1 (insert-same k t c.surfaces) refl)
        (subst IsLinked (sym (remove-insert k t c.surfaces)) (
          subst (λ o. IsLinked (left_by o).surfaces) (root-destroyed s c there root)
            (handle_surface_destroy-IsLinked k c h)))

  asked : (a : Asked) → Leaves IsLinked (λ u. IsLinked) IsLinked (ask {B = B} a)
  asked a = ask-Leaves IsLinked IsLinked (λ m h. h) a

  lifted : {A : Type 0} (o : Option A) → Leaves IsLinked (λ a. IsLinked) IsLinked (lift {B = B} o)
  lifted o = lift_any-Leaves IsLinked IsLinked (λ m h. h) o

  only_linked :
      {s : RemoteSurface} {act : Action B (Unit {0})}
      → Leaves IsLinked (λ u. IsLinked) IsLinked act
      → Leaves (λ m. IsLinked m × (m k ≡ some s)) (λ u. IsLinked) IsLinked act
  only_linked l = record { run = λ c p. l.run c p.0 }

  -- A request about a window, whatever it is.
  window_request-IsLinked :
      (seats : Seats) (s : RemoteSurface) (payload : ToplevelRequestPayload) (t : RemoteXdgToplevel)
      → sub_surface_of s ≡ none
      → Leaves
          (λ m. IsLinked m × (m k ≡ some s))
          (λ u. IsLinked)
          IsLinked
          (window_request {B = B} seats k s payload t)
  unfolding window_request ask
  window_request-IsLinked seats s ToplevelRequestPayload.destroyed t root = record {
    run = λ c p. role_destroyed-IsLinked s c p.0 p.1 root;
  }
  window_request-IsLinked seats s ToplevelRequestPayload.set_maximized t root = record {
    run = λ c p. p.0;
  }
  window_request-IsLinked seats s ToplevelRequestPayload.unset_maximized t root = record {
    run = λ c p. p.0;
  }
  window_request-IsLinked seats s ToplevelRequestPayload.set_fullscreen t root = record {
    run = λ c p. p.0;
  }
  window_request-IsLinked seats s ToplevelRequestPayload.unset_fullscreen t root = record {
    run = λ c p. p.0;
  }
  window_request-IsLinked seats s ToplevelRequestPayload.set_minimized t root = record {
    run = λ c p. p.0;
  }
  window_request-IsLinked seats s (ToplevelRequestPayload.move_by serial) t root =
      only_linked (>>=-Leaves IsLinked (λ a. IsLinked) (lifted seats.seat) (λ a. asked _))
  window_request-IsLinked seats s (ToplevelRequestPayload.resize serial edge) t root = only_linked (
      >>=-Leaves IsLinked (λ a. IsLinked) (lifted seats.seat)
        (λ a.
          >>=-Leaves IsLinked (λ u. IsLinked) (lifted (guard (seats.is_edge edge))) (λ u. asked _)))

  -- Where a surface that is missing is made, none was there before.
  or_insert_new-kept :
      (compositor : Compositor B) (client_id : ℕ) (c : ClientState B)
      → IsLinked c.surfaces
      → ((s : RemoteSurface) → c.surfaces k ≡ some s → CanBeCursor s.role)
      → Settled
          (λ s m. IsLinked m × (m k ≡ some s) × CanBeCursor s.role)
          IsLinked
          (or_insert_new compositor k client_id k c)
  unfolding or_insert_new Client.new put fresh_surface
  or_insert_new-kept compositor client_id c h free = elim (Option-cases (c.surfaces k)) [
    | inr (s, there) ↦ rw (or_insert_new, there) (h, there, free s there)
    | inl missing ↦ elim (Option-cases (compositor.new_surface c.asked)) [
      | inl failed ↦ rw (or_insert_new, missing, ◌>>=◌, Client.new, failed) h
      | inr (l, made) ↦
          rw (or_insert_new, missing, ◌>>=◌, Client.new, made)
            (fresh-IsLinked c.surfaces client_id k l h missing, insert-same k _ c.surfaces, tt)
    ]
  ]

  set_role-IsLinked :
      (client_id : ℕ) (s : RemoteSurface)
      → Leaves (Held k s) (λ s'. IsLinked) IsLinked (set_role {B = B} client_id k s)
  unfolding set_role drop_role put cursor_surface wl_surface
  set_role-IsLinked client_id s = record {
    run = λ c p.
        let kept = keeps_local s s.role refl p.2 in
        let shown = (p.0 k s p.1).shown in
        rw (set_role, drop_role, kept.0)
          (rerole-IsLinked c.surfaces k s (cursor_surface client_id s) shown.0 p.0 p.1 kept.0 refl
            refl (sym kept.1 ∙ shown.1));
  }

  -- A surface that is or becomes the cursor.
  pub cursor_request-IsLinked :
      (compositor : Compositor B) (serial client_id : ℕ) (hotspot : Point ℤ)
      → Leaves
          (λ m. IsLinked m × ((s : RemoteSurface) → m k ≡ some s → CanBeCursor s.role))
          (λ u. IsLinked)
          IsLinked
          (cursor_request compositor serial client_id k hotspot)
  unfolding cursor_request
  cursor_request-IsLinked compositor serial client_id hotspot =
      >>=-Leaves IsLinked (Held k)
        (record { run = λ c p. or_insert_new-kept compositor client_id c p.0 p.1 })
        (λ s.
          >>=-Leaves IsLinked (λ s'. IsLinked) (set_role-IsLinked client_id s)
            (λ s'. >>=-Leaves IsLinked (λ wl. IsLinked) (lifted (wl_surface s')) (λ wl. asked _)))

module _ {B : Type 0} where
  -- A request about a surface of a client that may be a window.
  pub toplevel_request-IsLinked :
      (seats : Seats) (r : ToplevelRequest)
      → Leaves IsLinked (λ u. IsLinked) IsLinked (toplevel_request {B = B} seats r)
  unfolding toplevel_request
  toplevel_request-IsLinked seats r = record {
    run = λ c h. elim (Option-cases (c.surfaces r.surface)) [
      | inl missing ↦ rw (toplevel_request, missing) h
      | inr (s, there) ↦ elim (Option-cases (xdg_toplevel s)) [
        | inl other ↦ rw (toplevel_request, there, other) h
        | inr (t, window) ↦
            rw (toplevel_request, there, window)
              ((window_request-IsLinked r.surface seats s r.payload t
                  (no_sub_surface s t window)).run
                c (h, there))
      ]
    ];
  }

  -- A popup that ends, on a surface that is no subsurface.
  pub popup_request-IsLinked :
      (r : PopupRequest)
      → Leaves
          (λ m. IsLinked m × ((s : RemoteSurface) → m r.surface ≡ some s → sub_surface_of s ≡ none))
          (λ u. IsLinked)
          IsLinked
          (popup_request {B = B} r)
  unfolding popup_request get
  popup_request-IsLinked r = record {
    run = λ c p. elim (Option-cases (c.surfaces r.surface)) [
      | inl missing ↦ rw (popup_request, ◌>>=◌, get, missing) p.0
      | inr (s, there) ↦
          rw (popup_request, ◌>>=◌, get, there)
            (role_destroyed-IsLinked r.surface s c p.0 there (p.1 s there))
    ];
  }
