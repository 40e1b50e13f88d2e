-- ===== src/Client/Display/Separate.antt =====
-- src/client/server_handlers.rs: what the requests of other clients leave alone.
use mathlib.Core.Path.{subst}
use wprs.Base.{
  ℕ, Bool, true, false, not, Option, none, some, List, [], ◌∷◌, ◌==◌, ◌≡◌, refl, ◌∙◌, All, inl, inr,
  Option-cases, if◌then◌else◌, ◌&&◌,
}
use wprs.Wayland.{SurfaceState}
use wprs.Messages.{RecvType}
use wprs.Client.{Compositor, Outcome, Action}
use wprs.Client.Buffers.{Pool, handle_buffer}
use wprs.Client.Commit
use wprs.Client.Subsurface.{is_some}
use wprs.Client.Display.{
  RemoteClient, client_at, SurfaceRequestPayload, SurfaceRequest, ToplevelRequest, PopupRequest,
  CursorImageStatus, CursorImage, Capabilities, Request, Display, Seats, Handled, after, last,
  state_of, returned, write_back, on_client, ask_for,
}
use wprs.Client.Display.Requests.{toplevel_request, popup_request}
use wprs.Client.Display.Handlers.{
  ends_window, commit_surface, handle_surface, handle_toplevel, handle_popup, cursor_changed,
  handle_cursor_image, handle_client_disconnected, handle_capabilities, handle, handle_request,
  handle_requests,
}

-- The request is about another client, or about none.
abbrev pub SparesStatus : ℕ → CursorImageStatus → Type 0
SparesStatus id (CursorImageStatus.surface client_id surface_id hotspot) = (id == client_id) ≡ false
SparesStatus id _ = Unit

abbrev pub Spares : ℕ → RecvType Request → Type 0
Spares id (RecvType.object (Request.surface r)) = (id == r.client) ≡ false
Spares id (RecvType.object (Request.toplevel r)) = (id == r.client) ≡ false
Spares id (RecvType.object (Request.popup r)) = (id == r.client) ≡ false
Spares id (RecvType.object (Request.cursor_image i)) = SparesStatus id i.status
Spares id (RecvType.object (Request.client_disconnected k)) = (id == k) ≡ false
Spares id (RecvType.object (Request.capabilities caps)) = Unit
Spares id (RecvType.raw_buffer bytes) = Unit

module _ {P B : Type 0} (id : ℕ) where
  abbrev Same : Display P B → Handled P B → Type 0
  Same d h = (after h).clients id ≡ d.clients id

  abbrev SameAfter : Display P B → Option (Handled P B) → Type 0
  SameAfter d none = Unit
  SameAfter d (some h) = Same d h

  returned-Same :
      (k : ℕ) (client : RemoteClient) (d : Display P B) (o : Outcome B (Unit {0}))
      → (id == k) ≡ false
      → Same d (returned k client d o)
  unfolding returned write_back
  returned-Same k client d (Outcome.err c) n = rw n refl
  returned-Same k client d (Outcome.ok c u) n = rw n refl

  on_client-Same :
      (k : ℕ) (act : Action B (Unit {0})) (d : Display P B)
      → (id == k) ≡ false
      → Same d (on_client k act d)
  unfolding on_client
  on_client-Same k act d n = returned-Same k _ d _ n

  ask_for-Same : (b : Bool) (a : _) (d : Display P B) → Same d (ask_for b a d)
  unfolding ask_for
  ask_for-Same true a d = refl
  ask_for-Same false a d = refl

  unless-Same :
      (b : Bool) (d : Display P B) (h : Handled P B)
      → Same d h
      → Same d (if b then Handled.ok d else h)
  unless-Same true d h s = refl
  unless-Same false d h s = s

  module _ (compositor : Compositor B) (pool : Pool P) (seats : Seats) (fuel : ℕ) where
    commit_surface-Same :
        (k surface_id : ℕ) (state : SurfaceState) (client : RemoteClient) (d : Display P B)
        → (id == k) ≡ false
        → SameAfter d (commit_surface compositor pool seats fuel k surface_id state client d)
    unfolding commit_surface
    commit_surface-Same k surface_id state client d n =
        elim (Option-cases (
          Commit.handle_commit compositor pool fuel client.id surface_id d.title_prefix state
            d.buffer_cache d.slots (state_of client d))) [
              | inl failed ↦ rw (SameAfter, commit_surface, failed) tt
              | inr ((o, cache, p), done) ↦
                  rw (SameAfter, commit_surface, done)
                    (returned-Same k client (record d { buffer_cache = cache; slots = p }) o n)
            ]

    handle_surface-Same :
        (r : SurfaceRequest) (d : Display P B)
        → (id == r.client) ≡ false
        → SameAfter d (handle_surface compositor pool seats fuel r d)
    unfolding handle_surface
    handle_surface-Same r d n = same r.payload
      where
        same :
            (payload : SurfaceRequestPayload)
            → SameAfter d
                (handle_surface compositor pool seats fuel (record r { payload = payload }) d)
        same (SurfaceRequestPayload.commit state) =
            commit_surface-Same r.client r.surface state (client_at r.client d.clients) d n
        same SurfaceRequestPayload.destroyed = elim (Option-cases (d.clients r.client)) [
          | inl gone ↦ rw gone refl
          | inr (client, there) ↦ rw there (on_client-Same r.client _ d n)
        ]

    handle_toplevel-Same :
        (r : ToplevelRequest) (d : Display P B)
        → (id == r.client) ≡ false
        → Same d (handle_toplevel compositor pool seats fuel r d)
    unfolding handle_toplevel
    handle_toplevel-Same r d n =
        unless-Same (ends_window r.payload && not (is_some (d.clients r.client))) d
          (on_client r.client (toplevel_request seats r) d)
          (on_client-Same r.client (toplevel_request seats r) d n)

    handle_popup-Same :
        (r : PopupRequest) (d : Display P B)
        → (id == r.client) ≡ false
        → Same d (handle_popup compositor pool seats fuel r d)
    unfolding handle_popup
    handle_popup-Same r d n =
        unless-Same (not (is_some (d.clients r.client))) d (on_client r.client (popup_request r) d)
          (on_client-Same r.client (popup_request r) d n)

    cursor_changed-Same :
        (status : CursorImageStatus) (d : Display P B)
        → SparesStatus id status
        → Same d (cursor_changed compositor pool seats fuel status d)
    unfolding cursor_changed
    cursor_changed-Same CursorImageStatus.hidden d n = ask_for-Same _ _ d
    cursor_changed-Same (CursorImageStatus.named name) d n = ask_for-Same _ _ d
    cursor_changed-Same (CursorImageStatus.surface k surface_id hotspot) d n =
        elim (Option-cases (d.clients k)) [
          | inl gone ↦ rw (cursor_changed, gone) refl
          | inr (client, there) ↦ rw (cursor_changed, there) (returned-Same k client d _ n)
        ]

    handle_cursor_image-Same :
        (i : CursorImage) (d : Display P B)
        → SparesStatus id i.status
        → Same d (handle_cursor_image compositor pool seats fuel i d)
    unfolding handle_cursor_image
    handle_cursor_image-Same i d n = elim (Option-cases (last d.has_pointer)) [
      | inl no_seat ↦ rw (handle_cursor_image, no_seat) refl
      | inr (b, seat) ↦ rw (handle_cursor_image, seat) (if_pointer b)
    ]
      where
        if_pointer :
            (b : Bool)
            → Same d
                (if b then cursor_changed compositor pool seats fuel i.status d else Handled.ok d)
        if_pointer true = cursor_changed-Same i.status d n
        if_pointer false = refl

    handle_client_disconnected-Same :
        (k : ℕ) (d : Display P B)
        → (id == k) ≡ false
        → Same d (handle_client_disconnected compositor pool seats fuel k d)
    unfolding handle_client_disconnected
    handle_client_disconnected-Same k d n = elim (Option-cases (d.clients k)) [
      | inl gone ↦ rw gone refl
      | inr (client, there) ↦ rw (there, after, n) refl
    ]

    handle_capabilities-Same :
        (caps : Capabilities) (d : Display P B)
        → Same d (handle_capabilities compositor pool seats fuel caps d)
    unfolding handle_capabilities
    handle_capabilities-Same caps d = elim (Option-cases d.capabilities) [
      | inl new ↦ rw new refl
      | inr (caps', set) ↦ rw set refl
    ]

    handle-Same :
        (r : RecvType Request) (d : Display P B)
        → Spares id r
        → SameAfter d (handle compositor pool seats fuel r d)
    unfolding handle
    handle-Same (RecvType.object (Request.surface r)) d n = handle_surface-Same r d n
    handle-Same (RecvType.object (Request.toplevel r)) d n = handle_toplevel-Same r d n
    handle-Same (RecvType.object (Request.popup r)) d n = handle_popup-Same r d n
    handle-Same (RecvType.object (Request.cursor_image i)) d n = handle_cursor_image-Same i d n
    handle-Same (RecvType.object (Request.client_disconnected k)) d n =
        handle_client_disconnected-Same k d n
    handle-Same (RecvType.object (Request.capabilities caps)) d n = handle_capabilities-Same caps d
    handle-Same (RecvType.raw_buffer bytes) d n = elim (Option-cases (handle_buffer pool bytes)) [
      | inl panics ↦ rw (SameAfter, handle, panics) tt
      | inr (v, done) ↦ rw (SameAfter, handle, done) refl
    ]

    -- A client's surfaces are the same after requests that are all about other clients, or about
    -- none, whether or not these fail, in `apply_buffer` or elsewhere, as long as none panics
    -- over a buffer.
    pub handle_requests-spared :
        (rs : List (RecvType Request)) (d d' : Display P B)
        → All (Spares id) rs
        → handle_requests compositor pool seats fuel rs d ≡ some d'
        → d'.clients id ≡ d.clients id
    unfolding handle_requests handle_request
    handle_requests-spared [] d d' a e = cc
    handle_requests-spared (r ∷ rs) d d' a e =
        elim (Option-cases (handle compositor pool seats fuel r d)) [
          | inl stuck ↦ absurd (cc (rw (handle_requests, handle_request, stuck) at e))
          | inr (h, handled) ↦
              handle_requests-spared rs (after h) d' a.1
                (rw (handle_requests, handle_request, handled) at e)
              ∙ subst (SameAfter d) handled (handle-Same r d a.0)
        ]
