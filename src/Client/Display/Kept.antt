-- ===== src/Client/Display/Kept.antt =====
-- src/client/server_handlers.rs: each handler, on clients whose surfaces refer to each other.
use mathlib.Core.Path.{subst}
use wprs.Base.{
  ℕ, Bool, true, false, not, Option, none, some, ◌==◌, ◌≡◌, refl, inl, inr, Option-cases,
  Bool-cases, if◌then◌else◌, ◌&&◌,
}
use wprs.Wayland.{SurfaceState}
use wprs.Messages.{RecvType}
use wprs.Client.{Compositor, Surfaces}
use wprs.Client.Buffers.{Pool, handle_buffer}
use wprs.Client.Commit
use wprs.Client.Commit.Branches.{handle_commit-IsLinked}
use wprs.Client.Settled.{Takes-Leaves}
use wprs.Client.Settled.Lent.{IsLinkedBut, IsLinked-IsLinkedBut}
use wprs.Client.Stacking.Ids.{IsDistinct}
use wprs.Client.Subsurface.{is_some, handle_surface_destroy}
use wprs.Client.Subsurface.Linked.{IsLinked}
use wprs.Client.Subsurface.Unlinking.{handle_surface_destroy-IsLinked}
use wprs.Client.Display.{
  client_at, SurfaceRequestPayload, SurfaceRequest, ToplevelRequest, PopupRequest,
  CursorImageStatus, CursorImage, Request, Display, Seats, Handled, last, state_of, on_client,
}
use wprs.Client.Display.Requests.{toplevel_request}
use wprs.Client.Display.Handlers.{
  ends_window, commit_surface, handle_surface, handle_toplevel, handle_popup, cursor_changed,
  handle_cursor_image, handle_client_disconnected, handle_capabilities, handle,
}
use wprs.Client.Display.Linked.{
  toplevel_request-IsLinked, popup_request-IsLinked, cursor_request-IsLinked,
}
use wprs.Client.Display.Served.{
  Serves, IsSurfacePromise, IsCursorPromise, IsPromise, AfterError, HandledAs, client_at-served,
  returned-HandledAs, on_client-HandledAs, ask_for-HandledAs, unless-HandledAs, none-some,
}

abbrev AllHandledAs : {P B : Type 0} → (Surfaces → Type 0) → Option (Handled P B) → Type 0
AllHandledAs R none = Unit
AllHandledAs R (some h) = HandledAs R h

module _ {P B : Type 0} (compositor : Compositor B) (pool : Pool P) (seats : Seats) (fuel : ℕ) where
  -- The properties of the cases where a failure leaves all as it should be.
  abbrev same : (s : Surfaces) → IsLinked s → IsLinked s
  same s l = l

  commit_surface-AllHandledAs :
      (id surface_id : ℕ) (state : SurfaceState) (d : Display P B)
      → Serves IsLinked d.clients
      → IsDistinct state.z_ordered_children
      → AllHandledAs
          (IsLinkedBut surface_id)
          (commit_surface compositor pool seats fuel id surface_id state (client_at id d.clients) d)
  unfolding commit_surface
  commit_surface-AllHandledAs id surface_id state d h n =
      let client = client_at id d.clients in
      let served = client_at-served id d.clients h in
      elim (Option-cases (
        Commit.handle_commit compositor pool fuel client.id surface_id d.title_prefix state
          d.buffer_cache d.slots (state_of client d))) [
            | inl failed ↦ rw (AllHandledAs, commit_surface, failed) tt
            | inr ((o, cache, p), done) ↦
                rw (AllHandledAs, commit_surface, done)
                  (returned-HandledAs (IsLinkedBut surface_id) (IsLinked-IsLinkedBut surface_id) id
                    client (record d { buffer_cache = cache; slots = p }) o h served.0
                    (handle_commit-IsLinked compositor surface_id pool fuel client.id d.title_prefix
                      state d.buffer_cache cache d.slots p (state_of client d) o served.1 n done))
          ]

  handle_surface-AllHandledAs :
      (r : SurfaceRequest) (d : Display P B)
      → Serves IsLinked d.clients
      → IsSurfacePromise r.payload
      → AllHandledAs (IsLinkedBut r.surface) (handle_surface compositor pool seats fuel r d)
  unfolding handle_surface
  handle_surface-AllHandledAs r d h = by_payload r.payload
    where
      by_payload :
          (payload : SurfaceRequestPayload)
          → IsSurfacePromise payload
          → AllHandledAs
              (IsLinkedBut r.surface)
              (handle_surface compositor pool seats fuel (record r { payload = payload }) d)
      by_payload (SurfaceRequestPayload.commit state) n =
          commit_surface-AllHandledAs r.client r.surface state d h n
      by_payload SurfaceRequestPayload.destroyed n = elim (Option-cases (d.clients r.client)) [
        | inl gone ↦ rw gone h
        | inr (client, there) ↦ rw there (
            on_client-HandledAs (IsLinkedBut r.surface) (IsLinked-IsLinkedBut r.surface) r.client d
              h (client_at-served r.client d.clients h).1
              (Takes-Leaves (IsLinkedBut r.surface) IsLinked IsLinked
                (handle_surface_destroy r.surface) (IsLinked-IsLinkedBut r.surface)
                (record { run = λ c l. handle_surface_destroy-IsLinked r.surface c l })))
      ]

  handle_toplevel-HandledAs :
      (r : ToplevelRequest) (d : Display P B)
      → Serves IsLinked d.clients
      → HandledAs IsLinked (handle_toplevel compositor pool seats fuel r d)
  unfolding handle_toplevel
  handle_toplevel-HandledAs r d h =
      unless-HandledAs IsLinked same (ends_window r.payload && not (is_some (d.clients r.client))) d
        (on_client r.client (toplevel_request seats r) d) h
        (on_client-HandledAs IsLinked same r.client d h (client_at-served r.client d.clients h).1
          (toplevel_request-IsLinked seats r))

  handle_popup-HandledAs :
      (r : PopupRequest) (d : Display P B)
      → Serves IsLinked d.clients
      → IsPromise d.clients (RecvType.object (Request.popup r))
      → HandledAs IsLinked (handle_popup compositor pool seats fuel r d)
  unfolding handle_popup client_at
  handle_popup-HandledAs r d h n = elim (Option-cases (d.clients r.client)) [
    | inl gone ↦ rw (handle_popup, gone) h
    | inr (client, there) ↦
        let at_id : client_at r.client d.clients ≡ client = rw (client_at, there) refl in
        rw (handle_popup, there)
          (on_client-HandledAs IsLinked same r.client d h
            (rw at_id ((h r.client client there).1, λ s e. n client s there e))
            (popup_request-IsLinked r))
  ]

  cursor_changed-HandledAs :
      (status : CursorImageStatus) (d : Display P B)
      → Serves IsLinked d.clients
      → IsCursorPromise d.clients status
      → HandledAs IsLinked (cursor_changed compositor pool seats fuel status d)
  unfolding cursor_changed
  cursor_changed-HandledAs CursorImageStatus.hidden d h n = ask_for-HandledAs IsLinked same _ _ d h
  cursor_changed-HandledAs (CursorImageStatus.named name) d h n =
      ask_for-HandledAs IsLinked same _ _ d h
  cursor_changed-HandledAs (CursorImageStatus.surface id surface_id hotspot) d h n =
      elim (Option-cases (d.clients id)) [
        | inl gone ↦ rw (cursor_changed, gone) h
        | inr (client, there) ↦
            let served = h id client there in
            rw (cursor_changed, there)
              (returned-HandledAs IsLinked same id client d _ h served.0 (
                (cursor_request-IsLinked surface_id compositor d.last_enter_serial client.id
                    hotspot).run
                  (state_of client d) (served.1, λ s e. n client s there e)))
      ]

  handle_cursor_image-HandledAs :
      (i : CursorImage) (d : Display P B)
      → Serves IsLinked d.clients
      → IsCursorPromise d.clients i.status
      → HandledAs IsLinked (handle_cursor_image compositor pool seats fuel i d)
  unfolding handle_cursor_image
  handle_cursor_image-HandledAs i d h n = elim (Option-cases (last d.has_pointer)) [
    | inl no_seat ↦ rw (handle_cursor_image, no_seat) h
    | inr (b, seat) ↦ rw (handle_cursor_image, seat) (if_pointer b)
  ]
    where
      if_pointer :
          (b : Bool)
          → HandledAs IsLinked
              (if b then cursor_changed compositor pool seats fuel i.status d else Handled.ok d)
      if_pointer true = cursor_changed-HandledAs i.status d h n
      if_pointer false = h

  handle_client_disconnected-HandledAs :
      (id : ℕ) (d : Display P B)
      → Serves IsLinked d.clients
      → HandledAs IsLinked (handle_client_disconnected compositor pool seats fuel id d)
  unfolding handle_client_disconnected
  handle_client_disconnected-HandledAs id d h = elim (Option-cases (d.clients id)) [
    | inl gone ↦ rw (handle_client_disconnected, gone) h
    | inr (client, there) ↦
        rw (handle_client_disconnected, there)
          (λ k c e. elim (Bool-cases (k == id)) [
            | inl same ↦ absurd (none-some (rw same at e))
            | inr other ↦ h k c (rw other at e)
          ])
  ]

  -- On clients that are kept under their ids and whose surfaces refer to each other, and for a
  -- request as the server promises, `handle_request` leaves such clients, also after an error, in
  -- `apply_buffer` or elsewhere, except that the surface of a commit that failed may then be
  -- without a local surface; this is unless a buffer of the request makes it panic.
  pub handle-HandledAs :
      (r : RecvType Request) (d : Display P B) (h : Handled P B)
      → Serves IsLinked d.clients
      → IsPromise d.clients r
      → handle compositor pool seats fuel r d ≡ some h
      → HandledAs (AfterError r) h
  unfolding handle handle_capabilities
  handle-HandledAs r d h s n e = subst (AllHandledAs (AfterError r)) e (all r n)
    where
      all :
          (r : RecvType Request)
          → IsPromise d.clients r
          → AllHandledAs (AfterError r) (handle compositor pool seats fuel r d)
      all (RecvType.object (Request.surface r)) n = handle_surface-AllHandledAs r d s n
      all (RecvType.object (Request.toplevel r)) n = handle_toplevel-HandledAs r d s
      all (RecvType.object (Request.popup r)) n = handle_popup-HandledAs r d s n
      all (RecvType.object (Request.cursor_image i)) n = handle_cursor_image-HandledAs i d s n
      all (RecvType.object (Request.client_disconnected id)) n =
          handle_client_disconnected-HandledAs id d s
      all (RecvType.object (Request.capabilities caps)) n = elim (Option-cases d.capabilities) [
        | inl first ↦ rw (handle, handle_capabilities, first) s
        | inr (caps', set) ↦ rw (handle, handle_capabilities, set) s
      ]
      all (RecvType.raw_buffer bytes) n = elim (Option-cases (handle_buffer pool bytes)) [
        | inl panics ↦ rw (AllHandledAs, handle, panics) tt
        | inr (v, done) ↦ rw (AllHandledAs, handle, done) s
      ]
