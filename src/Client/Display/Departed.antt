-- ===== src/Client/Display/Departed.antt =====
-- src/client/server_handlers.rs: what comes for a client after it has gone.
use wprs.Base.{ℕ, true, none, some, List, [], ◌∷◌, ◌≡◌, refl, All, inl, inr, Option-cases, ==-true}
use wprs.Messages.{RecvType}
use wprs.Client.{Compositor}
use wprs.Client.Buffers.{Pool}
use wprs.Client.Display.{SurfaceRequestPayload, Request, Display, Seats, Handled, after}
use wprs.Client.Display.Handlers.{
  ends_window, handle_surface, handle_toplevel, handle_popup, handle_client_disconnected, handle,
  handle_request, handle_requests,
}

-- That a surface, a window, a popup or all of a client has ended.
abbrev pub Ends : ℕ → RecvType Request → Type 0
Ends id (RecvType.object (Request.surface r)) =
    (r.client ≡ id) × (r.payload ≡ SurfaceRequestPayload.destroyed)
Ends id (RecvType.object (Request.toplevel r)) = (r.client ≡ id) × (ends_window r.payload ≡ true)
Ends id (RecvType.object (Request.popup r)) = r.client ≡ id
Ends id (RecvType.object (Request.client_disconnected k)) = k ≡ id
Ends id _ = ⊥

module _ {P B : Type 0} (compositor : Compositor B) (pool : Pool P) (seats : Seats) (fuel : ℕ) where
  handle-departed :
      (id : ℕ) (r : RecvType Request) (d : Display P B)
      → d.clients id ≡ none
      → Ends id r
      → handle compositor pool seats fuel r d ≡ some (Handled.ok d)
  unfolding handle handle_surface handle_toplevel handle_popup handle_client_disconnected
  handle-departed id (RecvType.object (Request.surface r)) d gone e =
      rw (handle, handle_surface, e.1, e.0, gone) refl
  handle-departed id (RecvType.object (Request.toplevel r)) d gone e =
      rw (handle, handle_toplevel, e.1, e.0, gone) refl
  handle-departed id (RecvType.object (Request.popup r)) d gone e =
      rw (handle, handle_popup, e, gone) refl
  handle-departed id (RecvType.object (Request.client_disconnected k)) d gone e =
      rw (handle, handle_client_disconnected, e, gone) refl
  handle-departed id (RecvType.object (Request.cursor_image i)) d gone e = absurd e
  handle-departed id (RecvType.object (Request.capabilities caps)) d gone e = absurd e
  handle-departed id (RecvType.raw_buffer bytes) d gone e = absurd e

  handle_requests-departed :
      (id : ℕ) (rs : List (RecvType Request)) (d : Display P B)
      → d.clients id ≡ none
      → All (Ends id) rs
      → handle_requests compositor pool seats fuel rs d ≡ some d
  unfolding handle_requests handle_request
  handle_requests-departed id [] d gone a = refl
  handle_requests-departed id (r ∷ rs) d gone a =
      rw (handle_requests, handle_request, handle-departed id r d gone a.0)
        (handle_requests-departed id rs d gone a.1)

  disconnected-gone :
      (id : ℕ) (d : Display P B)
      → (after (handle_client_disconnected compositor pool seats fuel id d)).clients id ≡ none
  unfolding handle_client_disconnected
  disconnected-gone id d = elim (Option-cases (d.clients id)) [
    | inl gone ↦ rw (handle_client_disconnected, gone) gone
    | inr (client, there) ↦ rw (handle_client_disconnected, there, after, ==-true id id refl) refl
  ]

  -- Requests that say that surfaces, windows or popups of a client, or the client, have ended
  -- change nothing once the client is gone, and ask nothing of the local compositor.
  pub handle_requests-disconnected :
      (id : ℕ) (rs : List (RecvType Request)) (d : Display P B)
      → All (Ends id) rs
      → let gone = RecvType.object (Request.client_disconnected id) in
        handle_requests compositor pool seats fuel (gone ∷ rs) d
        ≡ handle_requests compositor pool seats fuel (gone ∷ []) d
  unfolding handle_requests handle_request handle
  handle_requests-disconnected id rs d a =
      handle_requests-departed id rs
        (after (handle_client_disconnected compositor pool seats fuel id d))
        (disconnected-gone id d) a
