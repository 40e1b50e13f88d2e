-- ===== src/Client/Display/Reachable.antt =====
-- src/client/server_handlers.rs: all that requests can lead to.
use wprs.Base.{ℕ, none, some, ◌≡◌, sym, ◌∙◌}
use wprs.Messages.{RecvType}
use wprs.Client.{Compositor}
use wprs.Client.Buffers.{Pool}
use wprs.Client.Subsurface.Linked.{IsLinked}
use wprs.Client.Display.{Request, Display, Seats, Handled, after}
use wprs.Client.Display.Handlers.{handle}
use wprs.Client.Display.Served.{Serves, IsPromise, AfterError, HandledAs, none-some}
use wprs.Client.Display.Kept.{handle-HandledAs}

-- Any outcome but the failure of a commit.
abbrev pub IsKept : {P B : Type 0} → RecvType Request → Handled P B → Type 0
IsKept (RecvType.object (Request.surface r)) (Handled.err d) = ⊥
IsKept _ _ = Unit

module _ {P B : Type 0} (compositor : Compositor B) (pool : Pool P) (seats : Seats) (fuel : ℕ) where
  -- The displays that requests lead to from one without clients, when they are as the server
  -- promises and no commit fails; others may fail.
  pub data Reaches : Display P B → Type 0 where
    started : (d : Display P B) → ((id : ℕ) → d.clients id ≡ none) → Reaches d
    handled :
        {d : Display P B} (r : RecvType Request) (h : Handled P B)
        → Reaches d
        → IsPromise d.clients r
        → handle compositor pool seats fuel r d ≡ some h
        → IsKept r h
        → Reaches (after h)

  kept-Serves :
      (r : RecvType Request) (h : Handled P B)
      → IsKept r h
      → HandledAs (AfterError r) h
      → Serves IsLinked (after h).clients
  kept-Serves r (Handled.ok d) k s = s
  kept-Serves (RecvType.object (Request.surface r)) (Handled.err d) k s = absurd k
  kept-Serves (RecvType.object (Request.toplevel r)) (Handled.err d) k s = s
  kept-Serves (RecvType.object (Request.popup r)) (Handled.err d) k s = s
  kept-Serves (RecvType.object (Request.cursor_image i)) (Handled.err d) k s = s
  kept-Serves (RecvType.object (Request.client_disconnected id)) (Handled.err d) k s = s
  kept-Serves (RecvType.object (Request.capabilities caps)) (Handled.err d) k s = s
  kept-Serves (RecvType.raw_buffer bytes) (Handled.err d) k s = s

  -- In every state that requests lead to from a display without clients, when they are as the
  -- server promises and no commit fails, each client is kept under its own id and its surfaces
  -- refer to each other.
  pub Reaches-Serves : (d : Display P B) → Reaches d → Serves IsLinked d.clients
  Reaches-Serves _ (Reaches.started d none_there) =
      λ id client e. absurd (none-some (sym (none_there id) ∙ e))
  Reaches-Serves _ (Reaches.handled {d = d} r h before n e k) =
      kept-Serves r h k
        (handle-HandledAs compositor pool seats fuel r d h (Reaches-Serves d before) n e)
