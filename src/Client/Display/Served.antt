-- ===== src/Client/Display/Served.antt =====
-- src/client/server_handlers.rs: whatever the server asks for, each client's surfaces refer to each
-- other.
use mathlib.Core.Path.{subst}
use wprs.Base.{
  ℕ, Bool, true, false, none, some, ◌==◌, ◌≡◌, refl, sym, ◌∙◌, inl, inr, Option-cases, Bool-cases,
  if◌then◌else◌, ==_iff,
}
use wprs.Messages.{RecvType}
use wprs.Client.{Asked, Outcome, Action, Surfaces}
use wprs.Client.Settled.{Settled, Leaves}
use wprs.Client.Settled.Lent.{IsLinkedBut}
use wprs.Client.Stacking.Ids.{IsDistinct}
use wprs.Client.Subsurface.{sub_surface_of}
use wprs.Client.Subsurface.Linked.{IsLinked, some-inj}
use wprs.Client.Display.{
  RemoteClient, Clients, client_at, insert, new, SurfaceRequestPayload, CursorImageStatus, Request,
  Display, Handled, state_of, returned, write_back, on_client, ask_for,
}
use wprs.Client.Display.Linked.{CanBeCursor}

-- Each client is kept under its own id, and its surfaces have the property.
abbrev pub Serves : (Surfaces → Type 0) → Clients → Type 0
Serves R m =
    (id : ℕ) (client : RemoteClient) → m id ≡ some client → (client.id ≡ id) × R client.surfaces

-- What the server promises: no order of children with an id twice, no end of a popup on a
-- subsurface, and no cursor on a surface that has another role.
abbrev pub IsSurfacePromise : SurfaceRequestPayload → Type 0
IsSurfacePromise (SurfaceRequestPayload.commit state) = IsDistinct state.z_ordered_children
IsSurfacePromise SurfaceRequestPayload.destroyed = Unit

abbrev pub IsCursorPromise : Clients → CursorImageStatus → Type 0
IsCursorPromise m (CursorImageStatus.surface id surface_id hotspot) =
    (client : RemoteClient) (s : _)
    → m id ≡ some client
    → client.surfaces surface_id ≡ some s
    → CanBeCursor s.role
IsCursorPromise m _ = Unit

abbrev pub IsPromise : Clients → RecvType Request → Type 0
IsPromise m (RecvType.object (Request.surface r)) = IsSurfacePromise r.payload
IsPromise m (RecvType.object (Request.popup r)) =
    (client : RemoteClient) (s : _)
    → m r.client ≡ some client
    → client.surfaces r.surface ≡ some s
    → sub_surface_of s ≡ none
IsPromise m (RecvType.object (Request.cursor_image i)) = IsCursorPromise m i.status
IsPromise m _ = Unit

-- What holds of the surfaces after a request that failed: after a commit, one of them may be
-- without a local surface.
abbrev pub AfterError : RecvType Request → Surfaces → Type 0
AfterError (RecvType.object (Request.surface r)) = IsLinkedBut r.surface
AfterError _ = IsLinked

abbrev pub HandledAs : {P B : Type 0} → (Surfaces → Type 0) → Handled P B → Type 0
HandledAs R (Handled.err d) = Serves R d.clients
HandledAs R (Handled.ok d) = Serves IsLinked d.clients

pub none-some : {A : Type 0} {a : A} → none ≡ some a → ⊥
none-some e = cc

pub client_at-served :
    (id : ℕ) (m : Clients)
    → Serves IsLinked m
    → ((client_at id m).id ≡ id) × IsLinked (client_at id m).surfaces
unfolding client_at new
client_at-served id m h = elim (Option-cases (m id)) [
  | inl missing ↦ rw (client_at, missing) (refl, λ i s e. absurd (none-some e))
  | inr (client, there) ↦ rw (client_at, there) (h id client there)
]

pub insert-Serves :
    (R : Surfaces → Type 0) (id : ℕ) (client : RemoteClient) (m : Clients)
    → ((s : Surfaces) → IsLinked s → R s)
    → Serves IsLinked m
    → client.id ≡ id
    → R client.surfaces
    → Serves R (insert id client m)
insert-Serves R id client m weaker h i l k c e = elim (Bool-cases (k == id)) [
  | inl same ↦
      let is_client = some-inj (rw same at e) in
      let at_id = (==_iff k id).0 same in
      subst (λ c'. (c'.id ≡ k) × R c'.surfaces) is_client (i ∙ sym at_id, l)
  | inr other ↦ let x = h k c (rw other at e) in (x.0, weaker c.surfaces x.1)
]

module _ {P B : Type 0} (R : Surfaces → Type 0) (weaker : (s : Surfaces) → IsLinked s → R s) where
  pub returned-HandledAs :
      (id : ℕ) (client : RemoteClient) (d : Display P B) (o : Outcome B (Unit {0}))
      → Serves IsLinked d.clients
      → client.id ≡ id
      → Settled (λ u. IsLinked) R o
      → HandledAs R (returned id client d o)
  unfolding returned write_back
  returned-HandledAs id client d (Outcome.err c) h i s =
      insert-Serves R id (record client { surfaces = c.surfaces }) d.clients weaker h i s
  returned-HandledAs id client d (Outcome.ok c u) h i s =
      insert-Serves IsLinked id (record client { surfaces = c.surfaces }) d.clients (λ m l. l) h i s

  pub on_client-HandledAs :
      (id : ℕ) (d : Display P B) {Q : Surfaces → Type 0} {act : Action B (Unit {0})}
      → Serves IsLinked d.clients
      → Q (client_at id d.clients).surfaces
      → Leaves Q (λ u. IsLinked) R act
      → HandledAs R (on_client id act d)
  unfolding on_client
  on_client-HandledAs id d h q l =
      let client = client_at id d.clients in
      returned-HandledAs id client d _ h (client_at-served id d.clients h).0
        (l.run (state_of client d) q)

  pub ask_for-HandledAs :
      (b : Bool) (a : Asked) (d : Display P B)
      → Serves IsLinked d.clients
      → HandledAs R (ask_for b a d)
  unfolding ask_for
  ask_for-HandledAs true a d h = h
  ask_for-HandledAs false a d h = λ id c e. let x = h id c e in (x.0, weaker c.surfaces x.1)

  pub unless-HandledAs :
      (b : Bool) (d : Display P B) (h : Handled P B)
      → Serves IsLinked d.clients
      → HandledAs R h
      → HandledAs R (if b then Handled.ok d else h)
  unless-HandledAs true d h s k = s
  unless-HandledAs false d h s k = k
