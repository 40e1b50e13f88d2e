-- ===== src/SurfaceCommit/Seen.antt =====
-- src/server/smithay_handlers.rs and client_handlers.rs: what a client shows of a surface, by the
-- messages that it was sent, and what one that connects later shows.
use mathlib.Core.Path.{subst}
use wprs.Base.{
  ℕ, Bool, true, false, Option, none, some, List, [], ◌∷◌, ◌++◌, ◌≡◌, refl, sym, ap, ◌∙◌,
  if◌then◌else◌, ◌==◌, ==-true, Option-cases, inl, inr,
}
use wprs.Geometry.{ℤ, Rectangle}
use wprs.Messages.{SendType}
use wprs.Shards.{CompressedShards}
use wprs.Wayland.{
  BufferMetadata, BufferAssignment, SurfaceState, clone_without_buffer, with_buffer, set_buffer,
  update_with_external_buffer, as_new, as_compressed, is_external,
}
use wprs.Client.Subsurface.Linked.{some-inj}
use wprs.Client.Display.{SurfaceRequestPayload, Request}
use wprs.Replay.{commit_of, surface_messages}
use wprs.SurfaceCommit.{
  NewBuffer, Committed, kept, with_damage, send_state, is_unchanged, commit_new_buffer,
  commit_old_buffer, commit_removed, commit_buffer,
}

-- The shards that came last and were not taken, and the buffer that a surface shows.
pub record View : Type 0 where
  pub cache : Option CompressedShards
  pub shown : Option (BufferMetadata × CompressedShards)

abbrev pub nothing_seen : View
nothing_seen = record { cache = none; shown = none }

-- The shards that came before are those of the buffer of a commit, if its data is external.
unfoldable pub take : BufferMetadata → Option CompressedShards → View → View
take m none v = v
take m (some shards) v = record { cache = none; shown = some (m, shards) }

unfoldable pub see_assignment : Option BufferAssignment → View → View
see_assignment none v = v
see_assignment (some BufferAssignment.removed) v = record v { shown = none }
see_assignment (some (BufferAssignment.new b)) v =
    if is_external b.contents then take b.metadata v.cache v else v

unfoldable pub see_payload : SurfaceRequestPayload → View → View
see_payload (SurfaceRequestPayload.commit state) v = see_assignment state.buffer v
see_payload SurfaceRequestPayload.destroyed v = record v { shown = none }

-- A message, for the surface with the id `k`.
unfoldable pub see : ℕ → SendType Request → View → View
see k (SendType.raw_buffer shards) v = record v { cache = some shards }
see k (SendType.object (Request.surface r)) v =
    if r.surface == k then see_payload r.payload v else v
see k (SendType.object _) v = v

unfoldable pub see_all : ℕ → List (SendType Request) → View → View
see_all k [] v = v
see_all k (m ∷ ms) v = see_all k ms (see k m v)

-- The metadata and the shards of a buffer.
unfoldable pub shards_in : Option BufferAssignment → Option (BufferMetadata × CompressedShards)
shards_in (some (BufferAssignment.new b)) = elim (as_compressed b.contents) [
  | none ↦ none
  | some shards ↦ some (b.metadata, shards)
]
shards_in _ = none

abbrev pub messages_of : Committed → List (SendType Request)
messages_of (Committed.failed s ms) = ms
messages_of (Committed.unchanged s) = []
messages_of (Committed.sent s ms) = ms

-- The commits of the surface `k` of a client that is there, from one without a buffer on: the state
-- that is kept, and all that was sent. The attributes that a commit writes leave the id and the
-- buffer.
pub data Commits (client k : ℕ) : SurfaceState → List (SendType Request) → Type 0 where
  started : (s : SurfaceState) → s.id ≡ k → s.buffer ≡ none → Commits client k s []
  committed :
      {s : SurfaceState} {ms : List (SendType Request)} (s' prev : SurfaceState)
      (damage : List (Rectangle ℤ)) (children_dirty sync skip_buffer : Bool) (b : Option NewBuffer)
      → Commits client k s ms
      → s'.id ≡ k
      → s'.buffer ≡ s.buffer
      → (o : Committed)
      → commit_buffer (some client) damage prev s' children_dirty sync skip_buffer b ≡ o
      → Commits client k (kept o) (ms ++ messages_of o)

see_all-append :
    (k : ℕ) (ms ms' : List (SendType Request)) (v : View)
    → see_all k (ms ++ ms') v ≡ see_all k ms' (see_all k ms v)
unfolding see_all
see_all-append k [] ms' v = refl
see_all-append k (m ∷ ms) ms' v = see_all-append k ms ms' (see k m v)

-- The view shows what the state keeps, which still has the id.
record Shows (k : ℕ) (s : SurfaceState) (v : View) : Type 0 where
  same_id : s.id ≡ k
  same_buffer : v.shown ≡ shards_in s.buffer

see-commit :
    (k client : ℕ) (s state : SurfaceState) (v : View)
    → s.id ≡ k
    → see k
        (SendType.object (
          Request.surface (record {
            client = client;
            surface = s.id;
            payload = SurfaceRequestPayload.commit state;
          })))
        v
      ≡ see_assignment state.buffer v
unfolding see see_payload
see-commit k client s state v e = rw (==-true s.id k e) refl

module _ (client k : ℕ) (damage : List (Rectangle ℤ)) where
  send_state-Shows :
      (s to_send : SurfaceState) (before : List (SendType Request)) (v : View)
      → s.id ≡ k
      → (see_assignment to_send.buffer (see_all k before v)).shown ≡ shards_in s.buffer
      → let o = send_state (some client) damage s to_send before in
        Shows k (kept o) (see_all k (messages_of o) v)
  unfolding send_state see_all with_damage
  send_state-Shows s to_send before v i e = record {
    same_id = i;
    same_buffer =
        rw (see_all-append k before _ v, see-commit k client s (with_damage damage to_send) _ i) e;
  }

  old_buffer-Shows :
      (prev s : SurfaceState) (children_dirty sync : Bool) (v : View)
      → Shows k s v
      → let o = commit_old_buffer (some client) damage prev s children_dirty sync in
        Shows k (kept o) (see_all k (messages_of o) v)
  unfolding commit_old_buffer see_all see_assignment clone_without_buffer with_buffer
  old_buffer-Shows prev s children_dirty sync v h =
      either (is_unchanged (clone_without_buffer s) prev children_dirty sync)
    where
      either :
          (b : Bool)
          → let o =
              if b
              then Committed.unchanged s
              else send_state (some client) damage s (clone_without_buffer s) [] in
            Shows k (kept o) (see_all k (messages_of o) v)
      either true = h
      either false = send_state-Shows s (clone_without_buffer s) [] v h.same_id h.same_buffer

  new_buffer-Shows :
      (metadata : Option BufferMetadata) (shards : Option CompressedShards) (s : SurfaceState)
      (v : View)
      → Shows k s v
      → let o = commit_new_buffer (some client) damage metadata shards s in
        Shows k (kept o) (see_all k (messages_of o) v)
  unfolding commit_new_buffer set_buffer update_with_external_buffer as_new as_compressed
      with_buffer see_all see_assignment take is_external see shards_in
  new_buffer-Shows none shards s v h = h
  new_buffer-Shows (some m) none s v h = h
  new_buffer-Shows (some m) (some c) s v h = send_state-Shows _ _ _ v h.same_id refl

  commit_buffer-Shows :
      (prev s : SurfaceState) (children_dirty sync skip_buffer : Bool) (b : Option NewBuffer)
      (v : View)
      → Shows k s v
      → let o = commit_buffer (some client) damage prev s children_dirty sync skip_buffer b in
        Shows k (kept o) (see_all k (messages_of o) v)
  unfolding commit_buffer commit_removed with_buffer see_assignment shards_in see_all
  commit_buffer-Shows prev s children_dirty sync skip none v h =
      old_buffer-Shows prev s children_dirty sync v h
  commit_buffer-Shows prev s children_dirty sync skip (some NewBuffer.removed) v h =
      send_state-Shows _ _ _ v h.same_id refl
  commit_buffer-Shows prev s children_dirty sync true (some (NewBuffer.new_buffer m c)) v h =
      old_buffer-Shows prev s children_dirty sync v h
  commit_buffer-Shows prev s children_dirty sync false (some (NewBuffer.new_buffer m c)) v h =
      new_buffer-Shows m c s v h

Commits-Shows :
    (client k : ℕ) (s : SurfaceState) (ms : List (SendType Request))
    → Commits client k s ms
    → Shows k s (see_all k ms nothing_seen)
unfolding see_all shards_in
Commits-Shows client k _ _ (Commits.started s i e) = record {
  same_id = i;
  same_buffer = rw (shards_in, e) refl;
}
Commits-Shows client k _ _
      (Commits.committed {s = s0} {ms = ms} s' prev damage children_dirty sync skip b before i e o
        done) =
    let h : Shows k s' (see_all k ms nothing_seen) = record {
      same_id = i;
      same_buffer = (Commits-Shows client k s0 ms before).same_buffer ∙ ap shards_in (sym e);
    } in
    rw (see_all-append k ms (messages_of o) nothing_seen) (
      subst (λ r. Shows k (kept r) (see_all k (messages_of r) (see_all k ms nothing_seen))) done
        (commit_buffer-Shows client k damage prev s' children_dirty sync skip b _ h))

none-some : {A : Type 0} {a : A} → none ≡ some a → ⊥
none-some e = cc

-- What is replayed shows the buffer that is kept.
surface_messages-Shows :
    (k : ℕ) (s : SurfaceState) (ms : List (SendType Request)) (v : View)
    → s.id ≡ k
    → surface_messages s ≡ some ms
    → (see_all k ms v).shown ≡ shards_in s.buffer
unfolding surface_messages update_with_external_buffer as_new with_buffer see_all see commit_of
    see_assignment take is_external shards_in clone_without_buffer
surface_messages-Shows k s ms v i e = replay s.buffer refl
  where
    replay :
        (b : Option BufferAssignment) → s.buffer ≡ b → (see_all k ms v).shown ≡ shards_in s.buffer
    replay none is = absurd (none-some (rw (surface_messages, is) at e))
    replay (some BufferAssignment.removed) is = absurd (none-some (rw (surface_messages, is) at e))
    replay (some (BufferAssignment.new b)) is = elim (Option-cases (as_compressed b.contents)) [
      | inl inline ↦ absurd (none-some (rw (surface_messages, is, inline) at e))
      | inr (c, shards) ↦
          subst (λ x. (see_all k x v).shown ≡ shards_in s.buffer)
            (some-inj (rw (surface_messages, is, shards) at e))
            (rw (see-commit k s.client s _ _ i, is, shards_in, shards) refl)
    ]

-- After any commits of a surface that had no buffer at first, whatever each says of the buffer
-- and whether or not it fails, while the client of the surface is there and what is written
-- before a commit's end leaves the id and the buffer as they were: what `surface_messages` gives,
-- when it gives some, makes one that connects then show the metadata and the shards that one
-- shows who was sent all that the commits sent.
pub Commits-surface_messages :
    (client k : ℕ) (s : SurfaceState) (ms replayed : List (SendType Request)) (v : View)
    → Commits client k s ms
    → surface_messages s ≡ some replayed
    → (see_all k replayed v).shown ≡ (see_all k ms nothing_seen).shown
Commits-surface_messages client k s ms replayed v c e =
    let h = Commits-Shows client k s ms c in
    surface_messages-Shows k s replayed v h.same_id e ∙ sym h.same_buffer
