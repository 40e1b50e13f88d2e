-- ===== src/Client/Attributes/Kept.antt =====
-- src/client/mod.rs: the attributes that a commit sets, on surfaces that refer to each other.
use wprs.Base.{
  ℕ, Bool, true, false, not, Option, none, some, List, ◌≡◌, refl, inl, inr, Option-cases,
  if◌then◌else◌,
}
use wprs.Geometry.{ℤ, Rectangle, Size}
use wprs.Wayland.{Region, Transform, ViewportState}
use wprs.Wayland.Equality.{Region_option-discrete, ViewportState_option-discrete, is_eq}
use wprs.Client.{
  RemoteSurface, Asked, Compositor, ClientState, Outcome, ◌>>=◌, ◌>>◌, lift, put, ask, Surfaces,
  wl_surface,
}
use wprs.Client.Attributes.{
  set_transformation, viewport_for, set_viewport_state, create_compositor_region, set_input_region,
  set_opaque_region, add_damage, append_damage, transform_asked, source_asked, destination_asked,
}
use wprs.Client.Settled.{
  Settled, Leaves, >>=-Leaves, get-Leaves, get_any-Leaves, lift_any-Leaves, ask-Leaves, pure-Leaves,
  put-Leaves, when-Leaves,
}
use wprs.Client.Subsurface.Linked.{IsLinked, replace-IsLinked}

-- The surface that was read is still there.
abbrev pub Held : ℕ → RemoteSurface → Surfaces → Type 0
Held k s m = IsLinked m × (m k ≡ some s)

module _ {B : Type 0} (R : Surfaces → Type 0) (weaker : (m : Surfaces) → IsLinked m → R m) where
  -- A surface is written with the same id, role, local surface and children.
  pub put-IsLinked :
      (k : ℕ) (s t : RemoteSurface)
      → t.id ≡ s.id
      → t.role ≡ s.role
      → t.local_surface ≡ s.local_surface
      → t.z_ordered_children ≡ s.z_ordered_children
      → Leaves (Held k s) (λ u. IsLinked) R (put {B = B} k t)
  put-IsLinked k s t i r w z =
      put-Leaves R (Held k s) k t (λ m h. replace-IsLinked m k s t h.0 h.1 i r w z)

  pub set_transformation-IsLinked :
      (key : ℕ) (scale : ℤ) (transform : Option Transform)
      → Leaves IsLinked (λ u. IsLinked) R (set_transformation {B = B} key scale transform)
  unfolding set_transformation
  set_transformation-IsLinked key scale transform =
      >>=-Leaves R (λ s. IsLinked) (get_any-Leaves R IsLinked weaker key)
        (λ s.
          >>=-Leaves R (λ wl. IsLinked) (lift_any-Leaves R IsLinked weaker (wl_surface s))
            (λ wl.
              >>=-Leaves R (λ u. IsLinked) (ask-Leaves R IsLinked weaker _)
                (λ u. asked wl transform)))
    where
      asked :
          (wl : ℕ) (t : Option Transform)
          → Leaves IsLinked (λ u. IsLinked) R (transform_asked {B = B} wl t)
      asked wl none = pure-Leaves R tt
      asked wl (some t) = ask-Leaves R IsLinked weaker _

  pub add_damage-IsLinked :
      (key : ℕ) (damage : Option (List (Rectangle ℤ)))
      → Leaves IsLinked (λ u. IsLinked) R (add_damage {B = B} key damage)
  unfolding add_damage
  add_damage-IsLinked key damage =
      >>=-Leaves R (λ s. Held key s) (get-Leaves R IsLinked weaker key)
        (λ s.
          put-IsLinked key s (record s { frame_damage = append_damage damage s.frame_damage }) refl
            refl refl refl)

  module _ (compositor : Compositor B) where
    viewport_for-IsLinked :
        (key : ℕ) (s : RemoteSurface) (wl : ℕ)
        → Leaves (Held key s) (λ v. IsLinked) R (viewport_for compositor key s wl)
    unfolding viewport_for ask put
    viewport_for-IsLinked key s wl = record {
      run = λ c h. elim (Option-cases s.viewport) [
        | inr (v, e) ↦ rw (Settled, e) h.0
        | inl e ↦ rw (Settled, e) (replace-IsLinked c.surfaces key s _ h.0 h.1 refl refl refl refl)
      ];
    }

    pub set_viewport_state-IsLinked :
        (key : ℕ) (v : Option ViewportState)
        → Leaves IsLinked (λ u. IsLinked) R (set_viewport_state compositor key v)
    unfolding set_viewport_state
    set_viewport_state-IsLinked key none = pure-Leaves R tt
    set_viewport_state-IsLinked key (some v) =
        when-Leaves R IsLinked compositor.has_viewporter (λ m h. h)
          (>>=-Leaves R (λ s. Held key s) (get-Leaves R IsLinked weaker key)
            (λ s.
              >>=-Leaves R (λ wl. Held key s)
                (lift_any-Leaves R (Held key s) (λ m h. weaker m h.0) (wl_surface s))
                (λ wl.
                  >>=-Leaves R (λ viewport. IsLinked) (viewport_for-IsLinked key s wl)
                    (λ viewport.
                      >>=-Leaves R (λ s'. Held key s') (get-Leaves R IsLinked weaker key)
                        (λ s'.
                          when-Leaves R (Held key s')
                            (not (
                              is_eq ViewportState_option-discrete s'.current_viewport_state
                                (some v)))
                            (λ m h. h.0)
                            (>>=-Leaves R (λ u. Held key s') (source s' viewport v.src)
                              (λ u.
                                >>=-Leaves R (λ u'. Held key s') (destination s' viewport v.dst)
                                  (λ u'.
                                    put-IsLinked key s'
                                      (record s' { current_viewport_state = some v }) refl refl refl
                                      refl))))))))
      where
        source :
            (s' : RemoteSurface) (viewport : ℕ) (src : Option (Rectangle ℕ))
            → Leaves (Held key s') (λ u. Held key s') R (source_asked {B = B} viewport src)
        source s' viewport none = pure-Leaves R tt
        source s' viewport (some x) = ask-Leaves R (Held key s') (λ m h. weaker m h.0) _

        destination :
            (s' : RemoteSurface) (viewport : ℕ) (dst : Option (Size ℤ))
            → Leaves (Held key s') (λ u. Held key s') R (destination_asked {B = B} viewport dst)
        destination s' viewport none = pure-Leaves R tt
        destination s' viewport (some x) = ask-Leaves R (Held key s') (λ m h. weaker m h.0) _

    create_compositor_region-IsLinked :
        (region : Option Region)
        → Leaves IsLinked (λ u. IsLinked) R (create_compositor_region compositor region)
    unfolding create_compositor_region
    create_compositor_region-IsLinked none = record { run = λ c h. h }
    create_compositor_region-IsLinked (some region) = record {
      run = λ c h. made (compositor.makes_region c.asked) c h;
    }
      where
        made :
            (b : Bool) (c : ClientState B)
            → IsLinked c.surfaces
            → Settled (λ (u : Unit {0}). IsLinked) R (if b then Outcome.ok c tt else Outcome.err c)
        made true c h = h
        made false c h = weaker c.surfaces h

    -- The end of setting either region.
    region_asked-IsLinked :
        (s : RemoteSurface) (region : Option Region) (a : ℕ → Asked)
        → Leaves IsLinked
            (λ u. IsLinked)
            R
            (do wl ← lift (wl_surface s); create_compositor_region compositor region; ask (a wl))
    region_asked-IsLinked s region a =
        >>=-Leaves R (λ wl. IsLinked) (lift_any-Leaves R IsLinked weaker (wl_surface s))
          (λ wl.
            >>=-Leaves R (λ u. IsLinked) (create_compositor_region-IsLinked region)
              (λ u. ask-Leaves R IsLinked weaker (a wl)))

    pub set_input_region-IsLinked :
        (key : ℕ) (region : Option Region)
        → Leaves IsLinked (λ u. IsLinked) R (set_input_region compositor key region)
    unfolding set_input_region
    set_input_region-IsLinked key region =
        >>=-Leaves R (λ s. Held key s) (get-Leaves R IsLinked weaker key)
          (λ s.
            when-Leaves R (Held key s) (not (is_eq Region_option-discrete s.input_region region))
              (λ m h. h.0)
              (>>=-Leaves R (λ u. IsLinked)
                (put-IsLinked key s (record s { input_region = region }) refl refl refl refl)
                (λ u. region_asked-IsLinked s region (λ wl. Asked.set_input_region wl region))))

    pub set_opaque_region-IsLinked :
        (key : ℕ) (region : Option Region)
        → Leaves IsLinked (λ u. IsLinked) R (set_opaque_region compositor key region)
    unfolding set_opaque_region
    set_opaque_region-IsLinked key region =
        >>=-Leaves R (λ s. Held key s) (get-Leaves R IsLinked weaker key)
          (λ s.
            when-Leaves R (Held key s) (not (is_eq Region_option-discrete s.opaque_region region))
              (λ m h. h.0)
              (>>=-Leaves R (λ u. IsLinked)
                (put-IsLinked key s (record s { opaque_region = region }) refl refl refl refl)
                (λ u. region_asked-IsLinked s region (λ wl. Asked.set_opaque_region wl region))))
