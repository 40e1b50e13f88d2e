-- ===== src/Client/Subsurface/Outcomes.antt =====
-- src/client: what actions do to the surfaces, whether or not they fail.
use wprs.Base.{
  ℕ, Option, none, some, List, [], ◌∷◌, ◌≡◌, refl, false, All, Option-cases, ltb, length,
  Bool-cases, inl, inr,
}
use wprs.Geometry.{ℤ, Rectangle}
use wprs.Client.{
  RemoteBuffer, RemoteSurface, Asked, Compositor, ClientState, Outcome, left_by, Action, ◌>>=◌,
  pure, lift, for_each, get, put, ask, Surfaces, wl_surface, attach_to, limited_damage, all_damage,
  draw_dirty, draw_dirty_send_frame, draw_buffer, draw_buffer_send_frame,
}
use wprs.Client.Subsurface.Linked.{IsLinked, replace-IsLinked}

-- From surfaces with the first property, an action leaves some with the second.
pub record Takes {B A : Type 0} (P Q : Surfaces → Type 0) (act : Action B A) : Type 0 where
  pub run : (c : ClientState B) → P c.surfaces → Q (left_by (act c)).surfaces

module _ {B : Type 0} where
  pub >>=-Takes :
      {A C : Type 0} (P M Q : Surfaces → Type 0) (m : Action B A) (f : A → Action B C)
      → Takes P M m
      → ((s : Surfaces) → M s → Q s)
      → ((a : A) → Takes M Q (f a))
      → Takes P Q (m >>= f)
  >>=-Takes {A = A} {C = C} P M Q m f h q k = record { run = λ c p. after (m c) (h.run c p) }
    where
      after :
          (o : Outcome B A)
          → M (left_by o).surfaces
          → Q
              (left_by
                (elim o [ Outcome.err c' ↦ Outcome.err c' | Outcome.ok c' a ↦ f a c' ])).surfaces
      after (Outcome.err c') p = q c'.surfaces p
      after (Outcome.ok c' a) p = (k a).run c' p

  pub for_each-Takes :
      {A : Type 0} (P : Surfaces → Type 0) (xs : List A) (f : A → Action B (Unit {0}))
      → ((a : A) → Takes P P (f a))
      → Takes P P (for_each xs f)
  for_each-Takes P [] f h = record { run = λ c p. p }
  for_each-Takes P (x ∷ xs) f h =
      >>=-Takes P P P (f x) (λ u. for_each xs f) (h x) (λ s p. p) (λ u. for_each-Takes P xs f h)

  pub ask-Takes : (P : Surfaces → Type 0) (a : Asked) → Takes P P (ask {B = B} a)
  unfolding ask
  ask-Takes P a = record { run = λ c p. p }

  pub lift-Takes : {A : Type 0} (P : Surfaces → Type 0) (o : Option A) → Takes P P (lift {B = B} o)
  lift-Takes P none = record { run = λ c p. p }
  lift-Takes P (some a) = record { run = λ c p. p }

  pub pure-Takes : {A : Type 0} (P : Surfaces → Type 0) (a : A) → Takes P P (pure {B = B} a)
  pure-Takes P a = record { run = λ c p. p }

  pub get-Takes : (P : Surfaces → Type 0) (k : ℕ) → Takes P P (get {B = B} k)
  unfolding get
  get-Takes P k = record { run = λ c p. (lift-Takes P (c.surfaces k)).run c p }

  -- The loop does nothing where each round does nothing.
  pub for_each-idle :
      {A : Type 0} (xs : List A) (f : A → Action B (Unit {0})) (c : ClientState B)
      → All (λ x. f x c ≡ Outcome.ok c tt) xs
      → for_each xs f c ≡ Outcome.ok c tt
  for_each-idle [] f c h = refl
  for_each-idle (x ∷ xs) f c h = rw (for_each, ◌>>=◌, h.0) (for_each-idle xs f c h.1)

module _ {B : Type 0} (compositor : Compositor B) where
  attach_to-Takes :
      (P : Surfaces → Type 0) (b : RemoteBuffer) (wl : ℕ) → Takes P P (attach_to compositor b wl)
  unfolding attach_to ask
  attach_to-Takes P b wl = record {
    run = λ c p. elim (Bool-cases (compositor.attaches c.asked b.active_buffer wl)) [
      | inl e ↦ rw (left_by, e) p
      | inr e ↦ rw (left_by, e) p
    ];
  }

  limited_damage-Takes :
      (P : Surfaces → Type 0) (wl : ℕ) (d : Option (List (Rectangle ℤ)))
      → Takes P P (limited_damage compositor wl d)
  unfolding limited_damage
  limited_damage-Takes P wl none = ask-Takes P _
  limited_damage-Takes P wl (some rects) = elim (Bool-cases (ltb (length rects) 256)) [
    | inl few ↦ rw few (
        for_each-Takes P rects (λ r. ask (Asked.damage_buffer wl r))
          (λ r. ask-Takes P (Asked.damage_buffer wl r)))
    | inr many ↦ rw many (ask-Takes P _)
  ]

  all_damage-Takes :
      (P : Surfaces → Type 0) (wl : ℕ) (d : Option (List (Rectangle ℤ)))
      → Takes P P (all_damage compositor wl d)
  unfolding all_damage
  all_damage-Takes P wl none = ask-Takes P _
  all_damage-Takes P wl (some rects) =
      for_each-Takes P rects (λ r. ask (Asked.damage_buffer wl r))
        (λ r. ask-Takes P (Asked.damage_buffer wl r))

  -- The surface that was read is still there when it is written.
  abbrev Drawn : ℕ → RemoteSurface → Surfaces → Type 0
  Drawn k s m = IsLinked m × (m k ≡ some s)

  put-IsLinked :
      (k : ℕ) (s t : RemoteSurface)
      → t.id ≡ s.id
      → t.role ≡ s.role
      → t.local_surface ≡ s.local_surface
      → t.z_ordered_children ≡ s.z_ordered_children
      → Takes (Drawn k s) IsLinked (put {B = B} k t)
  unfolding put
  put-IsLinked k s t i r w z = record {
    run = λ c h. replace-IsLinked c.surfaces k s t h.0 h.1 i r w z;
  }

  draw_dirty-IsLinked :
      (k : ℕ) (s : RemoteSurface) (wl : ℕ) (b : Option RemoteBuffer)
      → Takes (Drawn k s) IsLinked (draw_dirty compositor k s wl b)
  unfolding draw_dirty attach_to limited_damage
  draw_dirty-IsLinked k s wl none = record { run = λ c h. h.0 }
  draw_dirty-IsLinked k s wl (some b) = elim (Bool-cases b.dirty) [
    | inr clean ↦ rw clean (record { run = λ c h. h.0 })
    | inl dirty ↦ rw dirty (
        >>=-Takes (Drawn k s) (Drawn k s) IsLinked (attach_to compositor b wl) _
          (attach_to-Takes (Drawn k s) b wl) (λ m d. d.0)
          (λ u.
            >>=-Takes (Drawn k s) (Drawn k s) IsLinked (limited_damage compositor wl s.frame_damage)
              _ (limited_damage-Takes (Drawn k s) wl s.frame_damage) (λ m d. d.0)
              (λ u'. put-IsLinked k s _ refl refl refl refl)))
  ]

  -- A surface is drawn.
  pub draw_buffer-IsLinked : (k : ℕ) → Takes IsLinked IsLinked (draw_buffer compositor k)
  unfolding draw_buffer get
  draw_buffer-IsLinked k = record {
    run = λ c h. elim (Option-cases (c.surfaces k)) [
      | inl missing ↦ rw (left_by, missing) h
      | inr (s, there) ↦ elim (Option-cases (wl_surface s)) [
        | inl hidden ↦ rw (left_by, there, hidden) h
        | inr (wl, shown) ↦
            rw (left_by, there, shown)
              ((>>=-Takes (Drawn k s) IsLinked IsLinked (draw_dirty compositor k s wl s.buffer)
                  (λ u. ask (Asked.commit wl)) (draw_dirty-IsLinked k s wl s.buffer) (λ m l. l)
                  (λ u. ask-Takes IsLinked (Asked.commit wl))).run
                c (h, there))
      ]
    ];
  }

  draw_dirty_send_frame-IsLinked :
      (k : ℕ) (s : RemoteSurface) (wl : ℕ) (b : Option RemoteBuffer)
      → Takes (Drawn k s) IsLinked (draw_dirty_send_frame compositor k s wl b)
  unfolding draw_dirty_send_frame attach_to all_damage ask
  draw_dirty_send_frame-IsLinked k s wl none = record { run = λ c h. h.0 }
  draw_dirty_send_frame-IsLinked k s wl (some b) = elim (Bool-cases b.dirty) [
    | inr clean ↦ rw clean (record { run = λ c h. h.0 })
    | inl dirty ↦ rw dirty (
        >>=-Takes (Drawn k s) (Drawn k s) IsLinked (attach_to compositor b wl) _
          (attach_to-Takes (Drawn k s) b wl) (λ m d. d.0)
          (λ u.
            >>=-Takes (Drawn k s) (Drawn k s) IsLinked (all_damage compositor wl s.frame_damage) _
              (all_damage-Takes (Drawn k s) wl s.frame_damage) (λ m d. d.0)
              (λ u.
                >>=-Takes (Drawn k s) (Drawn k s) IsLinked (ask (Asked.frame wl)) _
                  (ask-Takes (Drawn k s) (Asked.frame wl)) (λ m d. d.0)
                  (λ u'.
                    put-IsLinked k s
                      (record s {
                        buffer = some (record b { dirty = false });
                        frame_damage = none;
                        frame_callback_completed = false;
                      })
                      refl refl refl refl))))
  ]

  pub draw_buffer_send_frame-IsLinked :
      (k : ℕ) → Takes IsLinked IsLinked (draw_buffer_send_frame compositor k)
  unfolding draw_buffer_send_frame get
  draw_buffer_send_frame-IsLinked k = record {
    run = λ c h. elim (Option-cases (c.surfaces k)) [
      | inl missing ↦ rw (left_by, missing) h
      | inr (s, there) ↦ elim (Option-cases (wl_surface s)) [
        | inl hidden ↦ rw (left_by, there, hidden) h
        | inr (wl, shown) ↦
            rw (left_by, there, shown)
              ((>>=-Takes (Drawn k s) IsLinked IsLinked
                  (draw_dirty_send_frame compositor k s wl s.buffer) (λ u. ask (Asked.commit wl))
                  (draw_dirty_send_frame-IsLinked k s wl s.buffer) (λ m l. l)
                  (λ u. ask-Takes IsLinked (Asked.commit wl))).run
                c (h, there))
      ]
    ];
  }
