-- ===== src/Client/XdgToplevel/Sizes.antt =====
-- src/client/xdg_shell.rs: the decoration and the sizes of a window.
use wprs.Base.{Option, none, [], ◌∷◌, ◌++◌, refl, ap, ◌∙◌, ==-true}
use wprs.Geometry.{ℤ, Size}
use wprs.Wayland.{DecorationMode}
use wprs.Wayland.Equality.{Size-discrete, DecorationMode_option-discrete, is_eq-true, is_eq-false}
use wprs.Client.{RemoteXdgToplevel, Asked, ClientState, Outcome, ask}
use wprs.Client.Told.{last_told-append, last_told-silent}
use wprs.Client.XdgToplevel.{size_as_u32, set_decoration_mode, set_max_size, set_min_size}
use wprs.Client.XdgToplevel.Told.{
  title_of, app_id_of, decoration_of, max_size_of, min_size_of, no_size, Agrees, Sets,
}

module _ {B : Type 0} (t : RemoteXdgToplevel) (c : ClientState B) (h : Agrees t c.asked) where
  pub set_decoration_mode-Sets :
      (v : Option DecorationMode)
      → Sets (record t { decoration_mode = v }) (set_decoration_mode v t) c
  unfolding set_decoration_mode ask
  set_decoration_mode-Sets v = elim (DecorationMode_option-discrete t.decoration_mode v) [
    | yes same ↦ (
      c,
      rw (is_eq-true DecorationMode_option-discrete _ _ same)
          (ap (λ x. Outcome.ok c (record t { decoration_mode = x })) same),
      refl,
      record {
        title = h.title;
        app_id = h.app_id;
        decoration = h.decoration ∙ same;
        max_size = h.max_size;
        min_size = h.min_size;
      },
    )
    | no other ↦ (
      record c { asked = c.asked ++ Asked.request_decoration_mode t.local_window v ∷ [] },
      rw (is_eq-false DecorationMode_option-discrete _ _ other) refl,
      refl,
      record {
        title = λ x e.
            last_told-silent (title_of t.local_window) none c.asked
              (Asked.request_decoration_mode t.local_window v) refl (h.title x e);
        app_id = λ x e.
            last_told-silent (app_id_of t.local_window) none c.asked
              (Asked.request_decoration_mode t.local_window v) refl (h.app_id x e);
        decoration =
            last_told-append (decoration_of t.local_window) none c.asked
              (Asked.request_decoration_mode t.local_window v)
            ∙ rw (==-true t.local_window t.local_window refl) refl;
        max_size =
            last_told-silent (max_size_of t.local_window) no_size c.asked
              (Asked.request_decoration_mode t.local_window v) refl h.max_size;
        min_size =
            last_told-silent (min_size_of t.local_window) no_size c.asked
              (Asked.request_decoration_mode t.local_window v) refl h.min_size;
      },
    )
  ]

  pub set_max_size-Sets : (v : Size ℤ) → Sets (record t { max_size = v }) (set_max_size v t) c
  unfolding set_max_size ask
  set_max_size-Sets v = elim (Size-discrete t.max_size v) [
    | yes same ↦ (
      c,
      rw (is_eq-true Size-discrete _ _ same)
          (ap (λ x. Outcome.ok c (record t { max_size = x })) same),
      refl,
      record {
        title = h.title;
        app_id = h.app_id;
        decoration = h.decoration;
        max_size = h.max_size ∙ ap size_as_u32 same;
        min_size = h.min_size;
      },
    )
    | no other ↦ (
      record c { asked = c.asked ++ Asked.set_max_size t.local_window (size_as_u32 v) ∷ [] },
      rw (is_eq-false Size-discrete _ _ other) refl,
      refl,
      record {
        title = λ x e.
            last_told-silent (title_of t.local_window) none c.asked
              (Asked.set_max_size t.local_window (size_as_u32 v)) refl (h.title x e);
        app_id = λ x e.
            last_told-silent (app_id_of t.local_window) none c.asked
              (Asked.set_max_size t.local_window (size_as_u32 v)) refl (h.app_id x e);
        decoration =
            last_told-silent (decoration_of t.local_window) none c.asked
              (Asked.set_max_size t.local_window (size_as_u32 v)) refl h.decoration;
        max_size =
            last_told-append (max_size_of t.local_window) no_size c.asked
              (Asked.set_max_size t.local_window (size_as_u32 v))
            ∙ rw (==-true t.local_window t.local_window refl) refl;
        min_size =
            last_told-silent (min_size_of t.local_window) no_size c.asked
              (Asked.set_max_size t.local_window (size_as_u32 v)) refl h.min_size;
      },
    )
  ]

  pub set_min_size-Sets : (v : Size ℤ) → Sets (record t { min_size = v }) (set_min_size v t) c
  unfolding set_min_size ask
  set_min_size-Sets v = elim (Size-discrete t.min_size v) [
    | yes same ↦ (
      c,
      rw (is_eq-true Size-discrete _ _ same)
          (ap (λ x. Outcome.ok c (record t { min_size = x })) same),
      refl,
      record {
        title = h.title;
        app_id = h.app_id;
        decoration = h.decoration;
        max_size = h.max_size;
        min_size = h.min_size ∙ ap size_as_u32 same;
      },
    )
    | no other ↦ (
      record c { asked = c.asked ++ Asked.set_min_size t.local_window (size_as_u32 v) ∷ [] },
      rw (is_eq-false Size-discrete _ _ other) refl,
      refl,
      record {
        title = λ x e.
            last_told-silent (title_of t.local_window) none c.asked
              (Asked.set_min_size t.local_window (size_as_u32 v)) refl (h.title x e);
        app_id = λ x e.
            last_told-silent (app_id_of t.local_window) none c.asked
              (Asked.set_min_size t.local_window (size_as_u32 v)) refl (h.app_id x e);
        decoration =
            last_told-silent (decoration_of t.local_window) none c.asked
              (Asked.set_min_size t.local_window (size_as_u32 v)) refl h.decoration;
        max_size =
            last_told-silent (max_size_of t.local_window) no_size c.asked
              (Asked.set_min_size t.local_window (size_as_u32 v)) refl h.max_size;
        min_size =
            last_told-append (min_size_of t.local_window) no_size c.asked
              (Asked.set_min_size t.local_window (size_as_u32 v))
            ∙ rw (==-true t.local_window t.local_window refl) refl;
      },
    )
  ]
