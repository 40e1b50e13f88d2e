-- ===== src/Client/XdgToplevel/Texts.antt =====
-- src/client/xdg_shell.rs: the title and the application of a window.
use wprs.Base.{ℕ, Option, none, some, List, [], ◌∷◌, ◌++◌, ◌≡◌, refl, ap, ◌∙◌, ==-true}
use wprs.Wayland.Equality.{text_option-discrete, is_eq-true, is_eq-false}
use wprs.Client.{RemoteXdgToplevel, Asked, ClientState, Outcome, ask}
use wprs.Client.Subsurface.Linked.{some-inj}
use wprs.Client.Told.{last_told-append, last_told-silent}
use wprs.Client.XdgToplevel.{set_title, set_app_id}
use wprs.Client.XdgToplevel.Told.{
  title_of, app_id_of, decoration_of, max_size_of, min_size_of, no_size, Agrees, Sets,
}

module _ {B : Type 0} (t : RemoteXdgToplevel) (c : ClientState B) (h : Agrees t c.asked) where
  pub set_title-Sets : (v : Option (List ℕ)) → Sets (record t { title = v }) (set_title v t) c
  unfolding set_title ask
  set_title-Sets v = elim (text_option-discrete t.title v) [
    | yes same ↦ (
      c,
      rw (is_eq-true text_option-discrete _ _ same)
          (ap (λ x. Outcome.ok c (record t { title = x })) same),
      refl,
      record {
        title = λ x e. h.title x (same ∙ e);
        app_id = h.app_id;
        decoration = h.decoration;
        max_size = h.max_size;
        min_size = h.min_size;
      },
    )
    | no other ↦ changed v other
  ]
    where
      changed :
          (v : Option (List ℕ)) → ¬ (t.title ≡ v) → Sets (record t { title = v }) (set_title v t) c
      changed none other = (
        c,
        rw (is_eq-false text_option-discrete _ _ other) refl,
        refl,
        record {
          title = λ x e. absurd (cc e);
          app_id = h.app_id;
          decoration = h.decoration;
          max_size = h.max_size;
          min_size = h.min_size;
        },
      )
      changed (some text) other = (
        record c {
          asked = c.asked ++ Asked.set_title t.local_window (t.title_prefix ++ text) ∷ [];
        },
        rw (is_eq-false text_option-discrete _ _ other) refl,
        refl,
        record {
          title = λ x e.
              last_told-append (title_of t.local_window) none c.asked
                (Asked.set_title t.local_window (t.title_prefix ++ text))
              ∙ rw (==-true t.local_window t.local_window refl)
                  (ap (λ y. some (t.title_prefix ++ y)) (some-inj e));
          app_id = λ x e.
              last_told-silent (app_id_of t.local_window) none c.asked
                (Asked.set_title t.local_window (t.title_prefix ++ text)) refl (h.app_id x e);
          decoration =
              last_told-silent (decoration_of t.local_window) none c.asked
                (Asked.set_title t.local_window (t.title_prefix ++ text)) refl h.decoration;
          max_size =
              last_told-silent (max_size_of t.local_window) no_size c.asked
                (Asked.set_title t.local_window (t.title_prefix ++ text)) refl h.max_size;
          min_size =
              last_told-silent (min_size_of t.local_window) no_size c.asked
                (Asked.set_title t.local_window (t.title_prefix ++ text)) refl h.min_size;
        },
      )

  pub set_app_id-Sets : (v : Option (List ℕ)) → Sets (record t { app_id = v }) (set_app_id v t) c
  unfolding set_app_id ask
  set_app_id-Sets v = elim (text_option-discrete t.app_id v) [
    | yes same ↦ (
      c,
      rw (is_eq-true text_option-discrete _ _ same)
          (ap (λ x. Outcome.ok c (record t { app_id = x })) same),
      refl,
      record {
        title = h.title;
        app_id = λ x e. h.app_id x (same ∙ e);
        decoration = h.decoration;
        max_size = h.max_size;
        min_size = h.min_size;
      },
    )
    | no other ↦ changed v other
  ]
    where
      changed :
          (v : Option (List ℕ))
          → ¬ (t.app_id ≡ v)
          → Sets (record t { app_id = v }) (set_app_id v t) c
      changed none other = (
        c,
        rw (is_eq-false text_option-discrete _ _ other) refl,
        refl,
        record {
          title = h.title;
          app_id = λ x e. absurd (cc e);
          decoration = h.decoration;
          max_size = h.max_size;
          min_size = h.min_size;
        },
      )
      changed (some text) other = (
        record c { asked = c.asked ++ Asked.set_app_id t.local_window text ∷ [] },
        rw (is_eq-false text_option-discrete _ _ other) refl,
        refl,
        record {
          title = λ x e.
              last_told-silent (title_of t.local_window) none c.asked
                (Asked.set_app_id t.local_window text) refl (h.title x e);
          app_id = λ x e.
              last_told-append (app_id_of t.local_window) none c.asked
                (Asked.set_app_id t.local_window text)
              ∙ rw (==-true t.local_window t.local_window refl) (ap (λ y. some (y)) (some-inj e));
          decoration =
              last_told-silent (decoration_of t.local_window) none c.asked
                (Asked.set_app_id t.local_window text) refl h.decoration;
          max_size =
              last_told-silent (max_size_of t.local_window) no_size c.asked
                (Asked.set_app_id t.local_window text) refl h.max_size;
          min_size =
              last_told-silent (min_size_of t.local_window) no_size c.asked
                (Asked.set_app_id t.local_window text) refl h.min_size;
        },
      )
