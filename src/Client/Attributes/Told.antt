-- ===== src/Client/Attributes/Told.antt =====
-- src/client/mod.rs: regions are sent only when they have changed, and the compositor still has the one
-- of the last commit.
use wprs.Base.{
  ℕ, true, false, Option, none, some, [], ◌∷◌, ◌++◌, ◌==◌, ◌≡◌, refl, ◌∙◌, if◌then◌else◌, ==-true,
}
use wprs.Wayland.{Region}
use wprs.Wayland.Equality.{Region_option-discrete, is_eq-true, is_eq-false}
use wprs.Client.{
  RemoteSurface, Asked, Compositor, ClientState, Outcome, ◌>>=◌, get, put, ask, insert, wl_surface,
}
use wprs.Client.Attributes.{create_compositor_region, set_input_region, set_opaque_region}
use wprs.Client.Told.{last_told, last_told-append}
use wprs.Client.Subsurface.Linked.{insert-same}

-- The input region of a local surface, none at first.
abbrev pub input_region_of : ℕ → Asked → Option (Option Region)
input_region_of wl (Asked.set_input_region l region) = if l == wl then some region else none
input_region_of wl _ = none

abbrev pub opaque_region_of : ℕ → Asked → Option (Option Region)
opaque_region_of wl (Asked.set_opaque_region l region) = if l == wl then some region else none
opaque_region_of wl _ = none

module _ {B : Type 0} (compositor : Compositor B) where
  region_made :
      (region : Option Region) (c : ClientState B)
      → compositor.makes_region c.asked ≡ true
      → create_compositor_region compositor region c ≡ Outcome.ok c tt
  unfolding create_compositor_region
  region_made none c makes = refl
  region_made (some r) c makes = rw makes refl

  -- When the compositor makes a region if it is asked for one, and was last told the input region
  -- that is kept for a shown surface, `set_input_region` returns, and the region is then both the
  -- one that is kept and the one that the compositor was last told, whether or not it had
  -- changed.
  pub set_input_region-last_told :
      (key wl : ℕ) (s : RemoteSurface) (region : Option Region) (c : ClientState B)
      → c.surfaces key ≡ some s
      → wl_surface s ≡ some wl
      → compositor.makes_region c.asked ≡ true
      → last_told (input_region_of wl) none c.asked ≡ s.input_region
      → (c' : ClientState B) × (s' : RemoteSurface) × (set_input_region compositor key region c
          ≡ Outcome.ok c' tt)
        × (c'.surfaces key ≡ some s')
        × (s'.input_region ≡ region)
        × (last_told (input_region_of wl) none c'.asked ≡ region)
  unfolding set_input_region get put ask
  set_input_region-last_told key wl s region c there shown makes told =
      elim (Region_option-discrete s.input_region region) [
        | yes same ↦ (
          c,
          s,
          rw (set_input_region, ◌>>=◌, there, is_eq-true Region_option-discrete _ _ same) refl,
          there,
          same,
          told ∙ same,
        )
        | no other ↦ (
          record c {
            surfaces = insert key (record s { input_region = region }) c.surfaces;
            asked = c.asked ++ Asked.set_input_region wl region ∷ [];
          },
          record s { input_region = region },
          rw
              (
                set_input_region,
                ◌>>=◌,
                there,
                is_eq-false Region_option-discrete _ _ other,
                shown,
                region_made region
                    (record c {
                      surfaces = insert key (record s { input_region = region }) c.surfaces;
                    })
                    makes,
              )
              refl,
          insert-same key _ c.surfaces,
          refl,
          last_told-append (input_region_of wl) none c.asked (Asked.set_input_region wl region)
              ∙ rw (==-true wl wl refl) refl,
        )
      ]

  -- The same for opaque regions.
  pub set_opaque_region-last_told :
      (key wl : ℕ) (s : RemoteSurface) (region : Option Region) (c : ClientState B)
      → c.surfaces key ≡ some s
      → wl_surface s ≡ some wl
      → compositor.makes_region c.asked ≡ true
      → last_told (opaque_region_of wl) none c.asked ≡ s.opaque_region
      → (c' : ClientState B) × (s' : RemoteSurface) × (set_opaque_region compositor key region c
          ≡ Outcome.ok c' tt)
        × (c'.surfaces key ≡ some s')
        × (s'.opaque_region ≡ region)
        × (last_told (opaque_region_of wl) none c'.asked ≡ region)
  unfolding set_opaque_region get put ask
  set_opaque_region-last_told key wl s region c there shown makes told =
      elim (Region_option-discrete s.opaque_region region) [
        | yes same ↦ (
          c,
          s,
          rw (set_opaque_region, ◌>>=◌, there, is_eq-true Region_option-discrete _ _ same) refl,
          there,
          same,
          told ∙ same,
        )
        | no other ↦ (
          record c {
            surfaces = insert key (record s { opaque_region = region }) c.surfaces;
            asked = c.asked ++ Asked.set_opaque_region wl region ∷ [];
          },
          record s { opaque_region = region },
          rw
              (
                set_opaque_region,
                ◌>>=◌,
                there,
                is_eq-false Region_option-discrete _ _ other,
                shown,
                region_made region
                    (record c {
                      surfaces = insert key (record s { opaque_region = region }) c.surfaces;
                    })
                    makes,
              )
              refl,
          insert-same key _ c.surfaces,
          refl,
          last_told-append (opaque_region_of wl) none c.asked (Asked.set_opaque_region wl region)
              ∙ rw (==-true wl wl refl) refl,
        )
      ]

  -- When the compositor does not make a region, `set_input_region` of one that is not the one
  -- kept fails for a shown surface, and called again with the same region it succeeds without a
  -- request.
  pub set_input_region-set_input_region :
      (key wl : ℕ) (s : RemoteSurface) (region : Region) (c : ClientState B)
      → c.surfaces key ≡ some s
      → wl_surface s ≡ some wl
      → ¬ (s.input_region ≡ some region)
      → compositor.makes_region c.asked ≡ false
      → (c' : ClientState B) × (set_input_region compositor key (some region) c ≡ Outcome.err c')
        × (set_input_region compositor key (some region) c' ≡ Outcome.ok c' tt)
        × (c'.asked ≡ c.asked)
  unfolding set_input_region create_compositor_region get put
  set_input_region-set_input_region key wl s region c there shown other fails =
      let t : RemoteSurface = record s { input_region = some region } in
      (
        record c { surfaces = insert key t c.surfaces },
        rw
            (
              set_input_region,
              ◌>>=◌,
              there,
              is_eq-false Region_option-discrete _ _ other,
              shown,
              fails,
            )
            refl,
        rw
            (
              set_input_region,
              ◌>>=◌,
              insert-same key t c.surfaces,
              is_eq-true Region_option-discrete (some region) (some region) refl,
            )
            refl,
        refl,
      )
