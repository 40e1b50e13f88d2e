-- ===== src/Tests/Outputs.antt =====
-- The theorem on a surface's outputs at concrete ids.
use wprs.Base.{some, [], ◌∷◌, ◌≡◌, refl, sym}
use wprs.Client.Subsurface.Linked.{some-inj}
use wprs.Outputs.{contains, update_surface_outputs}
use wprs.Outputs.Crossings.{is_on, update_surface_outputs-is_on}

update_surface_outputs-is_on_example :
    is_on
      (λ o. o)
      (update_surface_outputs (2 ∷ 3 ∷ []) (1 ∷ 2 ∷ []) some)
      (λ i. contains (1 ∷ 2 ∷ []) i)
      3
    ≡ contains (2 ∷ 3 ∷ []) 3
update_surface_outputs-is_on_example =
    update_surface_outputs-is_on (λ o. o) (2 ∷ 3 ∷ []) (1 ∷ 2 ∷ []) some 3 3
      (λ id o e. sym (some-inj e)) refl
