-- ===== src/Outputs.antt =====
-- src/compositor_utils.rs: update_surface_outputs. A HashSet is the list of what is in it, in the
-- order in which it is iterated; an output is what the caller keeps.
pub mod Crossings
use wprs.Base.{
  ℕ, Bool, not, Option, none, some, List, [], ◌∷◌, ◌++◌, ◌==◌, if◌then◌else◌, any, filter,
}

-- What smithay is asked: Output::enter and Output::leave, for the surface.
pub data Crossing {ℓ} (O : Type ℓ) : Type ℓ where
  enter : O → Crossing O
  leave : O → Crossing O

-- HashSet::contains
abbrev pub contains : List ℕ → ℕ → Bool
contains ids id = any (λ i. i == id) ids

-- HashSet::difference
unfoldable pub difference : List ℕ → List ℕ → List ℕ
difference ids others = filter (λ id. not (contains others id)) ids

module _ {ℓ} {O : Type ℓ} where
  -- One of the two loops.
  unfoldable pub cross : (O → Crossing O) → (ℕ → Option O) → List ℕ → List (Crossing O)
  cross crossing output_accessor [] = []
  cross crossing output_accessor (id ∷ ids) =
      let rest = cross crossing output_accessor ids in
      elim (output_accessor id) [ none ↦ rest | some output ↦ crossing output ∷ rest ]

  unfoldable pub update_surface_outputs : List ℕ → List ℕ → (ℕ → Option O) → List (Crossing O)
  update_surface_outputs new_ids old_ids output_accessor =
      cross Crossing.enter output_accessor (difference new_ids old_ids)
      ++ cross Crossing.leave output_accessor (difference old_ids new_ids)
