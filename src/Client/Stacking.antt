-- ===== src/Client/Stacking.antt =====
-- src/client/mod.rs: RemoteSurface::reorder_children, and the stack of the local compositor that its
-- moves are for. The children are listed from the top of the stack.
pub mod Ids
pub mod Moves
pub mod Reordering
pub mod Kept
use wprs.Base.{
  ℕ, zero, suc, Bool, true, false, Option, none, some, List, [], ◌∷◌, ◌++◌, map, ◌==◌,
  if◌then◌else◌, ◌>>=◌, get_elem?, set_elem, remove, insert_at, filter, reverse, position, any,
}
use wprs.Wayland.{SubsurfacePosition}

-- The set of the children's ids, as a test.
unfoldable pub contains : ℕ → List SubsurfacePosition → Bool
contains id children = any (λ c. c.id == id) children

-- One round of the loop: the children after it and the move of it. `none` is an index out of range.
unfoldable pub reorder_child :
    ℕ
    → SubsurfacePosition
    → List SubsurfacePosition
    → Option (List SubsurfacePosition × List (ℕ × ℕ))
reorder_child idx elem children = do
  current_elem ← get_elem? children idx
  if current_elem.id == elem.id then some (set_elem children idx elem, []) else (do
    current_idx ← position (λ x. x.id == elem.id) children
    some (insert_at idx elem (remove current_idx children), (elem.id, current_elem.id) ∷ []))

unfoldable pub reorder_loop :
    ℕ
    → List SubsurfacePosition
    → List SubsurfacePosition
    → Option (List SubsurfacePosition × List (ℕ × ℕ))
reorder_loop idx [] children = some (children, [])
reorder_loop idx (elem ∷ new_order) children = do
  (children', moved) ← reorder_child idx elem children
  (children'', moves) ← reorder_loop (suc idx) new_order children'
  some (children'', moved ++ moves)

unfoldable pub reorder_children :
    List SubsurfacePosition
    → List SubsurfacePosition
    → Option (List SubsurfacePosition × List (ℕ × ℕ))
reorder_children new_order children =
    reorder_loop 0 (filter (λ elem. contains elem.id children) (reverse new_order)) children
