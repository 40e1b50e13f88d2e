-- ===== src/BufferPointer/Iteration.antt =====
-- src/buffer_pointer.rs: BufferPointerIter, in terms of the elements that a buffer points to.
use wprs.Base.{
  ℕ, zero, suc, ◌+◌, ◌*◌, ◌<◌, ◌≡◌, ap, ◌∙◌, arith, some, tabulate, tabulate_ext, tabulate-suc, sym,
  le→leb, leb-false, List, ◌∷◌, ap₂,
}
use wprs.Pixels.{Memory}
use wprs.BufferPointer.{
  Pod, BufferPointer, BufferPointerIter, next_element, collect_elements, into_list,
}
use wprs.BufferPointer.Elements.{elements}

module _ {ℓ} {T : Type ℓ} (pod : Pod T) (m : Memory) (b : BufferPointer) where
  abbrev at : ℕ → BufferPointerIter
  at idx = record { ptr = b; idx = idx }

  abbrev item : ℕ → T
  item i = pod.read m (b.ptr + i * pod.size)

  collect_elements-cons :
      (fuel idx : ℕ) (rest : List T)
      → idx < b.len
      → collect_elements pod m fuel (at (idx + 1)) ≡ some rest
      → collect_elements pod m (suc fuel) (at idx) ≡ some (item idx ∷ rest)
  unfolding collect_elements next_element
  collect_elements-cons fuel idx rest h e =
      rw (leb-false b.len idx h, collect_elements) (rw (leb-false b.len idx h, next_element) (rw e))

  collect_elements-rest :
      (fuel left idx : ℕ)
      → left < fuel
      → idx + left ≡ b.len
      → collect_elements pod m fuel (at idx) ≡ some (tabulate left (λ i. item (idx + i)))
  collect_elements-rest zero left idx lt e = absurd (omega arith)
  collect_elements-rest (suc fuel) zero idx lt e =
      unfold collect_elements next_element tabulate in
      rw (le→leb b.len idx (omega arith), collect_elements)
  collect_elements-rest (suc fuel) (suc left) idx lt e =
      collect_elements-cons fuel idx _ (omega arith)
        (collect_elements-rest fuel left (idx + 1) (omega arith) (omega arith))
      ∙ ap some (shift left)
    where
      shift :
          (left : ℕ)
          → item idx ∷ tabulate left (λ i. item (idx + 1 + i))
            ≡ tabulate (suc left) (λ i. item (idx + i))
      shift left =
          ap₂ ◌∷◌ (ap item (omega arith))
            (tabulate_ext left _ (λ i. item (idx + suc i)) (λ i h. ap item (omega arith)))
          ∙ sym (tabulate-suc left (λ i. item (idx + i)))

  -- The iterator over a buffer delivers every element, in order, and then ends.
  pub into_list-eq-elements : into_list pod m b ≡ some (elements pod m b)
  unfolding into_list
  into_list-eq-elements =
      collect_elements-rest (suc b.len) b.len 0 (omega arith) (omega arith)
      ∙ ap some (tabulate_ext b.len _ _ (λ i h. ap item (omega arith)))
