-- ===== src/ArcSlice/View.antt =====
-- src/arc_slice.rs: the items that a slice and its chunk iterator show.
use native.Mathlib.Nat.{le_refl}
use wprs.Base.{
  ℕ, zero, suc, ◌+◌, ◌-◌, ◌≤◌, ◌<◌, min, ◌≡◌, sym, ap, ap₂, ◌∙◌, arith, some, List, [], ◌∷◌, map,
  take, drop, length, le→leb, ==-false, dec_lt, length-take, length-drop, All, take-min, drop-min,
  take-all, take-take, drop-take, drop-drop,
}
use wprs.Base.Chunks.{slice_chunks, slice_chunks-nil, slice_chunks-step}
use wprs.ArcSlice.{ArcSlice, Chunks, new, split_at, as_ref, next, collect}

module _ {ℓ} {T : Type ℓ} where
  abbrev pub view : ArcSlice T → List T
  view s = take s.len (drop s.offset s.shared)

  abbrev pub IsInside : ArcSlice T → Type 0
  IsInside s = s.offset + s.len ≤ length s.shared

  pub new-view : (xs : List T) → view (new xs) ≡ xs
  unfolding new
  new-view xs = take-all (length xs) xs (le_refl _)

  pub length-view : (s : ArcSlice T) → IsInside s → length (view s) ≡ s.len
  length-view s h =
      omega (arith, length-take s.len (drop s.offset s.shared), length-drop s.offset s.shared)

  pub as_ref-view : (s : ArcSlice T) → IsInside s → as_ref s ≡ some (view s)
  unfolding as_ref
  as_ref-view s h = rw (le→leb (s.offset + s.len) (length s.shared) h)

  abbrev pub front : ArcSlice T → ℕ → ArcSlice T
  front s mid = record { shared = s.shared; offset = s.offset + 0; len = mid - 0 }

  abbrev pub back : ArcSlice T → ℕ → ArcSlice T
  back s mid = record { shared = s.shared; offset = s.offset + mid; len = s.len - mid }

  pub split_at-front :
      (s : ArcSlice T) (mid : ℕ) → mid ≤ s.len → split_at s mid ≡ some (front s mid, back s mid)
  unfolding split_at
  split_at-front s mid h = rw (le→leb mid s.len h, le→leb s.len s.len (le_refl _))

  next-some :
      (c : Chunks T)
      → 0 < c.arc_slice.len
      → next c
        ≡ some (
          some (front c.arc_slice (min c.arc_slice.len c.chunk_size)),
          record {
            arc_slice = back c.arc_slice (min c.arc_slice.len c.chunk_size);
            chunk_size = c.chunk_size;
          },
        )
  unfolding next
  next-some c h = rw (
    ==-false c.arc_slice.len 0 (omega arith),
    split_at-front c.arc_slice (min c.arc_slice.len c.chunk_size) (omega arith),
  )

  view-front : (s : ArcSlice T) (mid : ℕ) → mid ≤ s.len → view (front s mid) ≡ take mid (view s)
  view-front s mid h =
      ap₂ (λ k o. take k (drop o s.shared)) (let e : mid - 0 ≡ mid = omega arith in e)
        (let e : s.offset + 0 ≡ s.offset = omega arith in e)
      ∙ sym (take-take mid s.len (drop s.offset s.shared) h)

  view-back : (s : ArcSlice T) (mid : ℕ) → mid ≤ s.len → view (back s mid) ≡ drop mid (view s)
  view-back s mid h =
      ap (take (s.len - mid)) (sym (drop-drop mid s.offset s.shared))
      ∙ sym (drop-take mid s.len (drop s.offset s.shared))

  collect-cons :
      (fuel : ℕ) (c c' : Chunks T) (s : ArcSlice T) (rest : List (ArcSlice T))
      → next c ≡ some (some s, c')
      → collect fuel c' ≡ some rest
      → collect (suc fuel) c ≡ some (s ∷ rest)
  unfolding collect
  collect-cons fuel c c' s rest e r = rw (e, r)

  collect-done :
      (fuel n : ℕ) (s : ArcSlice T)
      → s.len ≡ 0
      → collect (suc fuel) (record { arc_slice = s; chunk_size = n }) ≡ some []
  unfolding collect next
  collect-done fuel n s h = ground (arith, h)

  module _ (n : ℕ) (pos : 0 < n) where
    -- The chunk iterator over a slice that lies inside its data, for a positive size and more
    -- rounds of fuel than items, ends without a panic, and its slices lie inside the data and
    -- show the chunks of what the slice shows.
    pub collect-view :
        (fuel : ℕ) (s : ArcSlice T)
        → IsInside s
        → s.len < fuel
        → (ss : List (ArcSlice T)) × (collect fuel (record { arc_slice = s; chunk_size = n })
            ≡ some ss)
          × (map view ss ≡ slice_chunks n (view s))
          × All IsInside ss
    collect-view zero s v lt = absurd (omega arith)
    collect-view (suc fuel) s v lt = elim (dec_lt 0 s.len) [
      | no done ↦ (
        [],
        collect-done fuel n s (omega arith),
        sym (slice_chunks-nil n (view s) (omega (arith, length-view s v))),
        tt,
      )
      | yes more ↦
          (let size = min s.len n in
            let rest = collect-view fuel (back s size) (omega arith) (omega arith) in
            (
              front s size ∷ rest.0,
              collect-cons fuel _ _ _ _ (next-some (record { arc_slice = s; chunk_size = n }) more)
                  rest.1,
              ap₂ ◌∷◌ (view-front s size (omega arith))
                    (rest.2 ∙ ap (slice_chunks n) (view-back s size (omega arith)))
                  ∙ sym (chunk_step s v more),
              (omega arith, rest.3),
            ))
    ]
      where
        chunk_step :
            (s : ArcSlice T)
            → IsInside s
            → 0 < s.len
            → slice_chunks n (view s)
              ≡ take (min s.len n) (view s) ∷ slice_chunks n (drop (min s.len n) (view s))
        chunk_step s v more =
            slice_chunks-step n (view s) pos (omega (arith, length-view s v))
            ∙ ap₂ (λ x y. x ∷ slice_chunks n y)
                (sym (take-min n (view s)) ∙ ap (λ k. take (min k n) (view s)) (length-view s v))
                (sym (drop-min n (view s)) ∙ ap (λ k. drop (min k n) (view s)) (length-view s v))
