-- ===== src/Filtering/Block/Forward.antt =====
-- src/filtering.rs: aos_to_soa_u8_32x4 against differences of the planes.
use wprs.Base.{
  ℕ, zero, suc, ◌+◌, ◌*◌, ◌/◌, ◌%◌, ◌<◌, ◌≡◌, refl, sym, ap, ap₂, ◌∙◌, arith, some, List, ◌∷◌, map,
  get_or, tabulate, tabulate_ext, map-tabulate, all_some-tabulate, get_or-tabulate,
}
use wprs.Simd.{Lanes, sub_u8, sub_epi8, store_m256i}
use wprs.Pixels.{Memory, Vec4u8, read_vec4u8}
use wprs.BufferPointer.{KnownSizeBufferPointer, vec4u8_pod, as_chunks, new_known_size}
use wprs.BufferPointer.Elements.{block, IsUsable}
use wprs.Filtering.Prediction.{running_difference_32}
use wprs.Filtering.Prediction.Sums.{before, running_difference_32-eq-sub}
use wprs.Filtering.Transpose.{
  Registers, to_channels, to_channels-t0, to_channels-t1, to_channels-t2, to_channels-t3,
}
use wprs.Filtering.Planes.{Quad, quad_path, planes_of, delta, last_or, zip_quad}
use wprs.Filtering.Block.{load_m128i_vec4u8, filter_registers, aos_to_soa_u8_32x4}

delta-tabulate :
    (p n : ℕ) (f : ℕ → ℕ) → delta p (tabulate n f) ≡ tabulate n (λ i. sub_u8 (f i) (before f p i))
unfolding delta tabulate
delta-tabulate p zero f = refl
delta-tabulate p (suc n) f =
    ap (λ ys. sub_u8 (f 0) p ∷ ys)
      (delta-tabulate (f 0) n (λ i. f (suc i))
        ∙ tabulate_ext n _ (λ i. sub_u8 (f (suc i)) (f i)) (shift f))
  where
    shift :
        (f : ℕ → ℕ) (i : ℕ)
        → i < n
        → sub_u8 (f (suc i)) (before (λ i. f (suc i)) (f 0) i) ≡ sub_u8 (f (suc i)) (f i)
    shift f zero h = refl
    shift f (suc i) h = refl

last_or-tabulate : (p n : ℕ) (f : ℕ → ℕ) → last_or p (tabulate (suc n) f) ≡ f n
unfolding last_or tabulate
last_or-tabulate p zero f = refl
last_or-tabulate p (suc n) f = last_or-tabulate (f 0) n (λ i. f (suc i))

-- One channel, whose register agrees with `f`.
module _ (t f : Lanes ℕ) (p : ℕ) (h : (i : ℕ) → i < 32 → t i ≡ f i)
    (bytes : (i : ℕ) → i < 32 → f i < 256) (byte : p < 256) where
  channel_out : store_m256i (running_difference_32 t p).0 ≡ delta p (tabulate 32 f)
  unfolding store_m256i
  channel_out =
      tabulate_ext 32 (running_difference_32 t p).0 (λ i. sub_u8 (f i) (before f p i)) lane
      ∙ sym (delta-tabulate p 32 f)
    where
      lane : (i : ℕ) → i < 32 → (running_difference_32 t p).0 i ≡ sub_u8 (f i) (before f p i)
      lane zero b = ground (
        arith,
        running_difference_32-eq-sub t p zero b,
        h zero b,
        h 15 (omega arith),
        bytes 15 (omega arith),
      )
      lane (suc i) b = ground (
        arith,
        running_difference_32-eq-sub t p (suc i) b,
        h (suc i) b,
        h i (omega arith),
        h 15 (omega arith),
        bytes 15 (omega arith),
      )

  channel_next : (running_difference_32 t p).1 ≡ last_or p (tabulate 32 f)
  unfolding running_difference_32
  channel_next = h 31 (omega arith) ∙ sym (last_or-tabulate p 31 f)

module _ (upper : Lanes ℕ) (m : Memory) (k : KnownSizeBufferPointer 32)
    (usable : IsUsable vec4u8_pod k) where
  part : ℕ → KnownSizeBufferPointer 4
  part i = record { ptr = k.ptr + i * 32 / 8 * 4 }

  parts_lem : as_chunks vec4u8_pod 4 8 32 k ≡ some (tabulate 8 part)
  unfolding as_chunks part
  parts_lem =
      all_some-tabulate 8 (λ i. new_known_size vec4u8_pod 4 (k.ptr + i * 32 / 8 * 4)) part
        (λ i h. ground (arith, usable.not_null))

  abbrev loaded : List (Lanes ℕ)
  loaded = map (load_m128i_vec4u8 m) (tabulate 8 part)

  abbrev registers : Registers
  registers = to_channels upper (λ j. get_or loaded j upper)

  -- Byte `c` of pixel `i`, as the loads reach it.
  loaded_byte :
      (i c : ℕ) → i < 32 → get_or loaded (i / 4) upper (i % 4 * 4 + c) ≡ m (k.ptr + i * 4 + c)
  unfolding load_m128i_vec4u8 part
  loaded_byte i c h =
      rw
        (map-tabulate (load_m128i_vec4u8 m) 8 part, get_or-tabulate 8 _ upper (i / 4) (omega arith))
        (ap m (omega arith))

  abbrev pixel : ℕ → Vec4u8
  pixel i = read_vec4u8 m (k.ptr + i * 4)

  lane0 : (i : ℕ) → i < 32 → registers.t0 i ≡ (pixel i).c0
  lane0 i h =
      to_channels-t0 upper _ i h
      ∙ ap (get_or loaded (i / 4) upper) (let e : i % 4 * 4 ≡ i % 4 * 4 + 0 = omega arith in e)
      ∙ loaded_byte i 0 h
      ∙ ap m (let e : k.ptr + i * 4 + 0 ≡ k.ptr + i * 4 = omega arith in e)

  lane1 : (i : ℕ) → i < 32 → registers.t1 i ≡ (pixel i).c1
  lane1 i h = to_channels-t1 upper _ i h ∙ loaded_byte i 1 h

  lane2 : (i : ℕ) → i < 32 → registers.t2 i ≡ (pixel i).c2
  lane2 i h = to_channels-t2 upper _ i h ∙ loaded_byte i 2 h

  lane3 : (i : ℕ) → i < 32 → registers.t3 i ≡ (pixel i).c3
  lane3 i h = to_channels-t3 upper _ i h ∙ loaded_byte i 3 h

  module _ (bytes : (a : ℕ) → m a < 256) (prev : Quad ℕ) (p0 : prev.q0 < 256) (p1 : prev.q1 < 256)
      (p2 : prev.q2 < 256) (p3 : prev.q3 < 256) where
    -- The four registers that are differenced, and the planes of the block that they hold.
    plane0 : ℕ → ℕ
    plane0 i = sub_u8 (pixel i).c0 (pixel i).c1

    plane2 : ℕ → ℕ
    plane2 i = sub_u8 (pixel i).c2 (pixel i).c1

    agree0 : (i : ℕ) → i < 32 → sub_epi8 registers.t0 registers.t1 i ≡ plane0 i
    unfolding plane0
    agree0 i h = ap₂ sub_u8 (lane0 i h) (lane1 i h)

    agree2 : (i : ℕ) → i < 32 → sub_epi8 registers.t2 registers.t1 i ≡ plane2 i
    unfolding plane2
    agree2 i h = ap₂ sub_u8 (lane2 i h) (lane1 i h)

    block_plane : (g : Vec4u8 → ℕ) → map g (block vec4u8_pod m k) ≡ tabulate 32 (λ i. g (pixel i))
    block_plane g = map-tabulate g 32 pixel

    -- `aos_to_soa_u8_32x4` of 32 pixels at a usable address, in a memory of bytes and with bytes
    -- carried in, returns the differences of the four planes of the pixels, blue and red less
    -- green, and the last byte of each plane.
    pub aos_to_soa_u8_32x4_lem :
        aos_to_soa_u8_32x4 upper m k prev
        ≡ some (
          zip_quad delta prev (planes_of (block vec4u8_pod m k)),
          zip_quad last_or prev (planes_of (block vec4u8_pod m k)),
        )
    unfolding aos_to_soa_u8_32x4 filter_registers plane0 plane2
    aos_to_soa_u8_32x4_lem =
        rw (parts_lem, block_plane, block_plane, block_plane, block_plane)
          (ap some (
            ap₂ (λ x y. (x, y))
              (quad_path (channel_out _ plane0 prev.q0 agree0 bytes0 p0)
                (channel_out _ (λ i. (pixel i).c1) prev.q1 lane1 (λ i h. bytes _) p1)
                (channel_out _ plane2 prev.q2 agree2 bytes2 p2)
                (channel_out _ (λ i. (pixel i).c3) prev.q3 lane3 (λ i h. bytes _) p3))
              (quad_path (channel_next _ plane0 prev.q0 agree0 bytes0 p0)
                (channel_next _ (λ i. (pixel i).c1) prev.q1 lane1 (λ i h. bytes _) p1)
                (channel_next _ plane2 prev.q2 agree2 bytes2 p2)
                (channel_next _ (λ i. (pixel i).c3) prev.q3 lane3 (λ i h. bytes _) p3))))
      where
        bytes0 : (i : ℕ) → i < 32 → plane0 i < 256
        bytes0 i h = omega arith

        bytes2 : (i : ℕ) → i < 32 → plane2 i < 256
        bytes2 i h = omega arith
