-- ===== src/Filtering/Encode/Blocks.antt =====
-- src/filtering.rs: the loops of the filter over blocks, compression blocks and threads, as plain
-- predictions of the pixels that they run over.
use mathlib.Core.List.{flatten}
use wprs.Base.{
  ℕ, ◌<◌, ◌≡◌, refl, sym, ap, ap₂, ◌∙◌, some, List, [], ◌∷◌, ◌++◌, map, flatten-cons, All,
  All-tabulate,
}
use wprs.Simd.{Lanes}
use wprs.Pixels.{Memory, Vec4u8}
use wprs.BufferPointer.{BufferPointer, KnownSizeBufferPointer, vec4u8_pod}
use wprs.BufferPointer.Elements.{elements, block, IsUsable}
use wprs.Filtering.Planes.{Quad, delta, last_or, IsPixel}
use wprs.Filtering.Planes.Encode.{
  encode, carry, encode-append, carry-append, carry-IsByteQuad, IsByteQuad,
}
use wprs.Filtering.Block.{aos_to_soa_u8_32x4}
use wprs.Filtering.Block.Forward.{aos_to_soa_u8_32x4_lem}
use wprs.Filtering.Encode.{filter_blocks}

module _ (upper : Lanes ℕ) (m : Memory) (bytes : (a : ℕ) → m a < 256) where
  pub elements-IsPixel : (b : BufferPointer) → All IsPixel (elements vec4u8_pod m b)
  elements-IsPixel b = All-tabulate IsPixel b.len _ (λ i h. (bytes _, bytes _, bytes _, bytes _))

  -- The pixels that a list of blocks points to.
  abbrev pub pixels : List (KnownSizeBufferPointer 32) → List Vec4u8
  pixels ks = flatten (map (block vec4u8_pod m) ks)

  filter_blocks-cons :
      (k : KnownSizeBufferPointer 32) (ks : List (KnownSizeBufferPointer 32)) (prev : Quad ℕ)
      (ps qs : List Vec4u8)
      → aos_to_soa_u8_32x4 upper m k prev ≡ some (encode prev ps, carry prev ps)
      → filter_blocks upper m ks (carry prev ps)
        ≡ some (encode (carry prev ps) qs, carry (carry prev ps) qs)
      → filter_blocks upper m (k ∷ ks) prev ≡ some (encode prev (ps ++ qs), carry prev (ps ++ qs))
  unfolding filter_blocks
  filter_blocks-cons k ks prev ps qs e f =
      rw (e, f)
        (ap some
          (ap₂ (λ x y. (x, y)) (sym (encode-append prev ps qs)) (sym (carry-append prev ps qs))))

  pub filter_blocks_lem :
      (ks : List (KnownSizeBufferPointer 32)) (prev : Quad ℕ)
      → All (IsUsable vec4u8_pod) ks
      → IsByteQuad prev
      → filter_blocks upper m ks prev ≡ some (encode prev (pixels ks), carry prev (pixels ks))
  filter_blocks_lem [] prev us b = unfold filter_blocks flatten delta last_or in refl
  filter_blocks_lem (k ∷ ks) prev us b =
      filter_blocks-cons k ks prev (block vec4u8_pod m k) (pixels ks)
        (aos_to_soa_u8_32x4_lem upper m k us.0 bytes prev b.0 b.1 b.2 b.3)
        (filter_blocks_lem ks (carry prev (block vec4u8_pod m k)) us.1
          (carry-IsByteQuad prev _ b (elements-IsPixel _)))
      ∙ ap (λ ps. some (encode prev ps, carry prev ps))
          (sym (flatten-cons (block vec4u8_pod m k) (map (block vec4u8_pod m) ks)))
