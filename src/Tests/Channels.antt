-- ===== src/Tests/Channels.antt =====
-- The theorems on slices, frames, shards and serials at concrete inputs.
use mathlib.Core.List.{Permᴰ}
use wprs.Base.{
  ℕ, ◌≡◌, refl, arith, none, some, List, [], ◌∷◌, map, take, drop, if◌then◌else◌, ◌==◌, ◌>>=◌, All,
}
use wprs.Base.Chunks.{slice_chunks}
use wprs.SerialMap
use wprs.SerialMap.{SerialMap}
use wprs.SerialMap.Pruning.{remove-insert}
use wprs.ArcSlice
use wprs.ArcSlice.{ArcSlice}
use wprs.ArcSlice.View.{view, IsInside, collect-view}
use wprs.Framing.{Framed, framed_vec}
use wprs.Framing.Laws.{framed_vec-cut}
use wprs.FrameThrottling.Spacing.{IsSpaced, sent_at, sent_at-IsSpaced}
use wprs.Shards
use wprs.Shards.{
  CompressedShard, CompressedShards, Rkyv, Submission, framed_shard, framed_shards, indices,
  sort_by_key, streaming_framed_read, uncompressed_size,
}
use wprs.Compress.{
  Reaches, Session, Zstd, begin, collect_shards, compress, compress_shard, compress_submission,
}
use wprs.Compress.Scheduling.{Reaches-Perm, collect_shards-eq, collect_shards-returns}
use wprs.Decompress.{SplitTo, decompress_to_owned}
use wprs.Decompress.Pipeline.{compress-decompress_to_owned}

abbrev slice : ArcSlice ℕ
slice = record { shared = 1 ∷ 2 ∷ 3 ∷ 4 ∷ 5 ∷ []; offset = 1; len = 3 }

collect-view_example :
    (ss : List (ArcSlice ℕ)) × (ArcSlice.collect 4 (record { arc_slice = slice; chunk_size = 2 })
      ≡ some ss)
    × (map view ss ≡ slice_chunks 2 (2 ∷ 3 ∷ 4 ∷ []))
    × All IsInside ss
collect-view_example = collect-view 2 (omega arith) 4 slice (omega arith) (omega arith)

framed_vec-cut_example :
    Framed.framed_read framed_vec (take 5 (Framed.framed_write framed_vec (9 ∷ 8 ∷ []))) ≡ none
framed_vec-cut_example = framed_vec-cut (9 ∷ 8 ∷ []) 5 (omega arith) (omega arith)

-- A compressor that copies, and the `split_to` of lists.
abbrev plain : Zstd
plain = record { compress = λ xs. xs; decompress_to_buffer = λ xs capacity. some xs }

abbrev cut_at : SplitTo
cut_at k buf = some (take k buf, drop k buf)

abbrev first : Submission
first = record { idx = 0; input = 1 ∷ 2 ∷ [] }

abbrev second : Submission
second = record { idx = 2; input = 3 ∷ [] }

abbrev out : Submission → CompressedShard
out = compress_submission plain

abbrev at : ℕ → CompressedShard
at i = if i == 0 then out first else out second

-- Two submissions, of which the second is answered first.
abbrev answered : Session
answered = record {
  compressor_input = [];
  compressor_output = out second ∷ out first ∷ [];
  pending_shards = 2;
}

answered-Reaches : Reaches plain (second ∷ first ∷ []) answered
unfolding begin compress_shard
answered-Reaches = Reaches.finished [] first [] (out second ∷ []) 2 (
    Reaches.finished (first ∷ []) second [] [] 2
      (Reaches.submitted second (Reaches.submitted first Reaches.started)))

Reaches-Perm_example : Permᴰ (out second ∷ out first ∷ []) (out second ∷ out first ∷ [])
Reaches-Perm_example = Reaches-Perm plain answered-Reaches

collect_shards-eq_example :
    collect_shards answered ≡ some (Shards.new (out second ∷ out first ∷ []))
unfolding compress_submission
collect_shards-eq_example = collect_shards-eq plain at answered-Reaches refl (refl, (refl, tt))

collect_shards-returns_example :
    (c' : Session) × Reaches plain (second ∷ first ∷ []) c'
    × (collect_shards c' ≡ some (Shards.new (out second ∷ out first ∷ [])))
unfolding compress_submission
collect_shards-returns_example =
    collect_shards-returns plain at
      (Reaches.submitted second (Reaches.submitted first Reaches.started)) (refl, (refl, tt))

compress-decompress_to_owned_example :
    (compress 2 (ArcSlice.new (5 ∷ 6 ∷ 7 ∷ 8 ∷ 9 ∷ [])) >>= λ subs.
    let c = Shards.new (map (compress_submission plain) subs) in
    decompress_to_owned plain cut_at (0 ∷ []) (indices c) (uncompressed_size c) c.shards)
    ≡ some (5 ∷ 6 ∷ 7 ∷ 8 ∷ 9 ∷ [])
compress-decompress_to_owned_example =
    compress-decompress_to_owned plain (λ xs c h. refl) cut_at (λ k buf h. refl) (0 ∷ []) 2
      (5 ∷ 6 ∷ 7 ∷ 8 ∷ 9 ∷ []) (omega arith)

abbrev serials : SerialMap
serials = record { entries = (41, 5) ∷ []; last_serial = 41 }

remove-insert_example :
    (SerialMap.remove 41 (SerialMap.insert 42 6 serials).1).0
    ≡ (if 41 == 42 then some 6 else (SerialMap.remove 41 serials).0)
remove-insert_example = remove-insert 42 6 41 serials (omega arith)

sent_at-IsSpaced_example :
    IsSpaced 5 none (sent_at (record { last = none }) 5 (1 ∷ 3 ∷ 7 ∷ 12 ∷ 13 ∷ []))
sent_at-IsSpaced_example = sent_at-IsSpaced 5 (1 ∷ 3 ∷ 7 ∷ 12 ∷ 13 ∷ []) none
