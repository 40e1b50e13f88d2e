-- ===== src/Lib.antt =====
-- wprs: remote display of Wayland surfaces. The server sends what its clients draw: an image goes
-- through the pixel filter (src/filtering.rs), whose output the compressor threads take in shards
-- (src/sharding_compression.rs); a write loop frames shards and objects onto a stream
-- (src/serialization), a read loop takes them off, and the decompressor's threads put the planes
-- together. The client keeps a map of surfaces (src/client) in which commits change buffers and
-- trees of subsurfaces, and from a buffer's planes the inverse filter makes the image again. A
-- client that connects is first sent the state of every surface (src/server). This library models
-- that path, up to what each request does to the clients' surfaces.
--
-- Files, by the part of the program:
-- - Base and its children: lists, options as code that may panic, tests on numbers, slice chunks.
-- - Simd, Pixels: the vector intrinsics the filter uses, memory, and the pixel of src/vec4u8.rs.
--   A register is a function from lane numbers.
-- - Filtering/Prediction, Filtering/Transpose, Filtering/Block: the kernels of src/filtering.rs;
--   Filtering/Planes says what they stand for.
-- - Filtering/Encode, Filtering/Decode: vec4u8_aos_to_soa_avx2_parallel_compression and
--   vec4u8_soa_to_aos_avx2_parallel; Filtering/Roundtrip puts them together.
-- - Vec4u8s: the planes of src/vec4u8.rs. BufferPointer: src/buffer_pointer.rs, its copies in
--   BufferPointer/Copies.
-- - ArcSlice: src/arc_slice.rs. Utils and SerialMap: parts of src/utils.rs.
-- - Framing: src/serialization/framing.rs.
-- - Shards, Compress, Decompress: src/sharding_compression.rs.
-- - Messages: the message types and write_loop and read_loop of src/serialization/mod.rs.
-- - Connection: the senders of src/channel_utils.rs, and accept_loop and Serializer of
--   src/serialization/mod.rs. Replay: handle_connect of src/server/client_handlers.rs;
--   SurfaceCommit: the end of commit_impl of src/server/smithay_handlers.rs; SurfaceCommit/Seen
--   has what a surface shows on a client, by the messages that the client was sent.
-- - Geometry, Wayland: the data of surfaces in src/serialization/geometry.rs, wayland.rs and
--   xdg_shell.rs, and SurfaceState.
-- - Remote, Client: the surfaces of src/client/mod.rs, and actions on them; Client/Stacking:
--   reorder_children; Client/Buffers: RemoteBuffer, set_buffer and apply_buffer; Client/Attributes:
--   regions, viewports and damage; Client/XdgToplevel, Client/XdgPopup: src/client/xdg_shell.rs;
--   Client/Subsurface: src/client/subsurface.rs and handle_surface_destroy of
--   src/client/server_handlers.rs; Client/Commit: its handle_commit, and in
--   Client/Commit/Reachable the calls on the surfaces as steps that may fail; Client/Display:
--   the clients of src/client/mod.rs and the handlers of each request.
-- - FrameThrottling, Outputs: send_frames and update_surface_outputs of src/compositor_utils.rs.
-- - Tests: the theorems at concrete inputs.
--
-- A panic is `none`, and so is an error that carries no more than a message and leaves nothing
-- behind. An action on the client's surfaces leaves a state also where it fails (`Outcome`), and
-- records what it asked of the local compositor; so does apply_buffer (`Applied`), with the buffer,
-- the cache and the pool. Numbers of the source are the native naturals, signed ones their own type; u8
-- arithmetic wraps at 256 and framed numbers at 2^32, while addresses and lengths are taken not to
-- overflow 64 bits. The iterators run on fuel, one round for each call of `next`; a buffer of n
-- elements is given n + 1 rounds, one of which finds the end. read_loop has a round for each byte of
-- the stream and one for its end. commit_sync_children_impl has fuel for the levels of the tree.
--
-- Threads: the filter's closures write and submit disjoint parts, so they are a list in the order
-- of their start. The compressor's threads are a relation (`Reaches`) in which any waiting
-- submission may be answered next. The decompressor's threads write disjoint windows. What
-- write_loop takes off its channel is any sequence of messages and timeouts; the threads of
-- accept_loop, and what sends in the meantime, are a relation (`Connection.Step`).
--
-- Parameters: zstd, rkyv, divbuf's `split_to`, UTF-8, the serial counter of smithay, the upper
-- half that _mm256_castsi128_si256 leaves undefined, the local compositor's answers, which may
-- depend on all that it was asked before, its pool of buffers, its seats, the two-way map of
-- object ids, and the order in which a map drops what it holds.
--
-- Not modelled: the handlers of the Wayland and X11 libraries on either side; sockets, logging
-- and settings; errors of the stream's writes; a compressor or decompressor thread that dies; the
-- requests by which dropped objects of the local library are destroyed; requests and events about
-- selections and drags. A panic in an action on the client's surfaces counts as its error, and a
-- run of requests goes on after it; a panic over a buffer ends the run.
pub mod Base
pub mod Simd
pub mod Pixels
pub mod Shards
pub mod Compress
pub mod Connection
pub mod Replay
pub mod SurfaceCommit
pub mod Decompress
pub mod Messages
pub mod Outputs
pub mod Geometry
pub mod Wayland
pub mod Remote
pub mod Client
pub mod Utils
pub mod SerialMap
pub mod BufferPointer
pub mod Filtering
pub mod Vec4u8s
pub mod Tests
pub mod Framing
pub mod FrameThrottling
pub mod ArcSlice
