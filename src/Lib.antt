-- ===== src/Lib.antt =====
-- BLT: a LAN game-distribution server, its desktop client and the core library they share.
--
-- The model follows the core library (crates/core), the state of the server (crates/server) and the
-- downloads of the desktop client: data as records, functions by clauses over native numbers, a u64 or
-- u32 written as a number with its wrap-around where it can wrap.
--
-- Bitmap      crates/core/src/bitmap.rs, the resume bitmap of a download: Byte has the bit laws of one
--             byte, Access set and clear, Count the work list, Persist the stored bytes.
-- Chunking    crates/core/src/chunking.rs, the chunk plan of a file.
-- Manifest    crates/core/src/manifest.rs, the structural manifest: the global chunk order (Locators),
--             the consistency check (Structure), the scanner's file entries (Entry), and the difference
--             of two versions (Diff, Paths).
-- Queue       crates/core/src/jukebox.rs, the two orders of the jukebox's up-next queue.
-- Jukebox     crates/server/src/jukebox.rs, the jukebox state machine over its two tables: Rows the
--             statements, Reach the steps and the invariant, Steps its preservation, Order and Top the
--             up-next order, Votes, Share and View the rest. It calls Queue for its order. The tables
--             are lists of rows and the database does not fail.
-- Pathsafe    crates/core/src/pathsafe.rs, the safe form of a received path: Component a single name,
--             Length its cap, Safe and Again the whole path. resolve_collision is left out.
-- Transfer    crates/core/src/transfer.rs, the destination of a path (Join), which every path of Pathsafe
--             has, the verified write of a chunk (Write), for any hash function, and the
--             completeness check (Complete).
-- Validate    crates/core/src/transfer.rs, what follows the last chunk: finalize_layout (Layout), the two
--             validations (Report, Sized) and the repair plan (Repair), on the files of Transfer.
-- Hub         crates/server/src/ws.rs, the registry of connections (Conns) and of the peers (Peers, Listed).
-- Admin       crates/server/src/state.rs, admin_api.rs and data_api.rs: admin sessions (Sessions), the
--             throttle of the password gates (Throttle, with Guesses and Bound about wrong passwords, where
--             requests interleave between the lock test and the check), and the password change
--             (Password). An Instant is a number of seconds.
-- Live        crates/server/src/data_api.rs, the /ws channel: connections open, send messages and end in any
--             order (World, Event), each message in one step, on Hub, Admin and
--             Jukebox. Unverified and Verified are about the playback machine's password, Seeding about
--             announcements before the Hello.
-- Pool        crates/core/src/transfer.rs, PooledWriter, against the plain writes of Transfer (Refine).
-- Downloads   apps/desktop/src-tauri/src/downloads.rs and db.rs: the queue and its worker (Queue), a group
--             of fetched chunks (Chunks, with Sound about its accounting, on Pool and Bitmap), the saved
--             resume state (Saved), the list that is shown (View), and the turns of a job (Run, with Batch,
--             Complete and Tries about the bits of a batch, completion and validation).
-- Range       crates/server/src/data_api.rs, parse_byte_range and the answer of serve_file (Bounds).
-- Base        tests, lists, texts, signed numbers and the stable sort.
--
-- An indexing panic or a failed assertion is none. A while or loop takes fuel: plan_chunks one unit for
-- each byte of the file and one more, the rotation one for each item and one more, and the theorems say
-- that they return a result. Texts are lists of code points.
-- In a turn of a download job the answers of the sources, their assignment to chunks and the
-- interruptions are inputs; a validation counts against three tries.
-- Not modelled: floats (the fraction of a bitmap, rates and speeds), serialisation, HTTP and the other
-- file I/O, the BLAKE3 and password hash libraries (parameters of the model), discovery, the library
-- scan, and the commands and the web pages of the two front ends.
pub mod Admin
pub mod Base
pub mod Bitmap
pub mod Chunking
pub mod Downloads
pub mod Hub
pub mod Jukebox
pub mod Live
pub mod Manifest
pub mod Pathsafe
pub mod Pool
pub mod Queue
pub mod Range
pub mod Transfer
pub mod Validate
