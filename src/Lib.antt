-- ===== src/Lib.antt =====
-- fileloft: a server library for resumable uploads that speaks the tus 1.0.0 protocol. Paths are
-- from the repository's root.
--
-- A request reaches `TusHandler::handle`, which routes it by its method to a handler. The handlers
-- read the headers, take the upload's lock, and call the store through the traits of a store and of
-- an upload. Errors become responses at the end. After each step of an upload an event is sent.
--
--   Base       texts as lists of bytes, decimal numbers, maps, lists: what the code uses of the
--              standard library
--   Proto      crates/fileloft-core/src/proto.rs
--   Error      crates/fileloft-core/src/error.rs
--   Info       crates/fileloft-core/src/info.rs: the upload's state, its identifier (Info/Id), its
--              metadata (Info/Metadata)
--   Checksum   crates/fileloft-core/src/checksum.rs
--   Config, Hooks, Util   the files of these names in crates/fileloft-core/src
--   Store      crates/fileloft-core/src/store.rs, with the contract of a store (Store/Contract)
--   Lock       crates/fileloft-core/src/lock.rs, with the contract of a locker (Lock/Contract)
--   Exec       code that may fail and changes state: results of actions, and relations that they keep
--   Crates     what is taken from http, base64, the digests and chrono: parameters, with the
--              documented behaviour of the header maps as named hypotheses
--   Handler    crates/fileloft-core/src/handler: one module for each handler file, `Read` for head.rs
--              and get.rs, `Base` and `Dispatch` for mod.rs
--   Memory     crates/fileloft-store-memory/src: `Store` for store.rs, `Locker` for locker.rs
--   Disk       the calls of tokio's file system and of serde_json that the file store makes:
--              parameters, with their documented behaviour as named hypotheses (Disk/Laws, and
--              Disk/Frame for the files that a call leaves alone)
--   Files      crates/fileloft-store-fs/src/store.rs: `Keys` for the names of files, `Store` for the
--              operations, `Uploads` for what a disk keeps of an upload
--   FileLocks  crates/fileloft-store-fs/src/locker.rs, over the lock files of an operating system,
--              which are a parameter (FileLocks/Laws)
--   Gcs        crates/fileloft-store-gcs/src/store.rs, over the service of a bucket, which is a
--              parameter
--   Azure      crates/fileloft-store-azure/src/store.rs, over the service of a container, which is a
--              parameter
--
-- Texts are lists of the bytes of UTF-8. A hash map is an association list, and the order in which its
-- iterator gives the entries is a parameter (Crates).
--
-- A handler is an action on a `World`: the store's state, the locks that are held, and the events
-- sent. An action gives a result and the world that it leaves, also when it fails. The clock's
-- reading and the identifier that would be drawn are the `Ambient` of a request. A body is a `Reader`:
-- its bytes, or the error at which it breaks. `Handler.Patch.handle` is the function `handle` of
-- patch.rs, and so for the others; where a function of the code is long, its parts are named
-- definitions in the order of the code.
--
-- The file store is an action on the state of a disk. A path is the list of its components, and the
-- files of an upload are its `.info` file, its numbered part files and its assembled file.
--
-- Numbers are those of the code as long as they fit its types: sums that the code checks are
-- checked here against the largest u64, and sizes are taken to fit the machine's usize. Decimal
-- numbers are printed with fuel for 20 digits, which is what a u64 needs. Loops over lists are
-- recursions on the list; the rounds of the Azure store run on as much fuel as there are blobs, and
-- each round leaves fewer; the lockers' waiting loops are recursions on the readings of a clock.
--
-- Not modelled: the S3 store, the builders of the GCS and Azure stores, the adapters for web
-- frameworks, the server's start-up, logging, the serialization of upload states, and the drawing of
-- identifiers.
pub mod Base
pub mod Proto
pub mod Error
pub mod Info
pub mod Exec
pub mod Store
pub mod Lock
pub mod Hooks
pub mod Config
pub mod Crates
pub mod Checksum
pub mod Util
pub mod Handler
pub mod Memory
pub mod Disk
pub mod Files
pub mod FileLocks
pub mod Gcs
pub mod Azure
pub mod Tests
