-- ===== src/Lib.antt =====
-- fnshare: a private file-sharing network. A file is encrypted under a key of its own, cut into
-- stripes, erasure coded into shards, and the shards are stored by the members of a group.
--
-- The parts, and how they interact:
-- - Store (internal/store/store.go): the key-value store under everything else. BadgerDB is the
--   parameter `Badger` with its documented behaviour as `BadgerLaws`; Store/Memory is an instance.
-- - Ledger (internal/ledger/ledger.go): traffic and liveness of each peer, in a map of dirty entries
--   over the store. `touch` is `touchLocked`, `probe` the body of `RecordPing`.
-- - Blockstore (internal/blockstore/blockstore.go): shards in files named by their SHA-256. The disk
--   is a list of files; each system call of a write may fail.
-- - Manifest (internal/manifest/manifest.go), Ec (internal/ec/ec.go), Crypto
--   (internal/crypto/crypto.go): the records of a file, its coding and its encryption.
-- - Group (internal/group/group.go) and Invite (internal/invite/invite.go): membership and its proofs.
-- - Node/Join and Node/Members (internal/node/protocol.go): joining, and merging of member lists;
--   Node/Blocks (internal/node/blocks.go): the protocol for shards and manifests, with its frames.
-- - File: ReadAt (internal/file/reader.go) is random access to the plaintext, stripe by stripe; Cached
--   (`stripeBytes` of reader.go) reads stripes through the Cache (internal/file/cache.go, with its
--   index map in Cache/Index); Fetch
--   (reader.go and internal/file/file.go) fetches and uploads one stripe, Upload cuts a body into
--   stripes, Put (file.go) is the whole upload with its manifest and the copies of it, and Open
--   (`OpenReader` of file.go) finds a manifest and unwraps its key; Keys (file.go and
--   internal/file/pname.go) wraps file keys, resolves groups and lists files; Service has the fields
--   of `Service` that these share.
-- - Holders (internal/holders/holders.go): which members hold a file. Spool (internal/spool/spool.go)
--   keeps what could not be sent, and Spool/Worker (internal/spool/worker.go) sends it later.
-- - Heartbeat (internal/heartbeat/heartbeat.go): a scan, as the sequence of the calls of `RecordPing`.
-- - Repair (internal/repair/repair.go): the shards of one slot are restored from the other slots and
--   moved; Repair/Scan chooses the spare and goes through the files of a peer that went offline.
-- - Fuse (internal/fuse/fs.go): the files as a read-only tree of folders, over the lists of Keys, the
--   readers of Open and `ReadAt`.
-- - Auth (internal/auth/auth.go): the password of the owner, and the sessions of the interface. Api
--   (internal/api/server.go) is that interface: Api/Routes has the gate and the routes, Api/Handlers
--   and Api/Joining what is behind the gate. Config (internal/config/config.go): the settings.
-- - Prelude: numbers, `int64`, bytes, time, paths, association lists and results that all of these use.
-- - Tests: the theorems at concrete data, with small instances of the parameters.
--
-- A function of the source is a definition of the same name in snake case. State is passed in and
-- returned; errors are values of a type per package. CBOR and JSON, Reed-Solomon, AES-GCM, the NaCl
-- box, Ed25519 and SHA-256 are parameters with the laws that they document; random bytes, the clock,
-- what the disk does and what other nodes answer are arguments.
--
-- Numbers: an `int64` that may be negative is an integer whose sums wrap (Prelude/Int64); sizes and
-- offsets are natural numbers. The loop of `ReadAt` runs on fuel, one round more than the bytes that
-- were asked for, and each round copies a byte at least; that of `Put` on one round more than the
-- bytes of the body. Byte slices are values: no slice is shared and written to, so aliasing
-- plays no part; locks are not shown, since each operation runs under the lock of its object.
--
-- Not modelled: the HTTP library and the download with its stream, the command line, the mount and the
-- attributes of the file system, the key files, libp2p streams and connections, and logging. A log
-- line or an error text that cuts a short id panics, and that is shown, in Node/Join, Node/Members,
-- File/Put, Repair, Fuse and Api. A read of a shard that is on the disk does
-- not fail, though `Get` of the block store would return the error of the disk; in the Spool a read may
-- fail.
pub mod Api
pub mod Auth
pub mod Blockstore
pub mod Codec
pub mod Config
pub mod Crypto
pub mod Ec
pub mod File
pub mod Fuse
pub mod Group
pub mod Heartbeat
pub mod Holders
pub mod Invite
pub mod Ledger
pub mod Manifest
pub mod Node
pub mod Prelude
pub mod Repair
pub mod Spool
pub mod Store
pub mod Tests
