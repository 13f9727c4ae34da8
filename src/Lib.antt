-- ===== src/Lib.antt =====
-- NeoNet: the models of the device network's core, with the theorems that make it correct.
--
-- A device holds an identity, a public key with a fingerprint (Identity, src/identity/mod.rs).
-- Devices connect to core nodes; a node authenticates a connection, and moves messages between
-- connections with a router. The payload of a message is a frame of one of the applications:
-- storage of encrypted chunks, file transfer, core duties, pairing, rendezvous and lobbies, which
-- keep small files in the node's home directory. Below the node stand the frames and the handshake
-- of a connection (Transport over Protocol); beside it a shell with a virtual drive.
--
-- The modules, and the code that each one models:
--   * Base: shared names, lists over native numbers, equality as an interface, maps and sets as
--     lists, results with the source's error kinds, and serialisers with the law that what was
--     written reads back.
--   * Messaging (src/messaging.rs): Message, MessagingFrame, OfflineQueue and its methods push,
--     drain and len. Messaging.Channel is the interface of the channels of tokio; their state is
--     threaded through the calls. Messaging.Router is Router, one function for each method; `send`
--     is cut into its attempts, in the order of the source.
--   * Node (src/node.rs): AllowList, admission, and pump_connection as its beginning, its reader's
--     step on a frame, and its end. Node.Bounded lets these happen in any order.
--   * Core (src/core/mod.rs, src/core/replication.rs): ChunkIndex, Acl, RevocationState, CoreNode
--     and the reconciliation plan. Core.Reconcile copies what a plan names. Core.Handler is the
--     handler of core frames (src/app/core.rs), over the chunks, the operators and the revocations
--     of the home directory.
--   * Files (src/files/mod.rs, src/files/transfer.rs): manifests, chunks, transfer state, and
--     transfer_manifest over sources that are functions of the index. Files.Resume is ResumeState
--     and reconstruct, Files.Build is build_manifest, Files.Incoming the receiving side over the
--     directories `incoming/<id>`, with the file that the name in a manifest leads to as the output
--     (Files.Places), and Files.Handler the handler of file frames (src/app/files.rs).
--   * Storage (src/app/storage.rs, src/storage/mod.rs): store_chunks, fetch_chunks and the
--     revocation set over a record of the files in the home directory; Storage.Batches is the
--     batching loop of push_chunks, Storage.Pull is pull_chunks, Storage.Handler the dispatch, and
--     Storage.Vault the encryption of chunks, the blob store and the key file.
--   * Pair (src/pair.rs, src/app/pair.rs): the pending token, the ledger, and the handler.
--   * Rendezvous (src/app/rendezvous.rs): the table of addresses, and the handler.
--   * Lobby (src/app/lobby.rs, src/lobby.rs): the table of hosted lobbies, the handler of lobby
--     frames, and the lines it logs; Lobby.Channel is private text.
--   * Protocol (src/protocol/mod.rs): Hello, Challenge, SignatureMessage, negotiate, and the signing
--     and checking of challenges.
--   * Transport (src/transport/mod.rs): write_frame, read_frame and the handshake as steps on a
--     stream, one function for each part of handshake_inner.
--   * Shell (src/shell.rs): History, tokenize, and Vfs as Shell.Drive, with the lookup of paths,
--     Resolve for split_path and cd, Edits for mkdir to touch, Contents for cat to grep.
--   * Burrow (src/burrow/mod.rs, src/app/burrow.rs, safe_relative_path of src/files/mod.rs): the
--     shared directory over the calls of the file system, which are parameters, and its handler.
--     What a fork writes is a list of actions.
--   * Ssh (src/ssh/mod.rs): the directory of devices, and the arguments that connect gives to ssh.
--   * Client (src/app/mod.rs): the reply to a request, and the client's calls with the pump that
--     pairs answers with them.
--   * Examples: the theorems at concrete values.
--
-- Conventions. Hashes, signatures, ciphers, serialisers, channels and the clock are parameters;
-- what is assumed of them are the laws in the records Base.Codec, Messaging.Channel and
-- Storage.Vault.Aead. A file written by a temporary file and a rename is an optional blob, and a
-- flag says whether the write succeeds; store_chunks and receive_chunk, which write many files,
-- count the operations that succeed. A plain write that fails leaves its file as it was or cut: what
-- is left is a parameter, or an argument of the step. A hash map is an association list of which a
-- lookup sees the first entry of a key. Frames that a handler sends back are part of its result,
-- since the source ignores whether the reply could be sent.
-- Texts of errors are without the values that the source formats into them.
--
-- A path of the file system in Burrow is absolute and the list of its components.
--
-- A panic of the source (`unwrap`, `expect`, `unreachable!`, an index out of range) is an error of
-- its own in Shell, Transport and Files.Incoming.
--
-- Bounds. Offsets are u32 with the saturating sum and the cast of the source; other counters are
-- far from their limits and are natural numbers. pull_chunks runs on fuel; a turn for each chunk
-- and one more are enough for a core that holds the file. read_chunks of build_manifest runs on the
-- length of the file and one more, since every read but the last takes a byte at least; lengths of
-- frames are four bytes, of which the bound of a frame leaves the first at 0. The copying
-- of a directory runs on its depth, an argument.
--
-- Not modelled: sockets and tasks; the application dispatcher; the sending side of a file transfer;
-- the shell's prompt and system information; the bootstrap file, updater, flasher and the command
-- line, which are input and output around the parts above.
pub mod Base
pub mod Identity
pub mod Messaging
pub mod Node
pub mod Core
pub mod Files
pub mod Storage
pub mod Pair
pub mod Rendezvous
pub mod Lobby
pub mod Shell
pub mod Protocol
pub mod Transport
pub mod Burrow
pub mod Ssh
pub mod Client
pub mod Examples
