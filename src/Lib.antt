-- ===== src/Lib.antt =====
-- Rowd: files kept equal between a PC and a phone.
--
-- The repository is a synchroniser. Both devices scan their copy of a Share into a manifest, a map
-- from paths to hashes and sizes. The PC coordinates a round: for each path it compares the two
-- manifests with the base that the last round committed, decides a direction, and moves files in
-- windows of at most four files and eight MiB, sent ahead and confirmed later. Two versions of one
-- file are both kept, one in the folder `Rowd Conflicts`.
--
-- Files and what they model (paths from the repository's root):
--
-- Base                    shared names: tests, lists, results, texts as code points, sorted maps
-- Model, Model/*          crates/rowd-core/src/model.rs: Entry, Manifest, reconcile, conflict_path
-- Config                  crates/rowd-core/src/config.rs: SyncMode, RemapPolicy
-- Paths, Paths/Safety     crates/rowd-core/src/model.rs: validate_path, validate_hash
-- Ignore, Ignore/*        crates/rowd-core/src/ignore.rs: Ignore::validate, parse, matches, wildcard
-- Round                   the state of a round: the base and the conflict marks of State, the files of
--                         both devices, the windows and the batch of acknowledgements
-- Round/Exec, Turns       actions on that state that may stop, and rules for what they keep
-- Round/Decide            the decision of coordinate_candidate (crates/rowd-core/src/sync.rs) for a path
-- Round/Batch             the reading thread of receive_put_batch: its checks before each file
-- Round/Transfer          drain_puts, drain_gets, receive_put_batch, remote_snapshot, remote_install,
--                         with install_file and snapshot of crates/rowd-core/src/storage.rs
-- Round/Loop              the loop of coordinate_candidate over the paths and its last drains, less its
--                         branches for an open hash stream
-- Round/Edits, Windows    what a round keeps of the PC's files, and the limits of its windows
-- Round/Merge, Merge/*    the versions of one path before and after a round, each action's step of them
-- Model/Manifests         crates/rowd-core/src/model.rs: validate_manifest, validate_cross_peer_namespace
-- Wire, Wire/*            crates/rowd-core/src/protocol.rs: send, receive, send_for, receive_for and a
--                         manifest in chunks, over streams of bytes; Json stands for serde_json
-- Model/Namespaces        crates/rowd-core/src/model.rs: validate_namespace, validate_cross_namespace
-- Scan, Scan/*            crates/rowd-core/src/protocol.rs: ScanStream, which receives the names of a
--                         Share and then the hashes of its files; Sender is the phone's namespace
-- Responder, Responder/*  crates/rowd-core/src/sync.rs: respond_share, the phone's answer to each message
--                         of a round, over the trait Store of crates/rowd-core/src/storage.rs
-- Invitation, /Decode     crates/rowd-core/src/model.rs: Invitation::validate, encode, decode; Codecs stands
--                         for the crates hex and base64 and for UTF-8
-- Shares, Shares/Queue    crates/rowd-core/src/managed.rs: validate_shares, share_queue, take_share and
--                         the `retain` of client_round_session
-- Writes, Writes/Honesty  crates/rowd-core/src/internal_writes.rs: register, complete, the drop, matches
-- Discovery, /Answers     crates/rowd-core/src/discovery.rs: discover_packet, announce_packet, endpoint
-- Pairing, /Pinned        crates/rowd-core/src/pairing.rs: validate, validate_pc_peer, offered_peer, peer,
--                         and finish up to the authentication
-- Auth, Auth/*            crates/rowd-core/src/protocol.rs: auth_mac, server_auth, client_auth
-- Examples, Examples/*    small Shares and texts on which the definitions run
-- Recovery, Recovery/*    install_file and recover of crates/rowd-core/src/storage.rs, one change of the
--                         disk at a time, with crashes and other programs in between
-- Admission, Fair         crates/rowd-core/src/resources.rs: acquire, admit and the drop of a permit
-- Wake, Wake/Delivery     IdleWake of crates/rowd-android/src/idle.rs, cut into atomic steps
-- Overlap, Overlap/*      plan_get_window and GetBudget of crates/rowd-core/src/sync.rs
--
-- In a scan the PC opens a ScanStream on the names that the phone sends, and asks for hashes; the
-- phone's respond_share answers from its store, keeps the files that come early in private copies, and
-- installs them once the scan is committed. A Responder handler is an action that may fail and changes
-- the store either way; Responder/Gives holds the rules for what its successes give.
--
-- A round is a function of the state, so that what a failing round has done by then stays done. A
-- message and its answer are one step of both devices. What the file system does is a map from paths
-- to entries; a file that changes during a round is outside the model of a round, and a crash inside
-- an installation is the subject of Recovery, where a content is named by its hash. Fingerprints of
-- files and the flushing of directories are left out there. SHA-256, HMAC, JSON, hexadecimal, base64,
-- the lower case of a name and the phone's choice to defer a Get are parameters. The fuels are that of
-- `wildcard`: the product of the two lengths, each one more; a step of its loop either shortens the
-- rule or moves the place of the last retry on, and the count of a manifest, to which each chunk adds.
-- Sizes are natural numbers; `saturating_add` is written out.
--
-- Not modelled: how the PC's loop takes the chunks of a scan and stages files during it, which it does
-- in every round without a delta, so that the theorems on a round are about two complete manifests; the
-- checks of a Get that repeat those of an accepted manifest; the walk of
-- a directory behind a scan, the prefetch and overlap pipelines that an environment variable turns on
-- beyond their plans and credits, sockets, TLS, the request and the verification code of a pairing,
-- tracing, the desktop, terminal and Android applications. The registry of own writes is in the order
-- of texts and not of the components of paths. Counters of 64 bits that only grow are taken not to wrap.
pub mod Admission
pub mod Auth
pub mod Base
pub mod Model
pub mod Config
pub mod Overlap
pub mod Pairing
pub mod Paths
pub mod Recovery
pub mod Discovery
pub mod Responder
pub mod Round
pub mod Scan
pub mod Shares
pub mod Ignore
pub mod Invitation
pub mod Examples
pub mod Wake
pub mod Wire
pub mod Writes
