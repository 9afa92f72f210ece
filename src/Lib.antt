-- ===== src/Lib.antt =====
-- A model of the parts of DOT Terminal that decide: what a session remembers of its output, who may
-- type into it, what is written exactly once, what an authority journal grants, which devices a node
-- serves and how a device becomes one of them, and what the owner's desktop shows and sends.
--
-- The parts and how they interact. A keeper (crates/session/src/main.rs) owns a terminal session. It
-- answers the requests of the protocol (crates/protocol/src/lib.rs) over three state machines that
-- know no clock and no file (crates/core/src/lib.rs): the history of the output, the controller of
-- leases and inputs, and the presence of views. A node (crates/node/src/lib.rs, main.rs) keeps a
-- registry of enrolled peers, which its commands and accepted invitations (pairing.rs) change, and
-- forwards to a keeper, to the clipboard or to the hub the requests of those that it authorizes,
-- against the registry as it then is. An authority journal (crates/authority/src/lib.rs) verifies
-- signed grants, and records each use in a hash chain of signed lines whose tip an anchor keeps; the
-- bridge of a node (crates/node/src/bridge.rs) asks it before it forwards a request to an upstream that
-- it holds the credential of. The desktop (crates/desktop) serves the browser behind a boundary
-- that asks for its token: it passes requests on to keepers and to the owner's other nodes, keeps the
-- owner's secrets in a vault and the state of the interface in a file, and reads the log of an agent
-- and what the processes of a session use.
--
--   Prelude                        shared names; lists, texts and results over the native numbers
--   Message                        the texts of refusals, a constructor for each
--   Core/History                   History: append, resize, read, read_frame
--     Steps, Marks, Pruning, Position   lemmas on one operation, the marks, pruning, looking up
--     IsValid, Ring, Grids, Runs        the invariant, the ring as the end of the output, the grid of
--                                       each byte, and all of it over runs of operations
--   Core/Controller                Controller: acquire, check, release, prepare, written, handoffs
--     Calls, Fencing                    runs of calls; a generation that lost control stays out
--     Window, Answers, Handoff          the window of inputs, the answers of prepare, the handoff
--   Core/Presence                  Presence: hello, took, cleared, input, snapshot
--     Views, Hello                      the invariant, and what a heartbeat changes
--   Protocol                       the types; validate, validate_service, validate_invitation,
--                                  validate_join
--     Framing, Accepted                 read_message and write_message; what validate lets through
--   Node                           Peer and authorize
--     Workspace, Workspace/Granted      what a paired workspace may ask of the hub
--   Node/StateFile                 private, load and save: the state files
--   Node/Registry                  the lock, and the commands init, pair and revoke
--     Saving, Kept, Changes, Runs       one save, the tests of a peer, one change, runs of commands
--   Node/Service                   serve, the clipboard and the admission of a connection
--     Guarded                           what reaches a service, and a device after its revocation
--   Node/Invitation                the proof message, check_join and read_join
--   Node/Pairing                   run, and its loop
--     Proof, Approved, Loop, Ends       the proof message, one turn, the loop, and its end
--   Node/Bridge                    Bridge::call; Guarded: what reaches the upstream
--   Authority/Types, Table, Verify the types, the two maps as association lists, verify
--   Authority/Anchor               MemoryAnchor, and the tips of CommandAnchor
--     Command, Hex                      its program, arguments and output; hexadecimal texts
--     Contract, Honest                  what it asks of the program, and what it is then
--   Authority/Journal              apply and the loop of catch_up
--     Operations                        catch_up, append, reserve, authorize, finish, open
--     Replay, Durable                   the file replays to the journal, and append keeps it so
--     Rollback, Budget, Outcomes        the anchored tip, a use that is granted once, its outcome
--     Known                             every operation in the table has its grant there
--   Session                        State, input and the other answers
--     Requests                          dispatch
--     Typing, Dispatch, Subscription    what becomes of an input, what a request changes, the loops
--     Keeper, Keeper/Records            the threads of the keeper as steps, and what they heard
--     Keeper/Reachable                  what all steps of the threads keep
--   System                         a keeper with a node, its registry and the gateway, as steps
--     Justified, Typed, Stopped         who wrote what to the keeper, what was typed, who stopped it
--   Desktop/Table                  BTreeMap
--   Desktop/Vault                  Vault: open, save, update, put, delete, release, launched
--     Api                               vault_api
--     Update, Saved, Logged             what an operation leaves in memory and in the file, and its event
--     Secrets, Release, Bounds          the secrets afterwards, their release, the limits
--     Launch, Disclosure                a program launched with secrets, and every request
--   Desktop/Gateway                the boundary, operation, rpc and create
--     Views                             the state of the interface, snapshots and actions of views
--     Reached, Restored, Taken          what reaches a keeper, what a view restores, what it is handed
--   Desktop/Devices                the list of devices
--     Relay                             call, relay, remote_create and remote_operation
--     Private, Remote                   the address of a device, and what is sent to one
--   Desktop/AgentLog               bound, reduce, tail_start and read
--     Contained, Reading, Polling       the events of a line, of one read, and of reads in turn
--     Api                               agent_events
--   Desktop/SessionSummary         labels and usage
--     Descendants, Closing, Usage       the processes below one, the loop that finds them, the report
--   (In each, Tests and Sample hold concrete runs.)
--
-- How the code is modelled. State is passed explicitly; an operation on `&mut self` returns the new
-- state beside its result, which also holds what it changed before an error. A panic is `none`. A
-- number is a natural number, with the checked and saturating additions of u64 written out; the
-- sequence number of the journal is not bounded. A text is a list of code points. A mutex is left out:
-- each request of a keeper is one step, as is each pass of its other threads, so that the interleaving
-- of two requests between their locks is not modelled.
--
-- Fuel. The loop over the records of a file runs on fuel, one more than the bytes that are left to
-- read; each record takes at least four. The loop over the lines of an agent's log has one more than
-- the bytes of the file, of which a line takes at least one. The loop that collects the descendants of
-- a process has two more than the processes of the snapshot: each pass but the last adds one. The
-- digits of a number have one more than the number, which each digit divides by ten.
--
-- Parameters. SHA-256, Ed25519 and JSON are the fields of `Library`, with `IsSound` for what is used
-- of them: a signature verifies, a record reads back as itself, and its text has a length that fits in
-- four bytes. The vault has a `Library` of its own for AES-GCM, SHA-256 and JSON, with `Sound`: a key
-- opens what it sealed, and JSON is read as it was written. The JSON codec of a message and of a state
-- file, JSON values, UTF-8, base64, floating point numbers, the parsing of a socket address, rustls,
-- webpki and rcgen, the screen engine, the clocks, the tickets, the terminal, the network and the file
-- system are arguments of the definitions that use them.
--
-- Not modelled: sockets, TLS, the deadline of a connection and the starting of processes; the files
-- that show the QR code of an invitation; the HTTP request to the hub; the router of the gateway of the
-- desktop, its listings, the doorbell and iTerm, its key in the macOS keychain, the resources monitor
-- and the applications: they mostly hand values to the operating system or to a library.
mod Prelude
pub mod Message
pub mod Core
pub mod Desktop
pub mod Protocol
pub mod Node
pub mod Authority
pub mod Session
pub mod System
