-- ===== src/Lib.antt =====
-- AegisClaw runs agents in microVMs. The microVMs and the host's processes talk only through one
-- router, AegisHub; the Store holds the permissions, and the daemon starts the VMs. This library
-- models the parts that decide who may do what, as pure functions of explicit states.
--
-- Permissions (internal/permissions): the Store's policy. Permissions.Types is types.go; Match,
-- Source, Grants, Filter, Bootstrap and Capability are match.go, state.go, filter.go and persist.go;
-- World holds the state with its file and its audit log; Dispatch is dispatch.go, one function for
-- each command. `run` replays a history of commands, each from any source with any payload.
-- Ids (internal/hubids, internal/sandbox/vmid.go, internal/channelid, internal/runtime/reserved_id.go
-- and the reserved ids of cmd/aegishub/main.go): which component ids and VM ids are valid, reserved,
-- or composed from a role and a channel.
-- Lease (internal/hublease): which key holds a guest's CID. A sync.Map is a function from CIDs;
-- Lease.File is the file of CID keys; Lease.Race takes the two operations that race apart into their
-- atomic map calls and interleaves them by a list that says whose call comes next.
-- Hub (cmd/aegishub): Acl, Registry, Pending and Snapshots are the hub's four tables; Verify is the
-- signature of a frame; Hello is the checks of a new connection and its first line; CidCommand is the
-- commands on CID leases; Route says what becomes of one frame,
-- as the list of frames and answers that leave the hub. Hub uses Permissions for the permission check
-- and for the bootstrap grants, and Lease for cid.unlease; Permissions.Source is also the hub's test of
-- who is a microVM.
-- Store (cmd/store, internal/storegit): the Store guest. Payload is payload.go and the readers of
-- git_rpc.go; World is the maps of storeWorld, the files behind them and the messages sent; Proposals,
-- Court, Records, Timers, Channels, Membership, Turns and Reads are the cases of dispatchStoreCommand
-- with the functions of main.go that they call; Git, Names and Merge are git_rpc.go, git_merge.go and
-- storegit.go; Policy is permissions.go, on Permissions.Dispatch; Audit is the audit entry of a message;
-- Commands and Dispatch are the switch, and `step` a turn of the loop of runStore. Panics is
-- the counts of panic_audit.go, on their own. Members is the rest
-- of internal/channeldata. Store uses Channel for the numbers of messages and Collab for roles.
-- Collab (internal/collab): the roles of members (role.go), the display names (intro.go), who is
-- mentioned and whose post a message is (activity.go), and what a model says is posted (reply.go, where
-- the loop has one turn more than the text has bytes: every turn drops a line feed).
-- Facilitator (internal/channelfacilitator): scheduler.go, who gets the next turn, on the member
-- records of Store.Members.
-- Channel (internal/channeldata): the numbers of the messages in a channel, on the decoded JSON maps.
-- Limiter (internal/dashboard/ratelimit): the portal's token buckets; Limiter.Bound counts what one
-- client is let through.
-- Base: Boolean tests, lists measured by native numbers, byte texts, association lists for Go maps,
-- decimal numerals and JSON values.
--
-- Parameters of the model. Time stamps, the answers of the Store, whether a file can be written, and
-- what the peer of a connection is are arguments. What the Store asks of the system during one message
-- (clock, git, hash of the audit log, cipher) is Store.World.Env, one for each message. A Go map is a
-- list of fields in one order, which stands for the order of Go; where the reply of a command is a stored
-- map that is written again (proposal.get), the payload is a reference. What a write leaves in a file,
-- where the Store ignores the error, is World.write_file; the policy file is written or it is not. Which
-- characters beyond ASCII are letters is Env.letters. json.Marshal, base64 and ed25519 are fields of
-- Hub.Verify.Crypto, and strconv.ParseUint is a function argument; no theorem assumes anything of
-- them. Locks make each operation atomic, except in Lease.Race.
-- Bounds. Case mapping and white space are ASCII. The int64 version of the policy and the counter of
-- temporary ids, and the times are not bounded; the numbers of messages are Go ints of 64 bits that wrap
-- around (Channel.Sequence), and Channel.Room shows where they do not. JSON is encoded and decoded exactly,
-- and a float64 keeps its whole part and whether it is whole. A loop over a list is recursion on the
-- list; the digits of a number take the number itself as fuel, which is enough since each step
-- divides by ten (Base.Decimal.value_from-decimal), and 20 steps for a 64-bit number.
-- Not modelled: process and VM start (cmd/aegis, internal/runtime, internal/sandbox backends), the
-- programs of the other guests, the delivery of turns in a channel, the Store's git server, chat sessions,
-- and log of LLM usage (a handler of the model never panics), the rest of the portal and its
-- TypeScript, LLM traffic, and file, socket and HTTP code. In
-- the hub: its socket, the reload of the ACL file, and the next frame of a connection after tool.list,
-- which the hub reads as the Store's answer.
pub mod Base
pub mod Permissions
pub mod Ids
pub mod Lease
pub mod Limiter
pub mod Channel
pub mod Hub
pub mod Collab
pub mod Facilitator
pub mod Store
