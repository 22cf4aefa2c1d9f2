-- ===== src/Lib.antt =====
-- A verification library for studiobox: sandboxes in Firecracker virtual machines on one host.
--
-- Parts. The SDK asks the host daemon (src/hostd) for a sandbox. The host daemon admits it against
-- a capacity ledger, and lets a client reach the sandbox's agent through a tunnel that a single-use
-- ticket opens. The root daemon (src/rootd) launches the virtual machine, with a /30 of the network
-- pool for its TAP device, and writes every step of a sandbox's life to a journal (src/state), one JSON
-- file whose records carry a revision. Files of the library and the code they model:
--   Api/Memory.antt              src/api/memory.ts: parseMemory
--   Hostd/Capacity.antt          src/hostd/capacity.ts: the ledger's reserve, release, capacity, usage
--   Security/Tickets.antt        src/security/tickets.ts: issue, consume, revoke*, sweepExpired
--   Hostd/TunnelAuthorizer.antt  src/hostd/tunnel_authorizer.ts: authorizeAndOpen
--   Hostd/Leases.antt            src/hostd/leases.ts: create, renew, extendTimeout, release, revoke*
--   Transports/*Preface.antt     src/transports/tunnel_preface.ts, bridge_preface.ts: frames and reading
--   State.antt                   src/state/model.ts: the journaled record and its validation
--   State/Store.antt             src/state/store.ts: create, get, list, compareAndSwap, remove, #write
--   Rootd/Supervisor/*.antt      src/rootd/supervisor_core.ts, src/rootd/firecracker/registry.ts
--   Wire/Supervisor.antt         src/wire/supervisor.ts: bridge requests and grants
--   Rootd/Network/Allocator.antt src/rootd/network/allocator.ts: allocate, release, reserve, addresses
--   Rootd/Network/TapName.antt   src/rootd/network/reclaim_hook.ts: slotOfTapName
-- The modules below each of these hold its invariants and proofs; Common holds what they share.
--
-- State. A class with private fields is a record, and each method a function from the record to the
-- next one, with a result type of its component's own for what the method throws. The text of an
-- error is left out, its class and its `dimension` or `code` are kept. A `Map` is an association list
-- in insertion order (Common/Map.antt) and a `Set` of numbers a list. Methods that a mutex serialises
-- are single steps; where a method awaits between a check and a write (`issue`), its parts are
-- separate definitions, so that two calls can overlap. Timers, listeners and microtasks that hold a
-- lease entry are kept in a table of what is armed, and are called by steps of their own; a clock that
-- calls back within `setTimer`, as systemClock may, is a case of `create`.
--
-- Numbers. A JavaScript number that a guard tests is a `JsNumber` (Common/JsNumber.antt): a natural
-- number, a fraction, a negative number, an infinity or NaN. Once `Number.isSafeInteger` has passed it
-- is a native natural number. Sums of safe integers are exact in the model.
--
-- Arguments. The clock, random values, random ids, SHA-256 and `Number(text)` are arguments, with
-- what the code relies on as hypotheses. Texts are strings where the code only compares them, and
-- lists of character codes where it takes them apart.
--
-- Fuel. The port scan runs over the width of the range and the slot scan over the 16384 slots, as the
-- loops in the code do; the ticket loop makes its four attempts. Printing a number takes the number
-- itself as fuel. The write loop and the cut of a reason run for as many rounds as there are bytes or
-- code units, since each round takes at least one away. A frame is read in as many rounds as it has
-- bytes, since each round adds one.
--
-- Journal. An untyped object is a record of its known fields, each a `Value`, and the list of its other
-- keys. The file is what `JSON.parse` gives, and writing is taken to be undone by reading as JSON is. A
-- call of the store is one step, as `#exclusive` makes it. The write of the file is a list of calls on
-- a directory, of which a stop of the machine keeps a prefix, and of a file only what was synced. What
-- the Firecracker package does in a sweep is a list of calls on the journal of its machines. `#update`
-- reads and swaps in sixteen attempts, and what other writers do in between is an argument.
--
-- Not modelled: sockets, processes, JSON texts, file modes, the RPC adapters and generated wire code,
-- the deadline of a frame read, a package sweep that throws, the supervisor's launch and restore as
-- whole functions, and the template store.
mod Common
pub mod Api
pub mod Security
pub mod Transports
pub mod Hostd
pub mod Rootd
pub mod State
pub mod Wire
