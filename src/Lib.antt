-- ===== src/Lib.antt =====
-- Cinder-XMPP: a Cinder block that wraps the gloox XMPP library for chatting. The program is two
-- classes: `XmppListener` (src/XmppListener.h, src/XmppListener.cpp), which owns a gloox client,
-- registers itself for its callbacks and hands them on, and `XmppClient` (src/XmppClient.h,
-- src/XmppClient.cpp), which owns a listener, runs it on a thread, keeps the roster, and tells the
-- application by signals. `XmppPeer` (src/XmppClient.h) is an entry of the roster.
--
-- - Peer: `XmppPeer`, `status_t`, `presenceToStatus`, `setStatus`, `statusString`, `operator==`.
--   Peer/Presence and Peer/Equality hold their theorems.
-- - World: the members of both classes as records (World/State), and a run of a member function as a
--   change of the one client object, the effects that others see in their order, and how it ended: a
--   value, an exception, undefined behaviour or `std::terminate` (World/Monad). World/Laws has the
--   laws of sequencing, World/Relations what a relation of runs needs to have of two runs in a row.
-- - Client: the handlers of `XmppClient` (`onConnect`, `onDisconnect`, `onTLSConnect`, `handleMessage`,
--   `handleRoster`, `handleRosterPresence`) where no slot is connected to the signals; Client/Delegate has
--   them with the slots of the application. Client/Api: its constructor and destructor, `connect`,
--   `sendMessage`, `isConnected`, and what the thread runs. Client/Frame, Rosters, Orders, Presences,
--   Messages and Lifetime hold the theorems about them.
-- - Listener: all functions of `XmppListener`; Listener/Callbacks has the callbacks that call the
--   delegate, with the slots of the application. A call through `mDelegate` runs the client's handler if
--   the pointer is the client's address, nothing if it is null, and is undefined otherwise.
--   Listener/Destruction holds a theorem.
-- - System: the callbacks that gloox may make and the calls that the application may make, as turns
--   in any order; System/Runs is about any turns. System/Spec is the specification: a view of four
--   parts (connected, client made, thread started, the peer of each name) and what each turn does
--   to it. System/Refinement relates the program to it; System/Protocol is a monitor of the calls
--   into gloox, which System/Conformance applies to the thread; Wiring, Peers, Knowledge,
--   Connectivity, Addresses, Sessions, Orderly, Standalone, Receiving, Threads, Returning,
--   Delivery, Lifetimes and Alike hold the invariants and the theorems over all sequences
--   of turns (Orderly/Verdict: how they end, Alike/Rosters: the order of a roster, Alike/Members:
--   the quotient that forgets it), and Histories the laws of the specification.
-- - System/Interleaving: `sendMessage` on the application's thread one read of a member at a time, with
--   callbacks on the listener's thread in between: a step function, and the relation of what is reached.
--   Its children hold what is sent, the end of the call, the race, runs of callbacks alone (Quiet),
--   and the point in time at which the call takes effect (Point, Point/Advance, Linear).
--   Interleaving/Halves splits a callback at its write of `mIsConnected`.
-- - System/Concurrent: two threads, one with calls of `connect` and `sendMessage` in steps, the other with
--   callbacks; Concurrent/Steps has the callbacks in two halves, also across the ends of calls.
--   Concurrent/Storing is about the start of the thread, Answers about the calls among turns, Answering
--   about the answers that the specification gives them; Linear, Steps/Coarsely, Steps/Moves,
--   Steps/Pending, Steps/Whole and Refinement relate the threads to turns and to the specification.
--   Steps/Onward is the way from what is reached to rest, Steps/Verdict what `sendMessage` answers on
--   it; Steps/Settling and Steps/Unique are about such ways.
-- - System/Slots: slots that call `connect` and `sendMessage`, each while the callback that raised its
--   signal is still running. Slots/Handlers, Replies and Expansion relate such a run to one
--   without slots, and Slots/Reconnecting is about slots that connect again.
-- - System/Overriding: clients of a subclass, whose functions override the virtual handlers. Its Laws and
--   Turns carry a relation of runs from the parts of a body to all turns; Following, Rostered and
--   Connected are such relations, and Survival (Turns, Threads) is about a class whose functions return.
-- - Handlers: the abstract classes of gloox that the listener implements, as records of operations;
--   Listener/Interfaces has the listener as each of them, and a callback goes through these records.
-- - Gloox: the values that cross the interface of gloox (include/gloox), and its calls as data. A roster
--   is any list of entries. Gloox/Classes and Gloox/Contacts have the classes of these values as
--   records of their functions, which are not modelled, and the value that the accessors show.
--   UnorderedMap: `std::unordered_map` with text keys. Prelude: shared names, tests, lists, and
--   `std::string` as a list of bytes.
-- - Tests: a session with concrete contacts; its children apply the theorems to it.
--
-- Conventions. A pointer is a number, 0 for null; `new` gives the next address. gloox is not
-- modelled: a call of it is an effect; what `connect` and `recv` answer, and what happens before
-- they answer, are arguments (the loop of `openConnection` recurs on the list of answers, and ends
-- as `receiving` where that list ends); the constructor of `JID` from a text is the argument
-- `jid_of`. A signal is an effect, and runs the slots that are connected to it before the callback
-- goes on. Outside System/Slots and System/Overriding there is none; there a slot makes a list of
-- calls of the client, which the signal and the answer of `isConnected` determine. Subclasses of
-- `XmppClient` are in System/Overriding alone: an overriding function is what it calls of the
-- client, and may be another one in each turn. The source takes no locks. Outside
-- System/Interleaving and System/Concurrent a turn is a whole call. There a read of a member is
-- atomic; a callback is whole, or in Halves and Steps two halves, of which the second writes
-- nothing that the other thread reads. A callback may come before `connect` has returned, but not
-- before it has started its thread. `new` and the start of a thread are taken to succeed. The
-- parameters that the source ignores are kept.
--
-- Not modelled: the rest of gloox (include/gloox and its library, of another project), which the wrapper
-- does not use or only calls; Cinder's signals, console and threads beyond the above; the accessors that
-- return a signal; classes derived from `XmppListener`, since `XmppClient` holds one by value.
pub mod Prelude
pub mod UnorderedMap
pub mod Gloox
pub mod Peer
pub mod World
pub mod Handlers
pub mod Client
pub mod Listener
pub mod System
pub mod Tests
