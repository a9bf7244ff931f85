-- ===== src/Listener.antt =====
-- src/XmppListener.cpp: the functions of `XmppListener`. What gloox answers to a call, and what
-- happens in the meantime, is an argument.
pub mod Destruction
pub mod Interfaces
pub mod Callbacks
pub use Callbacks.{to_delegate, set_connected}
use cinder_xmpp.Prelude.{
  Str, codes, is_empty, Bool, true, false, not, ◌&&◌, ◌||◌, Option, List, [], ◌∷◌, ◌++◌, ◌==◌,
  if◌then◌else◌,
}
use cinder_xmpp.Gloox.{
  ConnectionError, conn_no_error, CertInfo, Jid, Message, MessageSession, RosterItem, Roster,
  PresenceType, MessageType, MessageEventType, ChatStateType, LogLevel, log_level_debug, LogArea,
  log_area_all, Ptr, null, Call,
}
use cinder_xmpp.World.{
  XmppListener, World, no_slots, console, Action, ◌>>=◌, ◌>>◌, pure, behave_undefined, no_throw,
  gets, invoke, emit, allocate, get_listener, modify_listener,
}
use cinder_xmpp.Client

-- The constructor.
unfoldable pub new_listener : Ptr → XmppListener
new_listener delegate = record {
  is_connected = false;
  server = [];
  username = [];
  client = null;
  session = null;
  message_event_filter = null;
  chat_state_filter = null;
  delegate = delegate;
}

-- `address` of `setup`: user, an at sign, and the server or else the listener's own.
unfoldable pub address_of : Str → Str → XmppListener → Str
address_of username server l =
    username ++ (codes "@" ++ (if is_empty server then l.server else server))

-- The calls of `setup` on the new client.
abbrev registrations : Ptr → Bool → Action (Unit {0})
registrations c enable_logging = do
  invoke (Call.register_presence_handler c)
  invoke (Call.register_connection_listener c)
  invoke (Call.register_message_session_handler c 0)
  invoke (Call.register_roster_listener c)
  invoke (Call.set_version c (codes "messageTest") (codes "Linux"))
  invoke (Call.set_identity c (codes "client") (codes "bot"))
  invoke (Call.add_feature_chat_states c)
  if enable_logging
      then invoke (Call.register_log_handler c log_level_debug log_area_all)
      else pure tt

-- `jid_of` is the constructor `JID(const std::string&)`.
unfoldable pub setup : (jid_of : Str → Jid) → Str → Str → Bool → Action (Unit {0})
unfolding address_of
setup jid_of username server enable_logging = do
  l ← get_listener
  let jid = jid_of (address_of username server l)
  c ← allocate
  invoke (Call.new_client c jid username)
  modify_listener (λ l. record l { client = c })
  registrations c enable_logging

-- How a run of `openConnection` ends: it returns, or it is in `recv` when the given answers end.
pub data Progress : Type 0 where
  returned : Progress
  receiving : Progress

-- `ce == ConnNoError`
unfoldable pub is_no_error : ConnectionError → Bool
is_no_error conn_no_error = true
is_no_error _ = false

-- `while ( ce == ConnNoError && mClient ) ce = mClient->recv();` entered with `ce` at no error. Each
-- element is what one call of `recv` does before it answers, and its answer.
unfoldable pub recv_loop : List (Action ConnectionError) → Action Progress
recv_loop [] = do
  l ← get_listener
  if l.client == null then pure returned else do invoke (Call.recv l.client); pure receiving
recv_loop (answer ∷ answers) = do
  l ← get_listener
  if l.client == null then pure returned else do
    invoke (Call.recv l.client)
    ce ← answer
    if is_no_error ce then recv_loop answers else pure returned

-- `connected` is what `connect` does before it answers, and its answer.
unfoldable pub open_connection :
    Bool → Action Bool → List (Action ConnectionError) → Action Progress
unfolding recv_loop
open_connection toggle connected answers = do
  l ← get_listener
  if not l.is_connected && not (l.client == null)
      then (do
        invoke (Call.connect l.client toggle)
        ok ← connected
        if ok then recv_loop answers else pure returned)
      else pure returned

-- The world after `mIsConnected = b`.
abbrev pub with_connected : Bool → World → World
with_connected b w = record w {
  client = record w.client { listener = set_connected b w.client.listener };
}

unfoldable pub on_connect : Action (Unit {0})
unfolding Callbacks.on_connect
on_connect = Callbacks.on_connect no_slots

unfoldable pub on_disconnect : ConnectionError → Action (Unit {0})
unfolding Callbacks.on_disconnect
on_disconnect = Callbacks.on_disconnect no_slots

unfoldable pub on_tls_connect : CertInfo → Action Bool
unfolding Callbacks.on_tls_connect
on_tls_connect = Callbacks.on_tls_connect no_slots

unfoldable pub handle_message : Message → Option MessageSession → Action (Unit {0})
unfolding Callbacks.handle_message
handle_message = Callbacks.handle_message no_slots

unfoldable pub handle_message_event : Jid → MessageEventType → Action (Unit {0})
handle_message_event sender event = pure tt

unfoldable pub handle_chat_state : Jid → ChatStateType → Action (Unit {0})
handle_chat_state sender state = pure tt

-- A call on a null `mClient`, or on a null session, is undefined.
unfoldable pub handle_message_session : Ptr → Action (Unit {0})
handle_message_session session = do
  l ← get_listener
  if l.client == null
      then behave_undefined
      else invoke (Call.dispose_message_session l.client l.session)
  modify_listener (λ l. record l { session = session })
  if session == null then behave_undefined else invoke (Call.register_message_handler session)
  f ← allocate
  invoke (Call.new_message_event_filter f session)
  modify_listener (λ l. record l { message_event_filter = f })
  invoke (Call.register_message_event_handler f)
  g ← allocate
  invoke (Call.new_chat_state_filter g session)
  modify_listener (λ l. record l { chat_state_filter = g })
  invoke (Call.register_chat_state_handler g)

unfoldable pub handle_roster : Roster → Action (Unit {0})
unfolding Callbacks.handle_roster
handle_roster = Callbacks.handle_roster no_slots

unfoldable pub handle_roster_presence : RosterItem → Str → PresenceType → Str → Action (Unit {0})
unfolding Callbacks.handle_roster_presence
handle_roster_presence = Callbacks.handle_roster_presence no_slots

unfoldable pub handle_log : LogLevel → LogArea → Str → Action (Unit {0})
handle_log level area message = emit (console level area message)

unfoldable pub send_message : Jid → Str → Str → Action Bool
send_message recipient message subject = do
  l ← get_listener
  if (not l.is_connected || is_empty message) || l.client == null then pure false else do
    invoke (
        Call.send l.client (record {
          subtype = MessageType.chat;
          to = recipient;
          body = message;
          subject = subject;
        }))
    pure true

-- `*mClient`
unfoldable pub get_client : Action Ptr
get_client = do l ← get_listener; if l.client == null then behave_undefined else pure l.client

-- `~XmppListener`: `disconnecting` is what happens in `disconnect`. The filters and the session are
-- not deleted. A destructor may not throw.
unfoldable pub destroy : Action (Unit {0}) → Action (Unit {0})
destroy disconnecting = no_throw (do
  l ← get_listener
  if l.client == null then pure tt else do
    invoke (Call.disconnect l.client)
    disconnecting
    invoke (Call.delete_client l.client))
