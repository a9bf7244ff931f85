-- ===== src/System.antt =====
-- The wrapper as a whole: the callbacks that gloox may make (src/XmppListener.h) and the calls that
-- the application may make, in any order.
pub mod Runs
pub mod Wiring
pub mod Spec
pub mod Refinement
pub mod Addresses
pub mod Sessions
pub mod Receiving
pub mod Threads
pub mod Histories
pub mod Peers
pub mod Knowledge
pub mod Orderly
pub mod Standalone
pub mod Connectivity
pub mod Interleaving
pub mod Returning
pub mod Lifetimes
pub mod Delivery
pub mod Alike
pub mod Slots
pub mod Overriding
pub mod Concurrent
pub mod Protocol
pub mod Conformance
use cinder_xmpp.Prelude.{Str, Bool, false, Option, none, some, List, [], ◌∷◌}
use cinder_xmpp.Gloox.{
  ConnectionError, CertInfo, Jid, Message, MessageSession, RosterItem, Roster, PresenceType,
  MessageEventType, ChatStateType, LogLevel, LogArea, Ptr, Presence, Iq, Error, StreamEvent,
}
use cinder_xmpp.World.{Action, ◌>>=◌, ◌>>◌, pure, World, XmppClient, XmppListener}
use cinder_xmpp.Client.Api
use cinder_xmpp.Listener.Interfaces.{
  connection_listener, message_handler, message_session_handler, log_handler, message_event_handler,
  chat_state_handler, presence_handler, roster_listener,
}

-- The callbacks of the interfaces that `XmppListener` implements, with their arguments.
pub data Callback : Type 0 where
  on_connect : Callback
  on_disconnect : ConnectionError → Callback
  on_resource_bind : Str → Callback
  on_resource_bind_error : Option Error → Callback
  on_session_create_error : Option Error → Callback
  on_tls_connect : CertInfo → Callback
  on_stream_event : StreamEvent → Callback
  handle_message : Message → Option MessageSession → Callback
  handle_message_event : Jid → MessageEventType → Callback
  handle_chat_state : Jid → ChatStateType → Callback
  handle_message_session : Ptr → Callback
  handle_log : LogLevel → LogArea → Str → Callback
  handle_presence : Presence → Callback
  handle_roster : Roster → Callback
  handle_roster_presence : RosterItem → Str → PresenceType → Str → Callback
  handle_roster_error : Iq → Callback
  handle_item_added : Jid → Callback
  handle_item_subscribed : Jid → Callback
  handle_item_removed : Jid → Callback
  handle_item_updated : Jid → Callback
  handle_item_unsubscribed : Jid → Callback
  handle_self_presence : RosterItem → Str → PresenceType → Str → Callback
  handle_subscription_request : Jid → Str → Callback
  handle_unsubscription_request : Jid → Str → Callback
  handle_nonroster_presence : Presence → Callback

abbrev pub void : Action (Unit {0}) → Action (Option Bool)
void m = m >> pure none

-- A callback, and what it returns to gloox where it is no `void`.
unfoldable pub deliver : Callback → Action (Option Bool)
deliver on_connect = void connection_listener.on_connect
deliver (on_disconnect e) = void (connection_listener.on_disconnect e)
deliver (on_resource_bind resource) = void (connection_listener.on_resource_bind resource)
deliver (on_resource_bind_error error) = void (connection_listener.on_resource_bind_error error)
deliver (on_session_create_error error) = void (connection_listener.on_session_create_error error)
deliver (on_tls_connect info) = do b ← connection_listener.on_tls_connect info; pure (some b)
deliver (on_stream_event event) = void (connection_listener.on_stream_event event)
deliver (handle_message msg sess) = void (message_handler.handle_message msg sess)
deliver (handle_message_event sender event) =
    void (message_event_handler.handle_message_event sender event)
deliver (handle_chat_state sender state) = void (chat_state_handler.handle_chat_state sender state)
deliver (handle_message_session session) =
    void (message_session_handler.handle_message_session session)
deliver (handle_log level area message) = void (log_handler.handle_log level area message)
deliver (handle_presence presence) = void (presence_handler.handle_presence presence)
deliver (handle_roster items) = void (roster_listener.handle_roster items)
deliver (handle_roster_presence item resource presence msg) =
    void (roster_listener.handle_roster_presence item resource presence msg)
deliver (handle_roster_error iq) = void (roster_listener.handle_roster_error iq)
deliver (handle_item_added jid) = void (roster_listener.handle_item_added jid)
deliver (handle_item_subscribed jid) = void (roster_listener.handle_item_subscribed jid)
deliver (handle_item_removed jid) = void (roster_listener.handle_item_removed jid)
deliver (handle_item_updated jid) = void (roster_listener.handle_item_updated jid)
deliver (handle_item_unsubscribed jid) = void (roster_listener.handle_item_unsubscribed jid)
deliver (handle_self_presence item resource presence msg) =
    void (roster_listener.handle_self_presence item resource presence msg)
deliver (handle_subscription_request jid msg) = do
  b ← roster_listener.handle_subscription_request jid msg
  pure (some b)
deliver (handle_unsubscription_request jid msg) = do
  b ← roster_listener.handle_unsubscription_request jid msg
  pure (some b)
deliver (handle_nonroster_presence presence) =
    void (roster_listener.handle_nonroster_presence presence)

-- A call of the application.
pub data Request : Type 0 where
  connect : Str → Str → Request
  send_message : Str → Str → Str → Request

unfoldable pub request : (jid_of : Str → Jid) → Request → Action Bool
request jid_of (connect xmpp_user xmpp_server) = Api.connect jid_of xmpp_user xmpp_server
request jid_of (send_message recipient message subject) =
    Api.send_message jid_of recipient message subject

-- One turn of either side. The functions do not lock, so a turn stands for a whole call.
pub data Turn : Type 0 where
  callback : Callback → Turn
  ask : Request → Turn

unfoldable pub perform : (jid_of : Str → Jid) → Turn → Action (Unit {0})
unfolding deliver request
perform jid_of (callback c) = do deliver c; pure tt
perform jid_of (ask r) = do request jid_of r; pure tt

unfoldable pub perform_all : (jid_of : Str → Jid) → List Turn → Action (Unit {0})
perform_all jid_of [] = pure tt
perform_all jid_of (t ∷ ts) = do perform jid_of t; perform_all jid_of ts

-- Before the first call.
unfoldable pub start : Ptr → Ptr → World
unfolding Api.new_client
start self fresh = record { self = self; fresh = fresh; client = Api.new_client self }
