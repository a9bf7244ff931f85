-- ===== src/World/State.antt =====
-- The members of `XmppListener` and `XmppClient`, the signals, and the exceptions.
use cinder_xmpp.Prelude.{Str, Bool, Option, List}
use cinder_xmpp.UnorderedMap.{UnorderedMap}
use cinder_xmpp.Gloox.{Ptr, Call, LogLevel, LogArea}
use cinder_xmpp.Peer.{Status, XmppPeer}

pub record XmppListener : Type 0 where
  pub is_connected : Bool
  pub server : Str
  pub username : Str
  pub client : Ptr
  pub session : Ptr
  pub message_event_filter : Ptr
  pub chat_state_filter : Ptr
  pub delegate : Ptr

-- A `std::thread` that runs `openConnection(toggle)`. It is joinable until someone joins or
-- detaches it, also after its function has returned.
pub record Thread : Type 0 where
  pub joinable : Bool
  pub toggle : Bool

-- The signals are no members here: what they emit is an effect.
pub record XmppClient : Type 0 where
  pub listener : XmppListener
  pub thread : Option Thread
  pub roster : UnorderedMap XmppPeer

-- One `XmppClient` at the address `self`, and the address that the next `new` gives.
pub record World : Type 0 where
  pub self : Ptr
  pub fresh : Ptr
  pub client : XmppClient

-- The classes below `XmppExc`, and itself.
pub data Exception : Type 0 where
  xmpp_exc : Exception
  xmpp_auth_exc : Exception
  xmpp_protocol_exc : Exception
  xmpp_stream_exc : Exception
  xmpp_connection_exc : Exception

-- The six signals, with what they are called with.
pub data Signal : Type 0 where
  connected : Signal
  disconnected : Signal
  tls_connected : Signal
  roster : List Str → Signal
  message : XmppPeer → Str → Str → Signal
  roster_presence : XmppPeer → Str → Status → Str → Signal

-- What others see of a run: a call into gloox, a signal, a started thread, a line on the console.
pub data Effect : Type 0 where
  call : Call → Effect
  signal : Signal → Effect
  start_thread : Thread → Effect
  console : LogLevel → LogArea → Str → Effect
