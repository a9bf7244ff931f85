-- ===== src/Client/Api.antt =====
-- src/XmppClient.cpp and XmppClient.h: what the application calls, and construction and
-- destruction.
use cinder_xmpp.Prelude.{
  List, Str, codes, is_empty, Bool, true, false, not, ◌||◌, none, some, [], ◌++◌, ◌==◌,
  if◌then◌else◌,
}
use cinder_xmpp.Gloox.{ConnectionError, Jid, Ptr, null}
use cinder_xmpp.World.{
  XmppListener, Thread, XmppClient, World, start_thread, Action, ◌>>=◌, ◌>>◌, pure, no_throw, gets,
  emit, get_listener, modify_client, release_thread,
}
use cinder_xmpp.Listener
use cinder_xmpp.Listener.{Progress, new_listener}

-- What the constructor leaves.
unfoldable pub new_client : Ptr → XmppClient
new_client self = record { listener = new_listener self; thread = none; roster = [] }

-- The constructor: the members, with a listener that has no delegate, and then
-- `mListener = XmppListener(this)`, which copies the members of another listener; that one is destroyed
-- with the same members.
unfoldable pub construct : Action (Unit {0}) → Action (Unit {0})
construct disconnecting = do
  modify_client (λ c. record { listener = new_listener null; thread = none; roster = [] })
  self ← gets (λ w. w.self)
  modify_client (λ c. record c { listener = new_listener self })
  Listener.destroy disconnecting

-- The thread runs `mListener.openConnection(this)`: the pointer becomes the flag `toggle`. The
-- thread that the assignment replaces is destroyed last.
unfoldable pub connect : (jid_of : Str → Jid) → Str → Str → Action Bool
connect jid_of xmpp_user xmpp_server =
    if is_empty xmpp_user || is_empty xmpp_server then pure false else do
      Listener.setup jid_of xmpp_user xmpp_server false
      self ← gets (λ w. w.self)
      let thread : Thread = record { joinable = true; toggle = not (self == null) }
      emit (start_thread thread)
      old ← gets (λ w. w.client.thread)
      modify_client (λ c. record c { thread = some thread })
      release_thread old
      pure true

-- The text that `sendMessage` makes a `JID` of.
unfoldable pub recipient_address : Str → XmppListener → Str
recipient_address recipient l = recipient ++ (codes "@" ++ l.server)

unfoldable pub send_message : (jid_of : Str → Jid) → Str → Str → Str → Action Bool
unfolding recipient_address
send_message jid_of recipient message subject = do
  l ← get_listener
  Listener.send_message (jid_of (recipient_address recipient l)) message subject

unfoldable pub is_connected : World → Bool
is_connected w = w.client.listener.is_connected

-- `~XmppClient` and the members, last declared first: the map, the thread, the listener.
unfoldable pub destroy : Action (Unit {0}) → Action (Unit {0})
destroy disconnecting = no_throw (do
  modify_client (λ c. record c { roster = [] })
  t ← gets (λ w. w.client.thread)
  release_thread t
  Listener.destroy disconnecting)

-- What the thread runs. An exception that leaves the function of a thread ends the process.
unfoldable pub run_thread : Thread → Action Bool → List (Action ConnectionError) → Action Progress
run_thread t connected answers = no_throw (Listener.open_connection t.toggle connected answers)
