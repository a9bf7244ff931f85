-- ===== src/System/Standalone.antt =====
-- src/XmppListener.h: a listener without a delegate, as its default argument makes it.
use cinder_xmpp.Prelude.{◌≡◌, ◌≢◌, [], arith}
use cinder_xmpp.Gloox.{null}
use cinder_xmpp.World.{World, threw, Exception}
use cinder_xmpp.World.Laws.{signals}
use cinder_xmpp.Listener
use cinder_xmpp.System.{Callback, deliver, Turn}
use cinder_xmpp.System.Connectivity.{says}

-- Without a delegate, a callback raises no signal and throws nothing, whatever error it reports; it
-- leaves the roster and the thread alone, and the connected flag says what the callback says.
pub deliver_alone :
    (c : Callback) (w : World)
    → w.client.listener.delegate ≡ null
    → let (r, w', es) = deliver c w in
      (signals es ≡ [])
      × ((e : Exception) → r ≢ threw e)
      × (w'.client.roster ≡ w.client.roster)
      × (w'.client.thread ≡ w.client.thread)
      × (w'.client.listener.is_connected ≡ says (Turn.callback c) w.client.listener.is_connected)
unfolding deliver signals says Listener.on_connect Listener.on_disconnect Listener.on_tls_connect
    Listener.handle_message Listener.handle_message_event Listener.handle_chat_state
    Listener.handle_message_session Listener.handle_roster Listener.handle_roster_presence
    Listener.handle_log
deliver_alone Callback.on_connect w h = ground arith
deliver_alone (Callback.on_disconnect e) w h = ground arith
deliver_alone (Callback.on_tls_connect info) w h = ground arith
deliver_alone (Callback.handle_message msg sess) w h = ground arith
deliver_alone (Callback.handle_message_session s) w h = ground arith
deliver_alone (Callback.handle_roster items) w h = ground arith
deliver_alone (Callback.handle_roster_presence item resource presence msg) w h = ground arith
deliver_alone c w h = ground arith
