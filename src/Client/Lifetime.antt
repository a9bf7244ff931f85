-- ===== src/Client/Lifetime.antt =====
-- `XmppClient::connect` and the constructor: what they leave.
use cinder_xmpp.Prelude.{◌≡◌, refl, ◌+◌, true, some, []}
use cinder_xmpp.World.{World, done, Action}
use cinder_xmpp.Client.Api
use cinder_xmpp.Listener

-- The client that `connect` made, and its thread.
abbrev pub connected_world : World → World
connected_world w = record w {
  fresh = w.fresh + 1;
  client = record w.client {
    listener = record w.client.listener { client = w.fresh };
    thread = some (record { joinable = true; toggle = true });
  };
}

-- Whatever was there before, the constructor leaves a client without a gloox client, a thread or a
-- roster, and with itself as the delegate; to destroy the listener that it copies does nothing.
pub construct_lem :
    (disconnecting : Action (Unit {0})) (w : World)
    → Api.construct disconnecting w ≡ (done tt, record w { client = Api.new_client w.self }, [])
unfolding Api.construct Api.new_client Listener.new_listener Listener.destroy
construct_lem disconnecting w = refl
