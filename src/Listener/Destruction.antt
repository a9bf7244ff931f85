-- ===== src/Listener/Destruction.antt =====
-- src/XmppListener.cpp, `~XmppListener`, which disconnects first: gloox reports that to the listener.
use cinder_xmpp.Prelude.{◌≡◌, ◌≢◌, ◌<◌, false, [], ◌∷◌, arith, inl, inr}
use cinder_xmpp.Gloox.{ConnectionError, conn_no_error, Call, null}
use cinder_xmpp.World.{World, done, terminated, call}
use cinder_xmpp.Client.Messages.{on_disconnect_lem}
use cinder_xmpp.Listener.{with_connected, on_disconnect, destroy}

module _ (e : ConnectionError) (w : World) (has_client : 0 < w.client.listener.client) where
  -- A listener without a delegate is destroyed in order: its client is told to disconnect, the listener
  -- counts as disconnected, and the client is deleted.
  pub destroy_alone :
      w.client.listener.delegate ≡ null
      → destroy (on_disconnect e) w ≡ (
        done tt,
        with_connected false w,
        call (Call.disconnect w.client.listener.client)
            ∷ call (Call.delete_client w.client.listener.client)
            ∷ [],
      )
  unfolding destroy on_disconnect
  destroy_alone h = ground arith

  -- With a client as its delegate, a disconnect that is reported with an error ends the process, since
  -- the handler throws out of the destructor.
  pub destroy_attached :
      w.client.listener.delegate ≡ w.self
      → 0 < w.self
      → e ≢ conn_no_error
      → (destroy (on_disconnect e) w).0 ≡ terminated
  unfolding destroy on_disconnect
  destroy_attached h p bad = elim (on_disconnect_lem e (with_connected false w)) [
    | inl fine ↦ absurd (bad fine.0)
    | inr thrown ↦ ground (arith, thrown.3)
  ]
