-- ===== src/Client/Messages.antt =====
-- `XmppClient::handleMessage` and `onDisconnect`: which peer a message is signalled with, and when a
-- disconnect is signalled.
use cinder_xmpp.Client.Delegate
use cinder_xmpp.Prelude.{
  ◌≡◌, ◌≢◌, refl, Option, none, some, [], ◌∷◌, arith, Option-cases, inl, inr, ◌⊎◌,
}
use mathlib.Core.Option.{get_or}
use cinder_xmpp.UnorderedMap.{find}
use cinder_xmpp.Gloox.{Message, MessageSession, ConnectionError, conn_no_error}
use cinder_xmpp.Peer.{default_peer}
use cinder_xmpp.World.{World, done, threw, undefined, Signal, signal, Exception}
use cinder_xmpp.Client.{exception_of, handle_message, on_disconnect}

exception_of-none : (e : ConnectionError) → exception_of e ≡ none → e ≡ conn_no_error
unfolding exception_of
exception_of-none e h = ground arith

exception_of-some :
    (e : ConnectionError) {x : Exception} → exception_of e ≡ some x → e ≢ conn_no_error
unfolding exception_of
exception_of-some e h = ground arith

-- A disconnect without an error is signalled and throws nothing; one with an error throws the
-- exception of its kind and signals nothing.
pub on_disconnect_lem :
    (e : ConnectionError) (w : World)
    → ((e ≡ conn_no_error) × (on_disconnect e w ≡ (done tt, w, signal Signal.disconnected ∷ [])))
      ⊎ ((x : Exception) × (e ≢ conn_no_error)
          × (exception_of e ≡ some x)
          × (on_disconnect e w ≡ (threw x, w, [])))
unfolding Delegate.on_disconnect
on_disconnect_lem e w = elim (Option-cases (exception_of e)) [
  | inl p ↦ inl (exception_of-none e p, ground arith)
  | inr (x, p) ↦ inr (x, exception_of-some e p, p, ground arith)
]

-- A message is signalled with the peer that the roster holds under the sender's name, or else with
-- the default peer; through a null session the run is undefined. Nothing changes.
pub handle_message_lem :
    (msg : Message) (sess : Option MessageSession) (w : World)
    → handle_message msg sess w ≡ elim sess [
      | none ↦ (undefined, w, [])
      | some s ↦ (
        done tt,
        w,
        signal (
              Signal.message
                (get_or (find s.target.username w.client.roster) default_peer)
                msg.subject
                msg.body)
            ∷ [],
      )
    ]
unfolding Delegate.handle_message
handle_message_lem msg none w = refl
handle_message_lem msg (some s) w = refl
