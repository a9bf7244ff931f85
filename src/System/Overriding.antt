-- ===== src/System/Overriding.antt =====
-- src/XmppClient.h: subclasses. The handlers of `XmppClient` are virtual and protected and its members
-- private, so what an overriding function can do to the client is to call what is public, to raise its
-- signals, and to call the handlers that it inherits.
pub mod Laws
pub mod Turns
pub mod Following
pub mod Rostered
pub mod Connected
pub mod Survival
use cinder_xmpp.Prelude.{Str, Bool, true, false, Option, some, List, [], ◌∷◌}
use cinder_xmpp.Gloox.{
  ConnectionError, CertInfo, Jid, Message, MessageSession, RosterItem, Roster, PresenceType,
}
use cinder_xmpp.World.{
  Exception, Signal, Action, ◌>>=◌, ◌>>◌, pure, throw, gets, Slots, raise_signal, modify_listener,
}
use cinder_xmpp.Client.Delegate
use cinder_xmpp.Client.Api
use cinder_xmpp.Listener.{to_delegate, set_connected}
use cinder_xmpp.System.{Callback, void, deliver, Request, request, Turn, perform}

-- A call of a virtual function.
pub data Handling : Type 0 where
  on_connect : Handling
  on_disconnect : ConnectionError → Handling
  on_tls_connect : CertInfo → Handling
  handle_message : Message → Option MessageSession → Handling
  handle_roster : Roster → Handling
  handle_roster_presence : RosterItem → Str → PresenceType → Str → Handling

-- The body of an overriding function, as far as the client can tell: what it calls, and how it goes on
-- by the answer. It may throw.
pub data Body : Type 0 where
  finished : Body
  throws : Exception → Body
  asks : Request → (Bool → Body) → Body
  reads_connected : (Bool → Body) → Body
  raises : Signal → Body → Body
  inherits : Handling → Body → Body

-- What each virtual function does.
abbrev pub Overriding : Type 0
Overriding = Handling → Body

-- A class that overrides nothing.
abbrev pub inherited : Overriding
inherited h = Body.inherits h Body.finished

-- The function of `XmppClient` itself.
unfoldable pub handle : Slots → Handling → Action (Unit {0})
handle slots Handling.on_connect = Delegate.on_connect slots
handle slots (Handling.on_disconnect e) = Delegate.on_disconnect slots e
handle slots (Handling.on_tls_connect info) = Delegate.on_tls_connect slots info
handle slots (Handling.handle_message msg sess) = Delegate.handle_message slots msg sess
handle slots (Handling.handle_roster items) = Delegate.handle_roster slots items
handle slots (Handling.handle_roster_presence item resource presence msg) =
    Delegate.handle_roster_presence slots item resource presence msg

module _ (jid_of : Str → Jid) (slots : Slots) where
  unfoldable pub execute : Body → Action (Unit {0})
  unfolding handle
  execute Body.finished = pure tt
  execute (Body.throws x) = throw x
  execute (Body.asks r k) = do b ← request jid_of r; execute (k b)
  execute (Body.reads_connected k) = do b ← gets Api.is_connected; execute (k b)
  execute (Body.raises s k) = do raise_signal slots s; execute k
  execute (Body.inherits h k) = do handle slots h; execute k

  -- `mDelegate->…`, which calls what the class of the client has for it.
  abbrev pub dispatch : Overriding → Handling → Action (Unit {0})
  dispatch overriding h = to_delegate (execute (overriding h))

  -- A callback where the client is of a subclass.
  unfoldable pub deliver_to : Overriding → Callback → Action (Option Bool)
  unfolding execute
  deliver_to overriding Callback.on_connect =
      void (do modify_listener (set_connected true); dispatch overriding Handling.on_connect)
  deliver_to overriding (Callback.on_disconnect e) =
      void
        (do modify_listener (set_connected false); dispatch overriding (Handling.on_disconnect e))
  deliver_to overriding (Callback.on_tls_connect info) = do
    b ← (do
      modify_listener (set_connected true)
      dispatch overriding (Handling.on_tls_connect info)
      pure true)
    pure (some b)
  deliver_to overriding (Callback.handle_message msg sess) =
      void (dispatch overriding (Handling.handle_message msg sess))
  deliver_to overriding (Callback.handle_roster items) =
      void (dispatch overriding (Handling.handle_roster items))
  deliver_to overriding (Callback.handle_roster_presence item resource presence msg) =
      void (dispatch overriding (Handling.handle_roster_presence item resource presence msg))
  deliver_to overriding c = deliver c

  unfoldable pub perform_in : Overriding × Turn → Action (Unit {0})
  unfolding deliver_to
  perform_in (overriding, Turn.callback c) = do deliver_to overriding c; pure tt
  perform_in (overriding, Turn.ask r) = perform jid_of (Turn.ask r)

  -- Turns, each with what the overriding functions do in it, since that may depend on members of the
  -- subclass.
  unfoldable pub perform_all_in : List (Overriding × Turn) → Action (Unit {0})
  perform_all_in [] = pure tt
  perform_all_in (t ∷ ts) = do perform_in t; perform_all_in ts
