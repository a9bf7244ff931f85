-- ===== src/Listener/Callbacks.antt =====
-- src/XmppListener.cpp: the callbacks that call the delegate, with the slots of the application.
use cinder_xmpp.Prelude.{Str, Bool, true, false, Option, ◌==◌, if◌then◌else◌}
use cinder_xmpp.Gloox.{
  ConnectionError, CertInfo, Message, MessageSession, RosterItem, Roster, PresenceType, null,
}
use cinder_xmpp.World.{
  XmppListener, Action, ◌>>=◌, ◌>>◌, pure, behave_undefined, gets, get_listener, modify_listener,
  Slots,
}
use cinder_xmpp.Client.Delegate

-- `if (mDelegate) mDelegate->…`, where a pointer to anything but the client is dangling.
abbrev pub to_delegate : Action (Unit {0}) → Action (Unit {0})
to_delegate handler = do
  l ← get_listener
  self ← gets (λ w. w.self)
  if l.delegate == null then pure tt else if l.delegate == self then handler else behave_undefined

abbrev pub set_connected : Bool → XmppListener → XmppListener
set_connected b l = record l { is_connected = b }

module _ (slots : Slots) where
  unfoldable pub on_connect : Action (Unit {0})
  unfolding Delegate.on_connect
  on_connect = do modify_listener (set_connected true); to_delegate (Delegate.on_connect slots)

  unfoldable pub on_disconnect : ConnectionError → Action (Unit {0})
  on_disconnect e = do
    modify_listener (set_connected false)
    to_delegate (Delegate.on_disconnect slots e)

  unfoldable pub on_tls_connect : CertInfo → Action Bool
  on_tls_connect info = do
    modify_listener (set_connected true)
    to_delegate (Delegate.on_tls_connect slots info)
    pure true

  unfoldable pub handle_message : Message → Option MessageSession → Action (Unit {0})
  handle_message msg sess = to_delegate (Delegate.handle_message slots msg sess)

  unfoldable pub handle_roster : Roster → Action (Unit {0})
  handle_roster items = to_delegate (Delegate.handle_roster slots items)

  unfoldable pub handle_roster_presence : RosterItem → Str → PresenceType → Str → Action (Unit {0})
  handle_roster_presence item resource presence msg =
      to_delegate (Delegate.handle_roster_presence slots item resource presence msg)
