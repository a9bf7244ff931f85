-- ===== src/Tests/Calling.antt =====
-- The theorems about slots that make calls, at an application that answers each message with its body.
use cinder_xmpp.Prelude.{Bool, ◌≡◌, refl, codes, some, List, [], ◌∷◌, ◌++◌}
use cinder_xmpp.Gloox.{conn_no_error}
use cinder_xmpp.Client.Api
use cinder_xmpp.World.{Signal, terminated}
use cinder_xmpp.World.Laws.{signals}
use cinder_xmpp.System.{Callback, Request, Turn, perform_all}
use cinder_xmpp.System.Delivery.{any_connects}
use cinder_xmpp.System.Slots.{perform_with, perform_all_with, answers, replied, expand}
use cinder_xmpp.System.Slots.Expansion.{perform_all_with-expand}
use cinder_xmpp.System.Slots.Reconnecting.{reconnect_terminated}
use cinder_xmpp.Tests.{
  dialled-IsWired, initial, dialled, login, contacts, greeting, bob_session, parse_jid, play,
}

unfoldable pub echo : Signal → Bool → List Request
echo (Signal.message sender subject body) b = Request.send_message sender.username body subject ∷ []
echo _ b = []

abbrev asked : List Turn
asked =
    Turn.callback (Callback.handle_roster contacts)
    ∷ Turn.callback (Callback.handle_message greeting (some bob_session))
    ∷ []

perform_all_with-expand_example :
    perform_all_with parse_jid echo (login ++ asked) initial
    ≡ perform_all parse_jid
        (login ++ asked ++ Turn.ask (Request.send_message (codes "bob") (codes "hello") []) ∷ [])
        initial
unfolding play Api.is_connected expand answers replied echo signals
perform_all_with-expand_example = perform_all_with-expand parse_jid echo (login ++ asked) initial

-- An application that connects again when a disconnect is signalled.
unfoldable reconnect : Signal → Bool → List Request
reconnect Signal.disconnected b = Request.connect (codes "alice") (codes "home") ∷ []
reconnect _ b = []

reconnect_terminated_example :
    (perform_with parse_jid reconnect
      (Turn.callback (Callback.on_disconnect conn_no_error))
      dialled).0
    ≡ terminated
unfolding play Api.is_connected reconnect answers replied any_connects
reconnect_terminated_example =
    reconnect_terminated parse_jid reconnect (Callback.on_disconnect conn_no_error) dialled
      dialled-IsWired refl refl refl
