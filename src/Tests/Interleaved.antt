-- ===== src/Tests/Interleaved.antt =====
-- The theorems about `sendMessage` step by step, at a message to a contact.
use cinder_xmpp.Prelude.{◌≡◌, ◌≢◌, refl, Str, codes, true, false, List, [], ◌∷◌, arith, All}
use cinder_xmpp.Gloox.{Call}
use cinder_xmpp.World.{World, call, signal, Signal, Effect}
use cinder_xmpp.Client.Api
use cinder_xmpp.Client.Api.{is_connected}
use cinder_xmpp.Listener
use cinder_xmpp.System.{start}
use cinder_xmpp.System.Wiring.{IsWired}
use cinder_xmpp.System.Addresses.{chat_message}
use cinder_xmpp.System.Interleaving.{addressing, answered, crashed, advance, Reach, here, step}
use cinder_xmpp.System.Interleaving.Sent.{sent, sent_at, IsSendable, Reach-sent}
use cinder_xmpp.System.Interleaving.Race.{send_while_disconnected}
use cinder_xmpp.Tests.{dialled, parse_jid}

-- Logged in.
abbrev pub online : World
online = Listener.with_connected true dialled

abbrev pub hello : Str
hello = codes "hello"

abbrev pub recipient : Str
recipient = codes "bob"

abbrev pub handed : List Effect
handed = call (Call.send 2 (chat_message (parse_jid (codes "bob@")) hello [])) ∷ []

-- The four steps.
four_steps : Reach parse_jid recipient hello [] addressing online 4 (answered true) online handed
unfolding advance Api.recipient_address start Listener.new_listener
four_steps = step (step (step (step (here refl) refl) refl) refl) refl

Reach-sent_example :
    (answered true ≢ crashed)
    × (sent handed ≡ sent_at parse_jid recipient hello [] online (answered true))
    × All IsSendable (sent handed)
Reach-sent_example = Reach-sent parse_jid recipient hello [] online four_steps

online-IsWired : IsWired online
unfolding start Listener.new_listener
online-IsWired = ground arith

send_while_disconnected_example :
    (w' : World) × (es : List Effect) × Reach parse_jid recipient hello [] addressing online 4
      (answered true)
      w'
      es
    × (is_connected w' ≡ false)
    × (es
        ≡ signal Signal.disconnected
          ∷ call (
              Call.send online.client.listener.client (
                chat_message
                  (parse_jid (Api.recipient_address recipient online.client.listener))
                  hello
                  []))
          ∷ [])
unfolding start
send_while_disconnected_example =
    send_while_disconnected parse_jid recipient hello [] online online-IsWired refl (omega arith)
      refl
