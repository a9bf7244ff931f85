-- ===== src/Tests/Concurrent.antt =====
-- The theorems about two threads, at a message that a disconnect meets on its way.
use cinder_xmpp.Prelude.{◌≡◌, refl, Bool, codes, true, false, none, some, List, [], ◌∷◌, ◌++◌, map}
use cinder_xmpp.Gloox.{conn_no_error}
use cinder_xmpp.World.{World, Effect, signal, Signal, done}
use cinder_xmpp.World.Laws.{signals}
use cinder_xmpp.Client.Api
use cinder_xmpp.Listener
use cinder_xmpp.System.{Callback, Request, Turn, perform_all}
use cinder_xmpp.System.Spec.{view, spec_all, spec_answers}
use cinder_xmpp.System.Interleaving.{addressing, answered, advance}
use cinder_xmpp.System.Interleaving.Sent.{sent}
use cinder_xmpp.System.Interleaving.Quiet.{unsent}
use cinder_xmpp.System.Interleaving.Halves.{noted, rest, Finely}
use cinder_xmpp.System.Interleaving.Halves.Joined.{Finely-linear}
use cinder_xmpp.System.Concurrent.{dial, store}
use cinder_xmpp.System.Concurrent.Answers.{callbacks_of}
use cinder_xmpp.System.Concurrent.Linear.{Serial}
use cinder_xmpp.System.Concurrent.Steps.{Task, Steps}
use cinder_xmpp.System.Concurrent.Steps.Whole.{Steps-Serial}
use cinder_xmpp.System.Concurrent.Steps.Settling.{
  Settled, Steps-Settled, after, ended, pending, settled,
}
use cinder_xmpp.System.Concurrent.Steps.Onward.{Onward}
use cinder_xmpp.System.Concurrent.Steps.Unique.{Onward-unique}
use cinder_xmpp.System.Concurrent.Refinement.{Steps-spec_all}
use cinder_xmpp.Tests.{initial, initial-IsWired, parse_jid, play}
use cinder_xmpp.Tests.Interleaved.{online, hello, recipient, handed}

abbrev offline : World
offline = Listener.with_connected false online

abbrev goodbye : Callback
goodbye = Callback.on_disconnect conn_no_error

abbrev mixed : List Effect
mixed = handed ++ signal Signal.disconnected ∷ []

-- The disconnect is in its second half while the message goes out.
interrupted :
    Finely parse_jid recipient hello [] online (goodbye ∷ []) none (answered true) offline mixed
unfolding play advance Api.recipient_address noted rest
interrupted =
    Finely.finish goodbye
      (Finely.step
        (Finely.step (Finely.begin goodbye (Finely.step (Finely.step Finely.here refl) refl) refl)
          refl)
        refl)
      refl refl

Finely-linear_example :
    (before : List Callback) × (after : List Callback) × (es' : List Effect) × (before ++ after
      ≡ goodbye ∷ [])
    × (perform_all parse_jid
          (map Turn.callback before
            ++ Turn.ask (Request.send_message recipient hello []) ∷ map Turn.callback after)
          online
        ≡ (done tt, offline, es'))
    × ((Api.send_message parse_jid recipient hello []
          (perform_all parse_jid (map Turn.callback before) online).1).0
        ≡ done true)
    × (sent es' ≡ sent mixed)
    × (unsent es' ≡ unsent mixed)
Finely-linear_example = Finely-linear parse_jid recipient hello [] online interrupted

-- What `connect` and `sendMessage` do to others, with a login and that disconnect.
abbrev seen : List Effect
seen =
    (play (Turn.ask (Request.connect (codes "alice") (codes "home")) ∷ []) initial).2
    ++ signal Signal.connected ∷ mixed

abbrev asked : List (Request × Bool)
asked =
    (Request.connect (codes "alice") (codes "home"), true)
    ∷ (Request.send_message recipient hello [], true)
    ∷ []

abbrev callbacks : List Callback
callbacks = Callback.on_connect ∷ goodbye ∷ []

-- The login begins before `connect` has stored the thread, and ends while `sendMessage` runs; the
-- disconnect begins there, and ends after it.
session : Steps parse_jid initial asked callbacks none Task.idle offline seen
unfolding play dial store advance Api.recipient_address noted rest
session =
    let connecting = Steps.dialling (codes "alice") (codes "home") Steps.start refl refl refl in
    let connected =
      Steps.stored (codes "alice") (codes "home") (record { joinable = true; toggle = true })
        (Steps.begin Callback.on_connect connecting refl) refl in
    let tested =
      Steps.step recipient hello [] _
        (Steps.step recipient hello [] _ (Steps.call_send_message recipient hello [] connected)
          refl)
        refl in
    let logged_in = Steps.finish Callback.on_connect tested refl refl in
    let handed_over =
      Steps.step recipient hello [] _
        (Steps.step recipient hello [] _ (Steps.begin goodbye logged_in refl) refl) refl in
    Steps.finish goodbye (Steps.answer recipient hello [] true handed_over) refl refl

Steps-Serial_example : Serial parse_jid initial asked callbacks offline seen
Steps-Serial_example = Steps-Serial parse_jid initial session

Steps-spec_all_example :
    (ts : List Turn) × (callbacks_of ts ≡ callbacks)
    × (spec_answers ts (view initial) ≡ asked)
    × (spec_all ts (view initial) ≡ (done tt, view offline, signals seen))
Steps-spec_all_example = Steps-spec_all parse_jid session initial-IsWired

-- The login is in its second half, and `sendMessage` has just been called.
Steps-Settled_example :
    Settled parse_jid initial
      ((Request.connect (codes "alice") (codes "home"), true) ∷ [])
      []
      (some Callback.on_connect)
      (Task.sending recipient hello [] addressing)
      online
      (play (Turn.ask (Request.connect (codes "alice") (codes "home")) ∷ []) initial).2
unfolding play dial store noted rest
Steps-Settled_example =
    Steps-Settled parse_jid initial
      (Steps.call_send_message recipient hello [] (
        Steps.stored (codes "alice") (codes "home") (record { joinable = true; toggle = true })
          (Steps.begin Callback.on_connect
            (Steps.dialling (codes "alice") (codes "home") Steps.start refl refl refl) refl)
          refl))
      (none, refl) tt

-- From there the test of the flag comes before the callback returns, and that of the client after it.
settling :
    Onward parse_jid
      (some Callback.on_connect)
      (Task.sending recipient hello [] addressing)
      online
      ((Request.send_message recipient hello [], true) ∷ [])
      (Callback.on_connect ∷ [])
      online
      (signal Signal.connected ∷ handed)
unfolding play dial store advance Api.recipient_address noted rest
settling = Onward.step recipient hello [] _ refl (
    Onward.step recipient hello [] _ refl (
      Onward.finish Callback.on_connect refl (
        Onward.step recipient hello [] _ refl (
          Onward.step recipient hello [] _ refl
            (Onward.answer recipient hello [] true Onward.at_rest)))))

Onward-unique_example :
    ((Request.send_message recipient hello [], true) ∷ []
      ≡ ended
          (Task.sending recipient hello [] addressing)
          (after (some Callback.on_connect) online))
    × (Callback.on_connect ∷ [] ≡ pending (some Callback.on_connect))
    × (online
        ≡ settled
            (Task.sending recipient hello [] addressing)
            (after (some Callback.on_connect) online))
Onward-unique_example = Onward-unique parse_jid settling
