-- ===== src/Tests/Overriding.antt =====
-- The theorems about subclasses, at one that neither throws on a disconnect nor looks a presence up, and
-- answers each message with its text.
use cinder_xmpp.Prelude.{◌≡◌, refl, Bool, true, none, some, List, [], ◌∷◌, ◌++◌, map, arith}
use cinder_xmpp.Gloox.{conn_no_error, conn_stream_closed, PresenceType}
use cinder_xmpp.World.{Signal, done}
use cinder_xmpp.Client.Api
use cinder_xmpp.Client.Rosters.{IsRoster}
use cinder_xmpp.System.{Callback, Request, Turn, start}
use cinder_xmpp.Listener.{new_listener}
use cinder_xmpp.System.Wiring.{IsWired}
use cinder_xmpp.System.Protocol.{follow, usage}
use cinder_xmpp.System.Connectivity.{last_said}
use cinder_xmpp.System.Threads.{connection_progress}
use cinder_xmpp.System.Slots.{replying}
use cinder_xmpp.System.Overriding.{
  Handling, Body, Overriding, inherited, handle, execute, deliver_to, perform_in, perform_all_in,
}
use cinder_xmpp.System.Overriding.Following.{perform_all_in-follow}
use cinder_xmpp.System.Overriding.Rostered.{perform_all_in-IsRoster}
use cinder_xmpp.System.Overriding.Connected.{perform_all_in-last_said}
use cinder_xmpp.System.Overriding.Survival.{IsCalm, AreSending}
use cinder_xmpp.System.Overriding.Survival.Turns.{IsUp}
use cinder_xmpp.System.Overriding.Survival.Threads.{ScriptIn, plain, answer_in, run_thread-survives}
use cinder_xmpp.Tests.{
  dialled-IsWired, initial-IsWired, initial, dialled, login, chat, bob, presence_of, parse_jid,
  play,
}
use cinder_xmpp.Tests.Calling.{echo}

abbrev robust : Overriding
robust (Handling.on_disconnect e) = Body.raises Signal.disconnected Body.finished
robust (Handling.handle_message msg none) = Body.finished
robust (Handling.handle_message msg (some s)) =
    Body.inherits (Handling.handle_message msg (some s)) (
      Body.reads_connected (λ b.
        Body.asks (Request.send_message s.target.username msg.body msg.subject)
          (λ b. Body.finished)))
robust (Handling.handle_roster_presence item resource presence msg) = Body.finished
robust h = inherited h

robust-IsCalm : (h : Handling) → IsCalm (robust h)
robust-IsCalm Handling.on_connect = (tt, tt)
robust-IsCalm (Handling.on_disconnect e) = tt
robust-IsCalm (Handling.on_tls_connect info) = (tt, tt)
robust-IsCalm (Handling.handle_message msg none) = tt
robust-IsCalm (Handling.handle_message msg (some s)) = (tt, λ b. (tt, λ b. tt))
robust-IsCalm (Handling.handle_roster items) = (tt, tt)
robust-IsCalm (Handling.handle_roster_presence item resource presence msg) = tt

echo-AreSending : (s : Signal) (b : Bool) → AreSending (echo s b)
unfolding echo
echo-AreSending (Signal.message sender subject body) b = (tt, tt)
echo-AreSending _ b = tt

abbrev robustly : List Turn → List (Overriding × Turn)
robustly = map (λ t. (robust, t))

-- The stream is closed, after a presence of someone whom no roster named.
abbrev failing : List Turn
failing =
    presence_of bob PresenceType.away ∷ Turn.callback Callback.on_connect ∷ chat
    ++ Turn.callback (Callback.on_disconnect conn_stream_closed) ∷ []

perform_all_in-follow_example :
    let (r, w', es) =
      perform_all_in parse_jid (replying parse_jid echo) (robustly (login ++ failing)) initial in
    IsWired w' × (follow (usage initial) es ≡ some (usage w'))
perform_all_in-follow_example =
    perform_all_in-follow parse_jid echo (robustly (login ++ failing)) initial initial-IsWired

perform_all_in-IsRoster_example :
    IsRoster
      (perform_all_in parse_jid
        (replying parse_jid echo)
        (robustly (login ++ failing))
        initial).1.client.roster
unfolding start
perform_all_in-IsRoster_example =
    perform_all_in-IsRoster parse_jid echo (robustly (login ++ failing)) initial initial-IsWired
      (record { is_map = tt; peers = tt })

perform_all_in-last_said_example :
    let ts = robustly (login ++ failing) in
    Api.is_connected (perform_all_in parse_jid (replying parse_jid echo) ts initial).1
    ≡ last_said (map (λ t. t.1) ts) (Api.is_connected initial)
unfolding play perform_all_in perform_in deliver_to execute handle echo
perform_all_in-last_said_example =
    perform_all_in-last_said parse_jid echo (robustly (login ++ failing)) initial refl

abbrev script : ScriptIn
script =
    (robustly failing, conn_no_error)
    ∷ (
      robustly (Turn.callback (Callback.on_disconnect conn_stream_closed) ∷ []),
      conn_stream_closed,
    )
    ∷ []

dialled-IsUp : IsUp dialled
unfolding start
dialled-IsUp = (dialled-IsWired, ground arith)

run_thread-survives_example :
    (Api.run_thread
      (record { joinable = true; toggle = true })
      (answer_in parse_jid echo ([], true))
      (map (answer_in parse_jid echo) script)
      dialled).0
    ≡ done (connection_progress true (plain script))
unfolding start new_listener
run_thread-survives_example =
    let calm : ((h : Handling) → IsCalm (robust h)) × Unit {0} = (robust-IsCalm, tt) in
    run_thread-survives parse_jid echo echo-AreSending true [] true script dialled dialled-IsUp refl
      tt ((calm, (calm, (calm, (calm, (calm, (calm, tt)))))), ((calm, tt), tt))
