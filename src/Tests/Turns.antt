-- ===== src/Tests/Turns.antt =====
-- The theorems about what turns leave behind and answer, at the session of `Tests`.
use cinder_xmpp.Prelude.{
  ◌≡◌, refl, ◌≤◌, Str, codes, true, not, ◌&&◌, [], ◌∷◌, ◌++◌, map, arith, if◌then◌else◌, str_eq_iff,
}
use cinder_xmpp.Gloox.{Roster, Call, PresenceType, conn_no_error}
use cinder_xmpp.Peer
use cinder_xmpp.Peer.{XmppPeer, status_int, presence_to_status}
use cinder_xmpp.UnorderedMap.{UnorderedMap, find}
use cinder_xmpp.World.{World, done, call, pure, ◌>>◌}
use cinder_xmpp.Client.Api
use cinder_xmpp.Listener
use cinder_xmpp.Listener.{returned, receiving}
use cinder_xmpp.System.{Callback, Turn, start, perform_all}
use cinder_xmpp.System.Addresses.{chat_message}
use cinder_xmpp.System.Receiving.{Script, received, answer_of}
use cinder_xmpp.System.Threads.{connect_of, connection_turns}
use cinder_xmpp.System.Returning.{has_error, run_thread_returns}
use cinder_xmpp.System.Lifetimes.{made, released, clients, is_done, perform_all-made, life-released}
use cinder_xmpp.System.Delivery.{any_connects, send_after_login}
use cinder_xmpp.System.Connectivity.{last_said}
use cinder_xmpp.System.Alike.{Alike}
use mathlib.Core.List.Perm
use cinder_xmpp.Client.Rosters.{names}
use mathlib.Core.Quot
use cinder_xmpp.System.Alike.Rosters.{unrostered}
use cinder_xmpp.System.Alike.Members.{Members, run, run-roster}
use cinder_xmpp.Tests.{
  bob, carol, presence_of, dialled-IsWired, contacts, dialled, initial, login, parse_jid, play,
}

perform_all-made_example :
    let (r, w', es) = perform_all parse_jid (login ++ login) initial in
    (made es ≤ 2) × ((if is_done r then made es else clients w') ≡ clients w')
perform_all-made_example =
    perform_all-made parse_jid (login ++ login) 1 2 (omega arith) (omega arith)

life-released_example :
    let life = Api.construct (pure tt) >> (perform_all parse_jid login >> Api.destroy (pure tt)) in
    released (life dialled).2 ≡ 0
unfolding start
life-released_example =
    life-released parse_jid login (pure tt) (pure tt) dialled (omega arith) (omega arith)

well_ended : (perform_all parse_jid login initial).0 ≡ done tt
unfolding play
well_ended = refl

send_after_login_example :
    let w = (perform_all parse_jid login initial).1 in
    Api.send_message parse_jid (codes "bob") (codes "hello") [] w ≡ (
      done true,
      w,
      call (
            Call.send w.client.listener.client
              (chat_message (parse_jid (codes "bob" ++ codes "@")) (codes "hello") []))
          ∷ [],
    )
unfolding any_connects last_said
send_after_login_example =
    send_after_login parse_jid 1 2 login (omega arith) (omega arith) (codes "bob") (codes "hello")
      [] well_ended refl refl refl

-- A login and a roster, and nothing more so far.
abbrev quiet : Script
quiet =
    (
      Turn.callback Callback.on_connect ∷ Turn.callback (Callback.handle_roster contacts) ∷ [],
      conn_no_error,
    )
    ∷ []

quiet_well : (perform_all parse_jid (connection_turns [] true quiet) dialled).0 ≡ done tt
unfolding play connection_turns received Listener.is_no_error
quiet_well = refl

run_thread_returns_example :
    (Api.run_thread
      (record { joinable = true; toggle = true })
      (connect_of parse_jid [] true)
      (map (answer_of parse_jid) quiet)
      dialled).0
    ≡ done (if true && not (has_error quiet) then receiving else returned)
unfolding start Listener.new_listener
run_thread_returns_example =
    run_thread_returns parse_jid true [] true quiet dialled dialled-IsWired (omega arith) refl
      quiet_well

-- The two contacts in either order.
abbrev holding : UnorderedMap XmppPeer → World
holding m = record dialled { client = record dialled.client { roster = m } }

abbrev in_order : UnorderedMap XmppPeer
in_order =
    (codes "bob", Peer.peer_named (codes "bob"))
    ∷ (codes "carol", Peer.peer_named (codes "carol"))
    ∷ []

abbrev swapped : UnorderedMap XmppPeer
swapped =
    (codes "carol", Peer.peer_named (codes "carol"))
    ∷ (codes "bob", Peer.peer_named (codes "bob"))
    ∷ []

swapped_finds : (k : Str) → find k in_order ≡ find k swapped
unfolding find
swapped_finds k = ground (arith, str_eq_iff (codes "bob") k, str_eq_iff (codes "carol") k)

swapped-Alike : Alike (holding in_order) (holding swapped)
swapped-Alike = record {
  self = refl;
  fresh = refl;
  listener = refl;
  thread = refl;
  finds = swapped_finds;
}

abbrev reordered : Roster
reordered = (codes "carol@home", carol) ∷ (codes "bob@home", bob) ∷ []

run-roster_example :
    let away = presence_of bob PresenceType.away ∷ [] in
    let since = λ (items : Roster).
      run parse_jid
        (login ++ Turn.callback (Callback.handle_roster items) ∷ away)
        (Quot.mk initial) in
    let (r, m, es) = since contacts in
    let (s, n, fs) = since reordered in (r ≡ s) × (m ≡ n) × (unrostered es ≡ unrostered fs)
unfolding names
run-roster_example =
    run-roster parse_jid contacts reordered (Perm.swap (codes "carol") (codes "bob") []) login
      (presence_of bob PresenceType.away ∷ []) (Quot.mk initial)

-- The quotient does not tell the two orders apart.
swapped_same : ◌≡◌ {A = Members} (Quot.mk (holding in_order)) (Quot.mk (holding swapped))
swapped_same = Quot.sound swapped-Alike
