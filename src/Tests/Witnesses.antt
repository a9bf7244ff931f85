-- ===== src/Tests/Witnesses.antt =====
-- The theorems over all turns, at the session of `Tests`.
use cinder_xmpp.Prelude.{
  ◌≡◌, ◌≢◌, refl, arith, codes, true, false, not, ◌&&◌, some, [], ◌∷◌, ◌++◌, map, ◌==◌, is_empty,
  if◌then◌else◌,
}
use cinder_xmpp.UnorderedMap.{find}
use cinder_xmpp.Gloox.{PresenceType, conn_no_error, conn_stream_closed, Call, null}
use cinder_xmpp.Peer
use cinder_xmpp.Peer.{
  peer_eq, peer_ne, XmppPeer, set_status, presence_to_status, status_string, status_int,
}
use cinder_xmpp.World.{World, Exception, threw, done, terminated, call}
use cinder_xmpp.World.Laws.{signals}
use cinder_xmpp.Client.Api
use cinder_xmpp.Client.Rosters.{IsRoster}
use cinder_xmpp.Listener
use cinder_xmpp.System.{deliver, Callback, Turn, start, perform_all}
use cinder_xmpp.System.Wiring.{IsWired, perform_all-IsWired}
use cinder_xmpp.System.Spec.{view, observe, spec_all, spec_turn, spec_callback}
use cinder_xmpp.System.Refinement.{perform_all-spec_all}
use cinder_xmpp.System.Orderly.Verdict.{verdict, perform_all-verdict}
use cinder_xmpp.System.Protocol.{follow, usage, perform_all-follow}
use cinder_xmpp.System.Conformance.{run_thread-follow}
use cinder_xmpp.System.Addresses.{chat_message, send_message_lem, recipient_address_lacks_server}
use cinder_xmpp.System.Sessions.{handle_sessions, disposed, filters, handle_sessions_lem}
use cinder_xmpp.System.Receiving.{Script, received, answer_of}
use cinder_xmpp.System.Threads.{
  connection_turns, connection_progress, thread_end, connect_of, run_thread_lem, disconnect_fatal,
}
use cinder_xmpp.System.Peers.{perform_all-IsRoster}
use cinder_xmpp.System.Knowledge.{touches, last_presence}
use cinder_xmpp.System.Standalone.{deliver_alone}
use cinder_xmpp.System.Connectivity.{says}
use cinder_xmpp.Tests.{
  dialled-IsWired, initial-IsWired, dialled, with_contacts, parse_jid, bob, carol, contacts,
  initial, login, chat, presence_of, play,
}

-- What is received: a login and a roster, then the end of the stream.
abbrev script : Script
script =
    (
      Turn.callback Callback.on_connect ∷ Turn.callback (Callback.handle_roster contacts) ∷ [],
      conn_no_error,
    )
    ∷ (Turn.callback (Callback.on_disconnect conn_stream_closed) ∷ [], conn_stream_closed)
    ∷ []

perform_all-spec_all_example :
    observe (perform_all parse_jid login initial) ≡ spec_all login (view initial)
perform_all-spec_all_example = perform_all-spec_all parse_jid login initial initial-IsWired

perform_all-IsWired_example : IsWired (perform_all parse_jid login initial).1
perform_all-IsWired_example = perform_all-IsWired parse_jid login initial initial-IsWired

perform_all-verdict_example :
    (perform_all parse_jid (login ++ chat) initial).0 ≡ verdict false [] (login ++ chat)
perform_all-verdict_example =
    perform_all-verdict parse_jid (login ++ chat) 1 2 (omega arith) (omega arith)

perform_all-follow_example :
    follow (usage initial) (perform_all parse_jid login initial).2
    ≡ some (usage (perform_all parse_jid login initial).1)
perform_all-follow_example = perform_all-follow parse_jid login initial initial-IsWired

run_thread-follow_example :
    let (r, w', es) =
      Api.run_thread
        (record { joinable = true; toggle = true })
        (connect_of parse_jid [] true)
        (map (answer_of parse_jid) script)
        dialled in
    follow (usage dialled) es ≡ some (usage w')
run_thread-follow_example = run_thread-follow parse_jid true [] true script dialled dialled-IsWired

run_thread_lem_example :
    let (r, w', es) =
      Api.run_thread
        (record { joinable = true; toggle = true })
        (connect_of parse_jid [] true)
        (map (answer_of parse_jid) script)
        dialled in
    let (s, v, ss) = spec_all (connection_turns [] true script) (view dialled) in
    (r ≡ thread_end (connection_progress true script) s) × (view w' ≡ v) × (signals es ≡ ss)
unfolding start Listener.new_listener
run_thread_lem_example =
    run_thread_lem parse_jid true [] true script dialled dialled-IsWired (omega arith) refl

disconnect_fatal_example :
    (Api.run_thread
      (record { joinable = true; toggle = true })
      (connect_of parse_jid [] true)
      (map (answer_of parse_jid) script)
      dialled).0
    ≡ terminated
unfolding start Listener.new_listener connection_turns received Listener.is_no_error spec_all
    spec_turn spec_callback
disconnect_fatal_example =
    disconnect_fatal parse_jid true [] true script dialled
      (Turn.callback Callback.on_connect ∷ Turn.callback (Callback.handle_roster contacts) ∷ []) []
      conn_stream_closed dialled-IsWired (omega arith) refl refl refl (ground arith)

send_message_lem_example :
    let w = (perform_all parse_jid login (start 1 2)).1 in
    Api.send_message parse_jid (codes "bob") (codes "hello") [] w ≡ (
      if w.client.listener.is_connected
        && (not (is_empty (codes "hello")) && not (w.client.listener.client == null))
      then (
        done true,
        w,
        call (
              Call.send w.client.listener.client
                (chat_message (parse_jid (codes "bob" ++ codes "@")) (codes "hello") []))
            ∷ [],
      )
      else (done false, w, []))
send_message_lem_example =
    send_message_lem parse_jid 1 2 login (omega arith) (omega arith) (codes "bob") (codes "hello")
      []

recipient_address_lacks_server_example :
    Api.recipient_address (codes "bob") (perform_all parse_jid login (start 1 2)).1.client.listener
    ≢ codes "bob" ++ (codes "@" ++ codes "home")
recipient_address_lacks_server_example =
    recipient_address_lacks_server parse_jid 1 2 login (omega arith) (omega arith) (codes "bob")
      (codes "home") (cc)

with_contacts-IsRoster : IsRoster with_contacts.client.roster
unfolding start
with_contacts-IsRoster =
    perform_all-IsRoster parse_jid login initial initial-IsWired
      (record { is_map = tt; peers = tt })

last_presence_example :
    (p : XmppPeer) × (find
        (codes "bob")
        (perform_all parse_jid
          (presence_of bob PresenceType.away ∷ presence_of carol PresenceType.xa ∷ [])
          with_contacts).1.client.roster
      ≡ some p)
    × (p.username ≡ codes "bob")
    × (p.status ≡ Peer.away)
    × (p.connected ≡ true)
unfolding play touches
last_presence_example =
    last_presence bob [] PresenceType.away [] parse_jid (presence_of carol PresenceType.xa ∷ [])
      with_contacts (perform_all-IsWired parse_jid login initial initial-IsWired)
      with_contacts-IsRoster refl (refl, tt)

handle_sessions_lem_example :
    let (r, w', es) = handle_sessions (7 ∷ 8 ∷ []) dialled in
    (r ≡ done tt)
    × (disposed es ++ w'.client.listener.session ∷ []
        ≡ dialled.client.listener.session ∷ 7 ∷ 8 ∷ [])
    × (filters es ≡ 4)
unfolding start
handle_sessions_lem_example =
    handle_sessions_lem (7 ∷ 8 ∷ []) dialled (omega arith) (omega arith, (omega arith, tt))

-- A listener on its own.
abbrev alone : World
alone = record initial { client = record initial.client { listener = Listener.new_listener null } }

deliver_alone_example :
    let (r, w', es) = deliver (Callback.on_disconnect conn_stream_closed) alone in
    (signals es ≡ [])
    × ((e : Exception) → r ≢ threw e)
    × (w'.client.roster ≡ alone.client.roster)
    × (w'.client.thread ≡ alone.client.thread)
    × (w'.client.listener.is_connected
        ≡ says
            (Turn.callback (Callback.on_disconnect conn_stream_closed))
            alone.client.listener.is_connected)
unfolding Listener.new_listener
deliver_alone_example = deliver_alone (Callback.on_disconnect conn_stream_closed) alone refl
