-- ===== src/System/Conformance.antt =====
-- The thread that `connect` starts uses gloox in the order that `System.Protocol` asks for.
use cinder_xmpp.Prelude.{
  not, ◌&&◌, ◌≡◌, refl, ◌∙◌, ◌<◌, Bool, true, false, Str, List, [], ◌∷◌, map, arith, some, ◌==◌,
  if◌then◌else◌, Bool-cases, inl, inr,
}
use cinder_xmpp.Gloox.{Jid, null, Call}
use cinder_xmpp.World.{
  World, Outcome, done, threw, undefined, terminated, Effect, call, Action, pure, no_throw,
}
use cinder_xmpp.World.Laws.{resume}
use cinder_xmpp.Client.Api
use cinder_xmpp.Listener
use cinder_xmpp.Listener.{Progress, returned, is_no_error}
use cinder_xmpp.System.{Turn, perform_all}
use cinder_xmpp.System.Wiring.{IsWired, perform_all-IsWired, perform_all-client_pos}
use cinder_xmpp.System.Protocol.{allow, follow, usage, resume-follow, perform_all-follow}
use cinder_xmpp.System.Receiving.{Script, answer_of, round, loop-cons}
use cinder_xmpp.System.Threads.{connect_of, after, opened}

module _ (w : World) (c : 0 < w.client.listener.client) (es : List Effect) where
  recv-follow :
      follow (usage w) (call (Call.recv w.client.listener.client) ∷ es) ≡ follow (usage w) es
  unfolding follow allow
  recv-follow = ground arith

  connect-follow :
      (toggle : Bool)
      → follow (usage w) (call (Call.connect w.client.listener.client toggle) ∷ es)
        ≡ follow (usage w) es
  unfolding follow allow
  connect-follow toggle = ground arith

-- Either way of a test.
if-follow :
    (b : Bool) (k l : Action Progress) (w : World)
    → follow (usage w) (k w).2 ≡ some (usage (k w).1)
    → follow (usage w) (l w).2 ≡ some (usage (l w).1)
    → let (r, w', es) = (if b then k else l) w in follow (usage w) es ≡ some (usage w')
if-follow true k l w p q = p
if-follow false k l w p q = q

pure-follow : (p : Progress) (w : World) → follow (usage w) (pure p w).2 ≡ some (usage (pure p w).1)
unfolding follow
pure-follow p w = refl

no_throw-follow :
    (r : Outcome Progress) (w' : World) (es : List Effect) (w : World)
    → follow (usage w) es ≡ some (usage w')
    → let (s, v, fs) = no_throw (λ _. (r, w', es)) w in follow (usage w) fs ≡ some (usage v)
no_throw-follow (done a) w' es w h = h
no_throw-follow (threw x) w' es w h = h
no_throw-follow undefined w' es w h = h
no_throw-follow terminated w' es w h = h

module _ (jid_of : Str → Jid) where
  waiting-follow :
      (w : World)
      → 0 < w.client.listener.client
      → let (r, w', es) = Listener.recv_loop [] w in follow (usage w) es ≡ some (usage w')
  unfolding Listener.recv_loop follow allow
  waiting-follow w c = ground arith

  recv_loop-follow :
      (script : Script) (w : World)
      → IsWired w
      → 0 < w.client.listener.client
      → let (r, w', es) = Listener.recv_loop (map (answer_of jid_of) script) w in
        follow (usage w) es ≡ some (usage w')
  recv_loop-follow [] w wired c = waiting-follow w c
  recv_loop-follow ((ts, ce) ∷ script) w wired c =
      let (r, w', es) = perform_all jid_of ts w in
      let answers = map (answer_of jid_of) script in
      let rest =
        recv_loop-follow script w' (perform_all-IsWired jid_of ts w wired)
          (perform_all-client_pos jid_of ts w wired c) in
      rw (loop-cons jid_of ts ce answers w c) (
        recv-follow w c (round jid_of ts ce answers w).2
        ∙ resume-follow (if is_no_error ce then Listener.recv_loop answers else pure returned)
            (usage w) r w' es (perform_all-follow jid_of ts w wired)
            (if-follow (is_no_error ce) (Listener.recv_loop answers) (pure returned) w' rest
              (pure-follow returned w')))

  module _ (toggle : Bool) (ts : List Turn) (accepted : Bool) (script : Script) (w : World) where
    opened-follow :
        IsWired w
        → 0 < w.client.listener.client
        → w.client.listener.is_connected ≡ false
        → let (r, w', es) =
            Listener.open_connection toggle
              (connect_of jid_of ts accepted)
              (map (answer_of jid_of) script)
              w in
          follow (usage w) es ≡ some (usage w')
    opened-follow wired c down =
        let (r, w', es) = perform_all jid_of ts w in
        let answers = map (answer_of jid_of) script in
        let rest =
          recv_loop-follow script w' (perform_all-IsWired jid_of ts w wired)
            (perform_all-client_pos jid_of ts w wired c) in
        let go : Action Progress = after jid_of toggle ts accepted script w accepted in
        rw (opened jid_of toggle ts accepted script w c down) (
          connect-follow w c (resume (r, w', es) (λ _. go)).2 toggle
          ∙ resume-follow go (usage w) r w' es (perform_all-follow jid_of ts w wired) (
              if-follow accepted (Listener.recv_loop answers) (pure returned) w' rest
                (pure-follow returned w')))

    open_connection-follow :
        IsWired w
        → let (r, w', es) =
            Listener.open_connection toggle
              (connect_of jid_of ts accepted)
              (map (answer_of jid_of) script)
              w in
          follow (usage w) es ≡ some (usage w')
    open_connection-follow wired =
        elim (Bool-cases
          (not w.client.listener.is_connected && not (w.client.listener.client == null))) [
            | inl idle ↦ opened-follow wired (ground arith) (ground arith)
            | inr busy ↦ unfold Listener.open_connection in rw busy (pure-follow returned w)
          ]

    -- From a wired client, whatever gloox calls back and the application calls during `connect` and
    -- during each `recv`: the monitor accepts all that the thread does, and what it then holds to be
    -- in use is what the members say. So the thread connects and receives only with the client that
    -- was made last, with all handlers registered.
    pub run_thread-follow :
        IsWired w
        → let (r, w', es) =
            Api.run_thread
              (record { joinable = true; toggle = toggle })
              (connect_of jid_of ts accepted)
              (map (answer_of jid_of) script)
              w in
          follow (usage w) es ≡ some (usage w')
    unfolding Api.run_thread
    run_thread-follow wired =
        let (r, w', es) =
          Listener.open_connection toggle (connect_of jid_of ts accepted)
            (map (answer_of jid_of) script) w in
        no_throw-follow r w' es w (open_connection-follow wired)
