-- ===== src/System/Threads.antt =====
-- The thread that `connect` starts, from `openConnection` to its end.
use cinder_xmpp.Prelude.{
  not, ◌&&◌, ap, ◌≡◌, ◌≢◌, refl, ◌∙◌, ◌<◌, Bool, true, false, Str, List, [], ◌∷◌, ◌++◌, map, arith,
  ◌==◌, if◌then◌else◌, Bool-cases, inl, inr,
}
use cinder_xmpp.Gloox.{Jid, null, Call, ConnectionError, conn_no_error}
use cinder_xmpp.World.{
  World, Outcome, done, threw, undefined, terminated, Effect, call, Action, ◌>>◌, pure, no_throw,
}
use cinder_xmpp.World.Laws.{resume, signals}
use cinder_xmpp.Client.Api
use cinder_xmpp.Listener
use cinder_xmpp.Listener.{Progress, returned}
use cinder_xmpp.System.{Callback, Turn, perform_all}
use cinder_xmpp.System.Wiring.{
  IsWired, perform_all-IsWired, perform_all-client_pos, perform_all-append,
}
use cinder_xmpp.System.Spec.{view, spec_all}
use cinder_xmpp.System.Refinement.{perform_all-spec_all}
use cinder_xmpp.System.Histories.{spec_all-disconnect}
use cinder_xmpp.System.Receiving.{
  resume-pure, Script, received, progress, Follows, resume-Follows, stopped-Follows, answer_of,
  recv_loop_lem,
}

-- All that takes place on the thread, and how it ends if nothing goes wrong: `accepted` is what
-- `connect` answers, after the turns `ts`.
unfoldable pub connection_turns : List Turn → Bool → Script → List Turn
connection_turns ts accepted script = ts ++ (if accepted then received script else [])

unfoldable pub connection_progress : Bool → Script → Progress
connection_progress accepted script = if accepted then progress script else returned

-- How the thread ends.
abbrev pub thread_end : Progress → Outcome (Unit {0}) → Outcome Progress
thread_end p (done _) = done p
thread_end p (threw x) = terminated
thread_end p undefined = undefined
thread_end p terminated = terminated

-- What `connect` does before it answers.
abbrev pub connect_of : (jid_of : Str → Jid) → List Turn → Bool → Action Bool
connect_of jid_of ts accepted = do perform_all jid_of ts; pure accepted

guarded-Follows :
    (p : Progress) (r : Outcome Progress) (w : World) (es : List Effect) (s : Outcome (Unit {0}))
    (v : World) (fs : List Effect)
    → Follows p (r, w, es) (s, v, fs)
    → let (g, w', gs) = no_throw (λ _. (r, w, es)) w in
      (g ≡ thread_end p s) × (w' ≡ v) × (signals gs ≡ signals fs)
guarded-Follows p r w es (done a) v fs h = rw h.0 (refl, h.1, h.2)
guarded-Follows p r w es (threw x) v fs h = rw h.0 (refl, h.1, h.2)
guarded-Follows p r w es undefined v fs h = rw h.0 (refl, h.1, h.2)
guarded-Follows p r w es terminated v fs h = rw h.0 (refl, h.1, h.2)

module _ (jid_of : Str → Jid) (toggle : Bool) (ts : List Turn) (accepted : Bool) (script : Script)
    (w : World) where
  -- After `connect`, the loop if it was accepted.
  abbrev pub after : Bool → Action Progress
  after ok = if ok then Listener.recv_loop (map (answer_of jid_of) script) else pure returned

  after-Follows :
      IsWired w
      → 0 < w.client.listener.client
      → let (r, w', es) = perform_all jid_of ts w in
        Follows
          (connection_progress accepted script)
          (resume (r, w', es) (λ _. after accepted))
          (perform_all jid_of (connection_turns ts accepted script) w)
  unfolding connection_progress connection_turns
  after-Follows wired c =
      let (r, w', es) = perform_all jid_of ts w in
      elim (Bool-cases accepted) [
        | inl ok ↦
            rw (ok, perform_all-append jid_of ts (received script))
              (resume-Follows (progress script) (after true) (perform_all jid_of (received script))
                r w' es
                (recv_loop_lem jid_of script w' (perform_all-client_pos jid_of ts w wired c)
                  (perform_all-IsWired jid_of ts w wired)))
        | inr refused ↦
            rw (refused, perform_all-append jid_of ts [])
              (resume-Follows returned (pure returned) (perform_all jid_of []) r w' es
                (stopped-Follows jid_of w'))
      ]

  pub opened :
      0 < w.client.listener.client
      → w.client.listener.is_connected ≡ false
      → let (r, w', es) = resume (perform_all jid_of ts w) (λ _. after accepted) in
        Listener.open_connection toggle
          (connect_of jid_of ts accepted)
          (map (answer_of jid_of) script)
          w
        ≡ (r, w', call (Call.connect w.client.listener.client toggle) ∷ es)
  unfolding Listener.open_connection
  opened c down =
      let idle : (not w.client.listener.is_connected && not (w.client.listener.client == null))
          ≡ true =
        ground arith in
      let (r, w', es) = perform_all jid_of ts w in
      let e = resume-pure after accepted r w' es in
      rw idle
        (λ i. ((e i).0, (e i).1, call (Call.connect w.client.listener.client toggle) ∷ (e i).2))

  open_connection-Follows :
      IsWired w
      → 0 < w.client.listener.client
      → w.client.listener.is_connected ≡ false
      → Follows
          (connection_progress accepted script)
          (Listener.open_connection toggle
            (connect_of jid_of ts accepted)
            (map (answer_of jid_of) script)
            w)
          (perform_all jid_of (connection_turns ts accepted script) w)
  unfolding signals
  open_connection-Follows wired c down = rw (opened c down) (after-Follows wired c)

  -- From a wired client that is not connected, whatever gloox calls back and the application calls
  -- meanwhile: the thread performs the turns up to the first answer of `recv` that is an error, and
  -- ends, with its view and its signals, as the specification says of these turns; an exception ends
  -- the process.
  pub run_thread_lem :
      IsWired w
      → 0 < w.client.listener.client
      → w.client.listener.is_connected ≡ false
      → let (r, w', es) =
          Api.run_thread
            (record { joinable = true; toggle = toggle })
            (connect_of jid_of ts accepted)
            (map (answer_of jid_of) script)
            w in
        let (s, v, ss) = spec_all (connection_turns ts accepted script) (view w) in
        (r ≡ thread_end (connection_progress accepted script) s) × (view w' ≡ v) × (signals es ≡ ss)
  unfolding Api.run_thread
  run_thread_lem wired c down =
      let turns = connection_turns ts accepted script in
      let (r, w', es) =
        Listener.open_connection toggle (connect_of jid_of ts accepted)
          (map (answer_of jid_of) script) w in
      let (s, v, fs) = perform_all jid_of turns w in
      let (ends, same, heard) =
        guarded-Follows (connection_progress accepted script) r w' es s v fs
          (open_connection-Follows wired c down) in
      rw (← perform_all-spec_all jid_of turns w wired) (ends, ap view same, heard)

-- A disconnect with an error that is reported while the thread runs ends the process: `onDisconnect`
-- throws, and nothing on that thread catches.
pub disconnect_fatal :
    (jid_of : Str → Jid) (toggle : Bool) (ts : List Turn) (accepted : Bool) (script : Script)
    (w : World) (before behind : List Turn) (e : ConnectionError)
    → IsWired w
    → 0 < w.client.listener.client
    → w.client.listener.is_connected ≡ false
    → connection_turns ts accepted script
      ≡ before ++ Turn.callback (Callback.on_disconnect e) ∷ behind
    → (spec_all before (view w)).0 ≡ done tt
    → e ≢ conn_no_error
    → (Api.run_thread
        (record { joinable = true; toggle = toggle })
        (connect_of jid_of ts accepted)
        (map (answer_of jid_of) script)
        w).0
      ≡ terminated
disconnect_fatal jid_of toggle ts accepted script w before behind e wired c down here fine bad =
    let (x, thrown) = spec_all-disconnect before behind e (view w) fine bad in
    (run_thread_lem jid_of toggle ts accepted script w wired c down).0
    ∙ ap (thread_end (connection_progress accepted script))
        (ap (λ (us : List Turn). (spec_all us (view w)).0) here ∙ thrown)
