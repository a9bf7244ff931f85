-- ===== src/System/Returning.antt =====
-- src/XmppListener.cpp, `openConnection`: when the loop around `recv` ends.
use cinder_xmpp.Prelude.{
  ap, ◌≡◌, refl, ◌∙◌, sym, ◌<◌, Bool, true, false, not, ◌&&◌, ◌||◌, Str, List, [], ◌∷◌, map, arith,
  if◌then◌else◌,
}
use cinder_xmpp.Gloox.{Jid}
use cinder_xmpp.World.{World, done}
use cinder_xmpp.Client.Api
use cinder_xmpp.Listener.{is_no_error, returned, receiving}
use cinder_xmpp.System.{Turn, perform_all}
use cinder_xmpp.System.Wiring.{IsWired}
use cinder_xmpp.System.Spec.{Observed, view, spec_all}
use cinder_xmpp.System.Refinement.{perform_all-spec_all}
use cinder_xmpp.System.Receiving.{Script, progress, answer_of}
use cinder_xmpp.System.Threads.{
  connection_turns, connection_progress, thread_end, connect_of, run_thread_lem,
}

-- Whether some answer is an error.
unfoldable pub has_error : Script → Bool
has_error [] = false
has_error ((ts, ce) ∷ script) = not (is_no_error ce) || has_error script

progress-has_error :
    (script : Script) → progress script ≡ (if has_error script then returned else receiving)
unfolding progress has_error
progress-has_error [] = refl
progress-has_error ((ts, ce) ∷ script) = ground (arith, progress-has_error script)

connection_progress-has_error :
    (accepted : Bool) (script : Script)
    → connection_progress accepted script
      ≡ (if accepted && not (has_error script) then receiving else returned)
unfolding connection_progress
connection_progress-has_error accepted script = ground (arith, progress-has_error script)

module _ (jid_of : Str → Jid) (toggle : Bool) (ts : List Turn) (accepted : Bool) (script : Script)
    (w : World) where
  -- If all that takes place on the thread ends well, `openConnection` returns as soon as `connect`
  -- refuses or one answer of `recv` is an error, and is still in `recv` while it was accepted and all
  -- answers are without error: a connection is left in no other way.
  pub run_thread_returns :
      IsWired w
      → 0 < w.client.listener.client
      → w.client.listener.is_connected ≡ false
      → (perform_all jid_of (connection_turns ts accepted script) w).0 ≡ done tt
      → (Api.run_thread
          (record { joinable = true; toggle = toggle })
          (connect_of jid_of ts accepted)
          (map (answer_of jid_of) script)
          w).0
        ≡ done (if accepted && not (has_error script) then receiving else returned)
  run_thread_returns wired c down well =
      let turns = connection_turns ts accepted script in
      let spec_well : (spec_all turns (view w)).0 ≡ done tt =
        sym (ap (λ (o : Observed). o.0) (perform_all-spec_all jid_of turns w wired)) ∙ well in
      (run_thread_lem jid_of toggle ts accepted script w wired c down).0
      ∙ ap (thread_end (connection_progress accepted script)) spec_well
      ∙ ap done (connection_progress-has_error accepted script)
