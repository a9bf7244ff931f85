-- ===== src/System/Overriding/Turns.antt =====
-- What turns do to a client of a subclass, with slots that make calls: any relation of runs that the
-- parts have.
use cinder_xmpp.Prelude.{Str, Bool, true, false, some, List, [], ◌∷◌, map}
use cinder_xmpp.Gloox.{Jid}
use cinder_xmpp.World.{World, Effect, Signal, Action, ◌>>=◌, ◌>>◌, pure, modify_listener}
use cinder_xmpp.Client.Api
use cinder_xmpp.Listener.{set_connected, with_connected}
use cinder_xmpp.System.{Callback, deliver, Request, request, Turn, perform, perform_all}
use cinder_xmpp.System.Slots.{replying}
use cinder_xmpp.System.Overriding.{
  Handling, Overriding, execute, dispatch, deliver_to, perform_in, perform_all_in,
}
use cinder_xmpp.World.Relations.{Holds, dropped, >>=-Holds}
use cinder_xmpp.System.Overriding.Laws.{Composes, to_delegate-Holds, execute-Holds}

module _ (R : World → World → List Effect → Type 0) (laws : Composes R) (jid_of : Str → Jid)
    (replies : Signal → Bool → List Request)
    (asks : (r : Request) → Holds R (perform jid_of (Turn.ask r))) where
  request-Holds : (r : Request) → Holds R (request jid_of r)
  unfolding perform
  request-Holds r w = let (a, v, es) = request jid_of r w in dropped R w a v es (asks r w)

  all_asks-Holds : (rs : List Request) → Holds R (perform_all jid_of (map Turn.ask rs))
  unfolding perform_all
  all_asks-Holds [] = laws.runs.nothing
  all_asks-Holds (r ∷ rs) =
      >>=-Holds R laws.runs (perform jid_of (Turn.ask r))
        (λ _. perform_all jid_of (map Turn.ask rs)) (asks r) (λ _. all_asks-Holds rs)

  pub dispatch-Holds :
      (o : Overriding) (h : Handling) → Holds R (dispatch jid_of (replying jid_of replies) o h)
  dispatch-Holds o h = to_delegate-Holds R laws (execute jid_of (replying jid_of replies) (o h)) (
      execute-Holds R laws (replying jid_of replies)
        (λ s w. all_asks-Holds (replies s (Api.is_connected w)) w) jid_of request-Holds (o h))

module _ (R : World → World → List Effect → Type 0) (laws : Composes R) (jid_of : Str → Jid)
    (replies : Signal → Bool → List Request) (performs : (t : Turn) → Holds R (perform jid_of t))
    (flagged : (b : Bool) (w : World) → R w (with_connected b w) []) where
  dispatched :
      (o : Overriding) (h : Handling) → Holds R (dispatch jid_of (replying jid_of replies) o h)
  dispatched = dispatch-Holds R laws jid_of replies (λ r. performs (Turn.ask r))

  others : (c : Callback) → Holds R (deliver c)
  unfolding perform
  others c w = let (a, v, es) = deliver c w in dropped R w a v es (performs (Turn.callback c) w)

  flagged-Holds :
      (b : Bool) (o : Overriding) (h : Handling)
      → Holds R (modify_listener (set_connected b) >> dispatch jid_of (replying jid_of replies) o h)
  flagged-Holds b o h =
      >>=-Holds R laws.runs (modify_listener (set_connected b))
        (λ _. dispatch jid_of (replying jid_of replies) o h) (flagged b) (λ _. dispatched o h)

  then_pure-Holds :
      {A B : Type 0} (m : Action A) (f : A → B) → Holds R m → Holds R (m >>= λ a. pure (f a))
  then_pure-Holds m f h = >>=-Holds R laws.runs m (λ a. pure (f a)) h (λ _. laws.runs.nothing)

  deliver_to-Holds :
      (o : Overriding) (c : Callback) → Holds R (deliver_to jid_of (replying jid_of replies) o c)
  unfolding deliver_to
  deliver_to-Holds o Callback.on_connect =
      then_pure-Holds _ _ (flagged-Holds true o Handling.on_connect)
  deliver_to-Holds o (Callback.on_disconnect e) =
      then_pure-Holds _ _ (flagged-Holds false o (Handling.on_disconnect e))
  deliver_to-Holds o (Callback.on_tls_connect info) =
      let handled = dispatch jid_of (replying jid_of replies) o (Handling.on_tls_connect info) in
      let told : Action Bool = modify_listener (set_connected true) >> (handled >> pure true) in
      then_pure-Holds told some (
        >>=-Holds R laws.runs (modify_listener (set_connected true)) (λ _. handled >> pure true)
          (flagged true)
          (λ _. then_pure-Holds handled (λ _. true) (dispatched o (Handling.on_tls_connect info))))
  deliver_to-Holds o (Callback.handle_message msg sess) =
      then_pure-Holds _ _ (dispatched o (Handling.handle_message msg sess))
  deliver_to-Holds o (Callback.handle_roster items) =
      then_pure-Holds _ _ (dispatched o (Handling.handle_roster items))
  deliver_to-Holds o (Callback.handle_roster_presence item resource presence msg) =
      then_pure-Holds _ _
        (dispatched o (Handling.handle_roster_presence item resource presence msg))
  deliver_to-Holds o c = others c

  pub perform_in-Holds :
      (t : Overriding × Turn) → Holds R (perform_in jid_of (replying jid_of replies) t)
  unfolding perform_in
  perform_in-Holds (o, Turn.callback c) =
      then_pure-Holds (deliver_to jid_of (replying jid_of replies) o c) _ (deliver_to-Holds o c)
  perform_in-Holds (o, Turn.ask r) = performs (Turn.ask r)

  pub perform_all_in-Holds :
      (ts : List (Overriding × Turn)) → Holds R (perform_all_in jid_of (replying jid_of replies) ts)
  unfolding perform_all_in
  perform_all_in-Holds [] = laws.runs.nothing
  perform_all_in-Holds (t ∷ ts) =
      >>=-Holds R laws.runs (perform_in jid_of (replying jid_of replies) t)
        (λ _. perform_all_in jid_of (replying jid_of replies) ts) (perform_in-Holds t)
        (λ _. perform_all_in-Holds ts)
