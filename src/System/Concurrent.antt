-- ===== src/System/Concurrent.antt =====
-- The two threads of a running application (src/XmppClient.cpp): one calls `connect` and `sendMessage`,
-- one after the other, and the listener's thread runs callbacks between their steps.
pub mod Storing
pub mod Answers
pub mod Answering
pub mod Linear
pub mod Steps
pub mod Refinement
use cinder_xmpp.Prelude.{
  ◌≡◌, Str, is_empty, Bool, true, false, not, ◌||◌, Option, some, List, [], ◌∷◌, ◌++◌, map, ◌==◌, ℕ,
}
use cinder_xmpp.Gloox.{Jid, null}
use cinder_xmpp.World.{
  World, Effect, start_thread, Thread, Action, ◌>>=◌, ◌>>◌, pure, done, gets, emit, modify_client,
  release_thread,
}
use cinder_xmpp.Listener
use cinder_xmpp.System.{Callback, deliver, Request, Turn, perform_all}
use cinder_xmpp.System.Interleaving.{addressing, answered, Reach}
use cinder_xmpp.System.Interleaving.Point.{heard}

-- `connect` up to the start of the new thread, which then runs while the rest is done.
unfoldable pub dial : (jid_of : Str → Jid) → Str → Str → Action Thread
dial jid_of xmpp_user xmpp_server = do
  Listener.setup jid_of xmpp_user xmpp_server false
  self ← gets (λ w. w.self)
  let thread : Thread = record { joinable = true; toggle = not (self == null) }
  emit (start_thread thread)
  pure thread

-- The assignment to `mListenerThread`, and the answer.
unfoldable pub store : Thread → Action Bool
store thread = do
  old ← gets (λ w. w.client.thread)
  modify_client (λ c. record c { thread = some thread })
  release_thread old
  pure true

module _ (jid_of : Str → Jid) where
  -- What both threads reach: the calls that have ended with their answers, the callbacks that were
  -- made, the members, and the effects of both threads as they came.
  pub data Reaches (w : World)
      : List (Request × Bool) → List Callback → World → List Effect → Type 0 where
    idle : Reaches w [] [] w []
    told :
        {rs : List (Request × Bool)} {cs : List Callback} {w' : World} {es : List Effect}
        (c : Callback) {b : Option Bool}
        → Reaches w rs cs w' es
        → (deliver c w').0 ≡ done b
        → Reaches w rs (cs ++ c ∷ []) (deliver c w').1 (es ++ (deliver c w').2)
    messaged :
        {rs : List (Request × Bool)} {cs : List Callback} {w' : World} {es : List Effect}
        (recipient message subject : Str) {n : ℕ} {b : Bool} {w'' : World} {fs : List Effect}
        → Reaches w rs cs w' es
        → (r : Reach jid_of recipient message subject addressing w' n (answered b) w'' fs)
        → Reaches w
            (rs ++ (Request.send_message recipient message subject, b) ∷ [])
            (cs ++ heard jid_of recipient message subject w' r)
            w''
            (es ++ fs)
    refused :
        {rs : List (Request × Bool)} {cs : List Callback} {w' : World} {es : List Effect}
        (user server : Str)
        → Reaches w rs cs w' es
        → (is_empty user || is_empty server) ≡ true
        → Reaches w (rs ++ (Request.connect user server, false) ∷ []) cs w' es
    connected :
        {rs : List (Request × Bool)} {cs : List Callback} {w' : World} {es : List Effect}
        (user server : Str) (meanwhile : List Callback) {b : Bool} {t : Thread} {v v' w'' : World}
        {fs gs hs : List Effect}
        → Reaches w rs cs w' es
        → (is_empty user || is_empty server) ≡ false
        → dial jid_of user server w' ≡ (done t, v, fs)
        → perform_all jid_of (map Turn.callback meanwhile) v ≡ (done tt, v', gs)
        → store t v' ≡ (done b, w'', hs)
        → Reaches w
            (rs ++ (Request.connect user server, b) ∷ [])
            (cs ++ meanwhile)
            w''
            (es ++ (fs ++ (gs ++ hs)))
