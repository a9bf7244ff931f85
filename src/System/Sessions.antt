-- ===== src/System/Sessions.antt =====
-- src/XmppListener.cpp, `handleMessageSession`: which sessions are given back to gloox.
use cinder_xmpp.Prelude.{ap, ◌≡◌, refl, ◌<◌, ◌+◌, ℕ, List, [], ◌∷◌, ◌++◌, arith, length, All}
use cinder_xmpp.Gloox.{Ptr, Call}
use cinder_xmpp.World.{World, done, Effect, call, Action, ◌>>◌, pure}
use cinder_xmpp.World.Laws.{>>=-done}
use cinder_xmpp.Listener

-- One session after the other.
pub handle_sessions : List Ptr → Action (Unit {0})
handle_sessions [] = pure tt
handle_sessions (s ∷ ss) = do Listener.handle_message_session s; handle_sessions ss

-- The sessions that gloox is told to dispose of, in order.
unfoldable pub disposed : List Effect → List Ptr
disposed [] = []
disposed (call (Call.dispose_message_session c s) ∷ es) = s ∷ disposed es
disposed (_ ∷ es) = disposed es

-- How many filters are made.
unfoldable pub filters : List Effect → ℕ
filters [] = 0
filters (call (Call.new_message_event_filter f s) ∷ es) = filters es + 1
filters (call (Call.new_chat_state_filter f s) ∷ es) = filters es + 1
filters (_ ∷ es) = filters es

-- The world after one session.
abbrev with_session : Ptr → World → World
with_session s w = record w {
  fresh = w.fresh + 1 + 1;
  client = record w.client {
    listener = record w.client.listener {
      session = s;
      message_event_filter = w.fresh;
      chat_state_filter = w.fresh + 1;
    };
  };
}

session_effects : Ptr → World → List Effect
session_effects s w =
    call (Call.dispose_message_session w.client.listener.client w.client.listener.session)
    ∷ call (Call.register_message_handler s)
    ∷ call (Call.new_message_event_filter w.fresh s)
    ∷ call (Call.register_message_event_handler w.fresh)
    ∷ call (Call.new_chat_state_filter (w.fresh + 1) s)
    ∷ call (Call.register_chat_state_handler (w.fresh + 1))
    ∷ []

handle_message_session_lem :
    (s : Ptr) (w : World)
    → 0 < w.client.listener.client
    → 0 < s
    → Listener.handle_message_session s w ≡ (done tt, with_session s w, session_effects s w)
unfolding Listener.handle_message_session session_effects
handle_message_session_lem s w c h = ground arith

handle_sessions-cons :
    (s : Ptr) (ss : List Ptr) (w : World)
    → 0 < w.client.listener.client
    → 0 < s
    → let (r, w', es) = handle_sessions ss (with_session s w) in
      handle_sessions (s ∷ ss) w ≡ (r, w', session_effects s w ++ es)
unfolding handle_sessions
handle_sessions-cons s ss w c h =
    >>=-done (Listener.handle_message_session s) (λ _. handle_sessions ss) w
      (handle_message_session_lem s w c h)

-- With a client, and for sessions that are not null, the handler always returns. Each session that
-- it held or was given is disposed of once, in order, but for the last, which it holds; and two
-- filters are made for each.
pub handle_sessions_lem :
    (ss : List Ptr) (w : World)
    → 0 < w.client.listener.client
    → All (λ s. 0 < s) ss
    → let (r, w', es) = handle_sessions ss w in
      (r ≡ done tt)
      × (disposed es ++ w'.client.listener.session ∷ [] ≡ w.client.listener.session ∷ ss)
      × (filters es ≡ length ss + length ss)
unfolding disposed filters session_effects
handle_sessions_lem [] w c h = unfold handle_sessions in (refl, refl, omega arith)
handle_sessions_lem (s ∷ ss) w c h =
    let rest = handle_sessions_lem ss (with_session s w) c h.1 in
    rw (handle_sessions-cons s ss w c h.0)
      (rest.0, ap (◌∷◌ w.client.listener.session) rest.1, omega (arith, rest.2))
