-- ===== src/System/Lifetimes.antt =====
-- How many gloox clients an `XmppClient` makes, and what becomes of them.
use cinder_xmpp.Client.Delegate
use cinder_xmpp.Prelude.{
  ℕ, ap, ◌∙◌, ◌+◌, ◌≤◌, ◌<◌, ◌≡◌, Str, is_empty, Bool, true, false, not, ◌||◌, none, some,
  Option-cases, inl, inr, append-nil, is_some, ◌==◌, List, [], ◌∷◌, ◌++◌, arith, if◌then◌else◌,
}
use cinder_xmpp.Gloox.{Jid, Ptr, null, Call}
use cinder_xmpp.World.{
  World, Effect, call, done, threw, undefined, terminated, Outcome, Action, ◌>>◌,
}
use cinder_xmpp.World.Laws.{Run, resume}
use cinder_xmpp.Client.Api
use cinder_xmpp.Client.Lifetime.{construct_lem}
use cinder_xmpp.Listener
use cinder_xmpp.System.{Callback, deliver, Request, request, Turn, perform, perform_all, start}
use cinder_xmpp.System.Wiring.{
  IsWired, perform-IsWired, start-IsWired, perform_all-IsWired, deliver-SameWires,
}

-- The clients that are made, and those that are told to disconnect or are deleted.
unfoldable pub made : List Effect → ℕ
made [] = 0
made (call (Call.new_client c jid password) ∷ es) = made es + 1
made (_ ∷ es) = made es

unfoldable pub released : List Effect → ℕ
released [] = 0
released (call (Call.disconnect c) ∷ es) = released es + 1
released (call (Call.delete_client c) ∷ es) = released es + 1
released (_ ∷ es) = released es

-- Whether a turn is a `connect` that is not refused.
abbrev pub connects : Turn → Bool
connects (Turn.ask (Request.connect user server)) = not (is_empty user || is_empty server)
connects _ = false

module _ (jid_of : Str → Jid) {w : World} (wired : IsWired w) where
  perform-counts :
      (t : Turn)
      → (made (perform jid_of t w).2 ≡ (if connects t then 1 else 0))
        × (released (perform jid_of t w).2 ≡ 0)
  unfolding perform deliver request made released Api.connect Api.send_message Listener.setup
      Listener.send_message Listener.on_connect Listener.on_disconnect Listener.on_tls_connect
      Listener.handle_message Listener.handle_message_event Listener.handle_chat_state
      Listener.handle_message_session Listener.handle_roster Listener.handle_roster_presence
      Listener.handle_log Delegate.on_disconnect Delegate.on_tls_connect Delegate.handle_message
      Delegate.handle_roster Delegate.handle_roster_presence
  perform-counts (Turn.callback (Callback.handle_message msg none)) = ground arith
  perform-counts (Turn.callback (Callback.handle_message msg (some s))) = ground arith
  perform-counts (Turn.callback Callback.on_connect) = ground arith
  perform-counts (Turn.callback c) = ground arith
  perform-counts (Turn.ask (Request.connect user server)) = ground arith
  perform-counts (Turn.ask (Request.send_message recipient message subject)) = ground arith

pub made-append : (es fs : List Effect) → made (es ++ fs) ≡ made es + made fs
unfolding made
made-append [] fs = omega arith
made-append (call (Call.new_client c jid password) ∷ es) fs = omega (arith, made-append es fs)
made-append (Effect.call c ∷ es) fs = made-append es fs
made-append (_ ∷ es) fs = made-append es fs

released-append : (es fs : List Effect) → released (es ++ fs) ≡ released es + released fs
unfolding released
released-append [] fs = omega arith
released-append (call (Call.disconnect c) ∷ es) fs = omega (arith, released-append es fs)
released-append (call (Call.delete_client c) ∷ es) fs = omega (arith, released-append es fs)
released-append (Effect.call c ∷ es) fs = released-append es fs
released-append (_ ∷ es) fs = released-append es fs

abbrev pub is_done : {A : Type 0} → Outcome A → Bool
is_done (done a) = true
is_done _ = false

-- How many clients there are, after runs that ended well.
abbrev pub clients : World → ℕ
clients w = if w.client.listener.client == null then 0 else 1

-- There is a thread exactly if there is a client.
abbrev IsPaired : World → Type 0
IsPaired w = is_some w.client.thread ≡ not (w.client.listener.client == null)

-- A run that makes a second client does not end well.
abbrev Counted : World → Run (Unit {0}) → Type 0
Counted w (r, w', es) =
    (made es + clients w ≤ 2)
    × ((if is_done r then made es + clients w else clients w') ≡ clients w')
    × (released es ≡ 0)
    × IsPaired w'

module _ (jid_of : Str → Jid) where
  perform-Counted : (t : Turn) (w : World) → IsWired w → IsPaired w → Counted w (perform jid_of t w)
  unfolding perform request Api.connect Api.send_message Listener.setup Listener.send_message made
      released
  perform-Counted (Turn.callback c) w wired paired =
      ground (arith, deliver-SameWires c w, perform-counts jid_of wired (Turn.callback c))
  perform-Counted (Turn.ask (Request.connect user server)) w wired paired = ground arith
  perform-Counted (Turn.ask (Request.send_message recipient message subject)) w wired paired =
      ground arith

  resume-Counted :
      (k : Action (Unit {0})) (r : Outcome (Unit {0})) (w w' : World) (es : List Effect)
      → Counted w (r, w', es)
      → Counted w' (k w')
      → Counted w (resume (r, w', es) (λ _. k))
  resume-Counted k (done a) w w' es p q =
      ground (arith, made-append es (k w').2, released-append es (k w').2)
  resume-Counted k (threw x) w w' es p q = p
  resume-Counted k undefined w w' es p q = p
  resume-Counted k terminated w w' es p q = p

  perform_all-Counted :
      (ts : List Turn) (w : World) → IsWired w → IsPaired w → Counted w (perform_all jid_of ts w)
  unfolding perform_all made released
  perform_all-Counted [] w wired paired = ground arith
  perform_all-Counted (t ∷ ts) w wired paired =
      let (r, w', es) = perform jid_of t w in
      let p = perform-Counted t w wired paired in
      resume-Counted (perform_all jid_of ts) r w w' es p
        (perform_all-Counted ts w' (perform-IsWired jid_of t w wired) (p.3))

-- A destructor that finds a client also finds a joinable thread, and gets no further.
destroy-effects :
    (disconnecting : Action (Unit {0})) (w : World)
    → IsWired w
    → IsPaired w
    → (Api.destroy disconnecting w).2 ≡ []
unfolding Api.destroy Listener.destroy
destroy-effects disconnecting w wired paired = elim (Option-cases w.client.thread) [
  | inl e ↦ ground arith
  | inr (t, e) ↦ ground arith
]

released-resume :
    (k : Action (Unit {0})) (r : Outcome (Unit {0})) (w : World) (es : List Effect)
    → released es ≡ 0
    → (k w).2 ≡ []
    → released (resume (r, w, es) (λ _. k)).2 ≡ 0
unfolding released
released-resume k (done a) w es p q = rw q (ground (arith, append-nil es))
released-resume k (threw x) w es p q = p
released-resume k undefined w es p q = p
released-resume k terminated w es p q = p

module _ (jid_of : Str → Jid) (ts : List Turn) (self fresh : Ptr) (self_pos : 0 < self)
    (fresh_pos : 0 < fresh) where
  started : Counted (start self fresh) (perform_all jid_of ts (start self fresh))
  unfolding start Listener.new_listener
  started =
      perform_all-Counted jid_of ts (start self fresh) (start-IsWired self fresh self_pos fresh_pos)
        (ground arith)

  -- Any turns of a new `XmppClient` make two gloox clients at most. If the turns end well, it is one or
  -- none, and the pointer to it is the listener's: none is lost.
  pub perform_all-made :
      let (r, w', es) = perform_all jid_of ts (start self fresh) in
      (made es ≤ 2) × ((if is_done r then made es else clients w') ≡ clients w')
  unfolding start Listener.new_listener
  perform_all-made = ground (arith, started)

  -- In any turns and then its destruction an `XmppClient` tells no gloox client to disconnect and deletes
  -- none, whatever `disconnecting` a disconnect would cause.
  destroy-released :
      (disconnecting : Action (Unit {0}))
      → released ((perform_all jid_of ts >> Api.destroy disconnecting) (start self fresh)).2 ≡ 0
  destroy-released disconnecting =
      let (r, w', es) = perform_all jid_of ts (start self fresh) in
      released-resume (Api.destroy disconnecting) r w' es started.2 (
        destroy-effects disconnecting w'
          (perform_all-IsWired jid_of ts (start self fresh)
            (start-IsWired self fresh self_pos fresh_pos))
          started.3)

-- In its whole life, its construction, any turns and its destruction, an `XmppClient` tells no gloox
-- client to disconnect and deletes none, whatever was in its place before, and whatever a disconnect
-- would cause.
pub life-released :
    (jid_of : Str → Jid) (ts : List Turn) (copying disconnecting : Action (Unit {0})) (w : World)
    → 0 < w.self
    → 0 < w.fresh
    → let life = Api.construct copying >> (perform_all jid_of ts >> Api.destroy disconnecting) in
      released (life w).2 ≡ 0
unfolding start
life-released jid_of ts copying disconnecting w self_pos fresh_pos =
    let rest = perform_all jid_of ts >> Api.destroy disconnecting in
    ap (λ (t : Run (Unit {0})). released (resume t (λ _. rest)).2) (construct_lem copying w)
    ∙ destroy-released jid_of ts w.self w.fresh self_pos fresh_pos disconnecting
