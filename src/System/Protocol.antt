-- ===== src/System/Protocol.antt =====
-- The order in which gloox is used: a monitor that reads the effects of a run, one by one, and accepts
-- a call only where gloox may be called like that. It knows nothing of the wrapper.
use cinder_xmpp.Client.Delegate
use cinder_xmpp.Prelude.{
  ◌≡◌, refl, ap, ◌∙◌, Str, is_empty, Bool, true, false, not, ◌&&◌, ◌||◌, Option, none, some, List,
  [], ◌∷◌, ◌++◌, ◌==◌, if◌then◌else◌, arith, Option-cases, inl, inr,
}
use mathlib.Core.Option.{some-injective}
use cinder_xmpp.Gloox.{Ptr, null, Call, Jid}
use cinder_xmpp.World.{World, Effect, call, Action, Outcome, done, threw, undefined, terminated}
use cinder_xmpp.World.Relations.{Sequential, Holds}
use cinder_xmpp.System.Runs.{perform_all-Holds}
use cinder_xmpp.World.Laws.{resume}
use cinder_xmpp.Client.Api
use cinder_xmpp.Listener
use cinder_xmpp.System.{Callback, deliver, Request, request, Turn, perform, perform_all}
use cinder_xmpp.System.Wiring.{IsWired, perform-IsWired}

-- What is in use: the client, which handlers it has, the session that was not given back, and the
-- last filters.
pub record Usage : Type 0 where
  pub client : Ptr
  pub presences : Bool
  pub connections : Bool
  pub sessions : Bool
  pub rosters : Bool
  pub session : Ptr
  pub event_filter : Ptr
  pub state_filter : Ptr

-- Whether every handler is registered with the client.
abbrev complete : Usage → Bool
complete u = u.presences && (u.connections && (u.sessions && u.rosters))

-- Only the client that is in use is called, if there is one.
abbrev on_client : Usage → Ptr → Usage → Option Usage
on_client u c u' = if c == null then none else if c == u.client then some u' else none

unfoldable pub allow : Usage → Effect → Option Usage
allow u (call (Call.new_client c jid password)) =
    if c == null || c == u.client
    then none
    else some (record {
      client = c;
      presences = false;
      connections = false;
      sessions = false;
      rosters = false;
      session = u.session;
      event_filter = u.event_filter;
      state_filter = u.state_filter;
    })
allow u (call (Call.register_presence_handler c)) = on_client u c (record u { presences = true })
allow u (call (Call.register_connection_listener c)) =
    on_client u c (record u { connections = true })
allow u (call (Call.register_message_session_handler c types)) =
    on_client u c (record u { sessions = true })
allow u (call (Call.register_roster_listener c)) = on_client u c (record u { rosters = true })
allow u (call (Call.set_version c name os)) = on_client u c u
allow u (call (Call.set_identity c category kind)) = on_client u c u
allow u (call (Call.add_feature_chat_states c)) = on_client u c u
allow u (call (Call.register_log_handler c level area)) = on_client u c u
allow u (call (Call.connect c blocking)) = if complete u then on_client u c u else none
allow u (call (Call.recv c)) = if complete u then on_client u c u else none
allow u (call (Call.send c msg)) =
    if not (complete u) || is_empty msg.body then none else on_client u c u
allow u (call (Call.disconnect c)) = on_client u c u
allow u (call (Call.delete_client c)) = on_client u c (record u { client = null })
allow u (call (Call.dispose_message_session c s)) =
    if s == u.session then on_client u c (record u { session = null }) else none
allow u (call (Call.register_message_handler s)) =
    if s == null then none else if u.session == null then some (record u { session = s }) else none
allow u (call (Call.new_message_event_filter f s)) =
    if f == null
    then none
    else if s == u.session
    then some (record u { event_filter = f })
    else none
allow u (call (Call.register_message_event_handler f)) =
    if f == u.event_filter then some u else none
allow u (call (Call.new_chat_state_filter f s)) =
    if f == null
    then none
    else if s == u.session
    then some (record u { state_filter = f })
    else none
allow u (call (Call.register_chat_state_handler f)) = if f == u.state_filter then some u else none
allow u (Effect.start_thread t) = if complete u then some u else none
allow u _ = some u

unfoldable pub follow : Usage → List Effect → Option Usage
follow u [] = some u
follow u (e ∷ es) = elim (allow u e) [ none ↦ none | some u' ↦ follow u' es ]

-- What the wrapper's members say is in use.
abbrev pub usage : World → Usage
usage w = record {
  client = w.client.listener.client;
  presences = not (w.client.listener.client == null);
  connections = not (w.client.listener.client == null);
  sessions = not (w.client.listener.client == null);
  rosters = not (w.client.listener.client == null);
  session = w.client.listener.session;
  event_filter = w.client.listener.message_event_filter;
  state_filter = w.client.listener.chat_state_filter;
}

module _ (jid_of : Str → Jid) {w : World} (wired : IsWired w) where
  request-follow :
      (r : Request)
      → follow (usage w) (perform jid_of (Turn.ask r) w).2
        ≡ some (usage (perform jid_of (Turn.ask r) w).1)
  unfolding perform request follow allow Api.connect Api.send_message Listener.setup
      Listener.send_message
  request-follow (Request.connect user server) = ground arith
  request-follow (Request.send_message recipient message subject) = ground arith

  callback-follow :
      (c : Callback)
      → follow (usage w) (perform jid_of (Turn.callback c) w).2
        ≡ some (usage (perform jid_of (Turn.callback c) w).1)
  unfolding perform deliver follow allow Listener.on_connect Listener.on_disconnect
      Listener.on_tls_connect Listener.handle_message Listener.handle_message_event
      Listener.handle_chat_state Listener.handle_message_session Listener.handle_roster
      Listener.handle_roster_presence Listener.handle_log Delegate.on_disconnect
      Delegate.on_tls_connect Delegate.handle_message Delegate.handle_roster
      Delegate.handle_roster_presence
  callback-follow Callback.on_connect = ground arith
  callback-follow (Callback.on_disconnect e) = ground arith
  callback-follow (Callback.on_tls_connect info) = ground arith
  callback-follow (Callback.handle_message msg none) = ground arith
  callback-follow (Callback.handle_message msg (some s)) = ground arith
  callback-follow (Callback.handle_message_session s) = ground arith
  callback-follow (Callback.handle_log l a m) = ground arith
  callback-follow (Callback.handle_roster items) = ground arith
  callback-follow (Callback.handle_roster_presence item resource presence msg) = ground arith
  callback-follow _ = refl

  perform-follow :
      (t : Turn) → follow (usage w) (perform jid_of t w).2 ≡ some (usage (perform jid_of t w).1)
  perform-follow (Turn.callback c) = callback-follow c
  perform-follow (Turn.ask r) = request-follow r

-- One list of effects after another.
pub follow-append :
    (u : Usage) (es fs : List Effect) {u' : Usage}
    → follow u es ≡ some u'
    → follow u (es ++ fs) ≡ follow u' fs
unfolding follow
follow-append u [] fs {u' = u'} h = ap (λ v. follow v fs) (some-injective u u' h)
follow-append u (e ∷ es) fs {u' = u'} h = elim (Option-cases (allow u e)) [
  | inl p ↦ ground arith
  | inr (v, p) ↦
      let h' : follow v es ≡ some u' = ground arith in ground (arith, follow-append v es fs h')
]

-- A run that goes on follows the monitor if both parts do.
pub resume-follow :
    {A : Type 0} (k : Action A) (u : Usage) (r : Outcome (Unit {0})) (w : World) (es : List Effect)
    → follow u es ≡ some (usage w)
    → follow (usage w) (k w).2 ≡ some (usage (k w).1)
    → let t = resume (r, w, es) (λ _. k) in follow u t.2 ≡ some (usage t.1)
resume-follow k u (done a) w es p q = follow-append u es (k w).2 p ∙ q
resume-follow k u (threw x) w es p q = p
resume-follow k u undefined w es p q = p
resume-follow k u terminated w es p q = p

-- What a run does to a wired client: it stays wired, and the monitor accepts the effects and agrees with
-- the members.
abbrev pub Keeping : World → World → List Effect → Type 0
Keeping w w' es = IsWired w → IsWired w' × (follow (usage w) es ≡ some (usage w'))

Keeping-both :
    (w v u : World) (es fs : List Effect) → Keeping w v es → Keeping v u fs → Keeping w u (es ++ fs)
Keeping-both w v u es fs p q h =
    let (wired, first) = p h in
    let (wired', second) = q wired in (wired', follow-append (usage w) es fs first ∙ second)

pub Keeping-Sequential : Sequential Keeping
unfolding follow
Keeping-Sequential = record { nothing = λ w h. (h, refl); both = Keeping-both }

pub perform-Keeping : (jid_of : Str → Jid) (t : Turn) → Holds Keeping (perform jid_of t)
perform-Keeping jid_of t w h = (perform-IsWired jid_of t w h, perform-follow jid_of h t)

-- The monitor accepts every effect of any turns of a wired world, whatever way they end, and what it
-- then holds to be in use is what the members say: no client is called but the one that was made
-- last, nothing is sent and no thread is started before all handlers are registered, no message is
-- sent without a text, and a session is given back before another one is taken.
pub perform_all-follow :
    (jid_of : Str → Jid) (ts : List Turn) (w : World)
    → IsWired w
    → follow (usage w) (perform_all jid_of ts w).2 ≡ some (usage (perform_all jid_of ts w).1)
perform_all-follow jid_of ts w wired =
    (perform_all-Holds Keeping Keeping-Sequential jid_of (perform-Keeping jid_of) ts w wired).1
