-- ===== src/System/Concurrent/Steps/Coarsely.antt =====
-- The same with callbacks whole: how far the application's thread is, as whole calls and one under way.
use cinder_xmpp.Prelude.{ℕ, ◌≡◌, ◌∙◌, Str, is_empty, Bool, false, ◌||◌, List, ◌++◌, map}
use cinder_xmpp.Gloox.{Jid}
use cinder_xmpp.World.{World, Effect, Thread, done}
use cinder_xmpp.System.{Callback, Request, Turn, perform_all}
use cinder_xmpp.System.Interleaving.{Sending, addressing, Reach}
use cinder_xmpp.System.Interleaving.Sent.{sent, sent-append}
use cinder_xmpp.System.Interleaving.Quiet.{unsent, unsent-append}
use cinder_xmpp.System.Interleaving.Point.{heard}
use cinder_xmpp.System.Concurrent.{dial, Reaches}
use cinder_xmpp.System.Concurrent.Steps.{Task}

-- The same messages, and the same other effects.
abbrev pub Same : List Effect → List Effect → Type 0
Same es fs = (sent es ≡ sent fs) × (unsent es ≡ unsent fs)

pub Same-append : (es fs gs : List Effect) → Same es fs → Same (es ++ gs) (fs ++ gs)
Same-append es fs gs p = (simp (sent-append, p.0), simp (unsent-append, p.1))

module _ (jid_of : Str → Jid) (w : World) where
  pub record AtRest (rs : List (Request × Bool)) (cs : List Callback) (w' : World)
      (es : List Effect) : Type 0 where
    pub effects : List Effect
    pub run : Reaches jid_of w rs cs w' effects
    pub same : Same effects es

  pub record AtSending (rs : List (Request × Bool)) (cs : List Callback)
      (recipient message subject : Str) (s : Sending) (w' : World) (es : List Effect) : Type 0 where
    pub earlier : List Callback
    pub mid : World
    pub effects : List Effect
    pub before : Reaches jid_of w rs earlier mid effects
    pub count : ℕ
    pub fs : List Effect
    pub run : Reach jid_of recipient message subject addressing mid count s w' fs
    pub cut : earlier ++ heard jid_of recipient message subject mid run ≡ cs
    pub same : Same (effects ++ fs) es

  pub record AtStoring (rs : List (Request × Bool)) (cs : List Callback) (user server : Str)
      (t : Thread) (w' : World) (es : List Effect) : Type 0 where
    pub earlier : List Callback
    pub mid : World
    pub effects : List Effect
    pub before : Reaches jid_of w rs earlier mid effects
    pub given : (is_empty user || is_empty server) ≡ false
    pub v : World
    pub fs : List Effect
    pub dialled : dial jid_of user server mid ≡ (done t, v, fs)
    pub meanwhile : List Callback
    pub gs : List Effect
    pub ran : perform_all jid_of (map Turn.callback meanwhile) v ≡ (done tt, w', gs)
    pub cut : earlier ++ meanwhile ≡ cs
    pub same : Same (effects ++ (fs ++ gs)) es

  abbrev pub Coarse : List (Request × Bool) → List Callback → Task → World → List Effect → Type 0
  Coarse rs cs Task.idle w' es = AtRest rs cs w' es
  Coarse rs cs (Task.sending recipient message subject s) w' es =
      AtSending rs cs recipient message subject s w' es
  Coarse rs cs (Task.storing user server t) w' es = AtStoring rs cs user server t w' es

  pub Coarse-same :
      (rs : List (Request × Bool)) (cs : List Callback) (w' : World) (es gs : List Effect)
      (k : Task)
      → Same es gs
      → Coarse rs cs k w' es
      → Coarse rs cs k w' gs
  Coarse-same rs cs w' es gs Task.idle q p = record {
    effects = p.effects;
    run = p.run;
    same = (p.same.0 ∙ q.0, p.same.1 ∙ q.1);
  }
  Coarse-same rs cs w' es gs (Task.sending recipient message subject s) q p = record {
    earlier = p.earlier;
    mid = p.mid;
    effects = p.effects;
    before = p.before;
    count = p.count;
    fs = p.fs;
    run = p.run;
    cut = p.cut;
    same = (p.same.0 ∙ q.0, p.same.1 ∙ q.1);
  }
  Coarse-same rs cs w' es gs (Task.storing user server t) q p = record {
    earlier = p.earlier;
    mid = p.mid;
    effects = p.effects;
    before = p.before;
    given = p.given;
    v = p.v;
    fs = p.fs;
    dialled = p.dialled;
    meanwhile = p.meanwhile;
    gs = p.gs;
    ran = p.ran;
    cut = p.cut;
    same = (p.same.0 ∙ q.0, p.same.1 ∙ q.1);
  }
