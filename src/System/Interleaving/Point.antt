-- ===== src/System/Interleaving/Point.antt =====
-- The point in time at which `sendMessage` takes effect, among the callbacks that run between its steps:
-- where it reads `mIsConnected`, or any, if it has not got there.
pub mod Advance
use cinder_xmpp.Prelude.{
  ℕ, ◌≡◌, ◌≢◌, refl, sym, ap, ◌∙◌, Str, is_empty, Bool, true, false, Bool-cases, inl, inr, Option,
  List, [], ◌∷◌, ◌++◌, map, ◌==◌, arith, append-nil, append_assoc,
}
use mathlib.Core.List.{map-append}
use mathlib.Core.Path.{subst}
use cinder_xmpp.Gloox.{Jid, Call, null}
use cinder_xmpp.World.{World, Effect, call, done}
use cinder_xmpp.Client.Api
use cinder_xmpp.Listener
use cinder_xmpp.System.{Callback, deliver, Turn, perform_all}
use cinder_xmpp.System.Addresses.{chat_message}
use cinder_xmpp.System.Interleaving.Sent.{Reach-sent}
use cinder_xmpp.System.Interleaving.Quiet.{
  unsent, unsent-append, perform_all-join, perform_all-callback, ran-Kept,
}
use cinder_xmpp.System.Interleaving.{
  Sending, addressing, testing_flag, testing_client, handing_over, answered, crashed, is_over,
  advance, Reach, here, step, callback,
}

module _ (jid_of : Str → Jid) (recipient message subject : Str) (w : World) where
  abbrev pub Reaches : ℕ → Sending → World → List Effect → Type 0
  Reaches = Reach jid_of recipient message subject addressing w

  -- The callbacks that have run, in order.
  unfoldable pub heard :
      {n : ℕ} {s : Sending} {w' : World} {es : List Effect} → Reaches n s w' es → List Callback
  heard (here e) = []
  heard (step r o) = heard r
  heard (callback c r e) = heard r ++ c ∷ []

  abbrev pub Runs : List Callback → World → World → List Effect → Type 0
  Runs cs v v' es = perform_all jid_of (map Turn.callback cs) v ≡ (done tt, v', es)

  -- What the world was like where the call takes effect.
  abbrev pub Sends : Sending → World → Type 0
  Sends (testing_client jid) mid =
      (mid.client.listener.is_connected ≡ true) × (is_empty message ≡ false)
  Sends (handing_over jid) mid =
      (mid.client.listener.is_connected ≡ true) × (is_empty message ≡ false)
  Sends (answered true) mid =
      (mid.client.listener.is_connected ≡ true)
      × (is_empty message ≡ false)
      × ((mid.client.listener.client == null) ≡ false)
  Sends (answered false) mid =
      Api.send_message jid_of recipient message subject mid ≡ (done false, mid, [])
  Sends _ mid = Unit {0}

  -- The callbacks in two parts, with such a world between them.
  pub record Split (cs : List Callback) (s : Sending) (w' : World) (es : List Effect) : Type 0 where
    pub before : List Callback
    pub after : List Callback
    pub mid : World
    pub es₁ : List Effect
    pub es₂ : List Effect
    pub cut : before ++ after ≡ cs
    pub first : Runs before w mid es₁
    pub second : Runs after mid w' es₂
    pub quiet : unsent es ≡ unsent es₁ ++ unsent es₂
    pub sends : Sends s mid

  Runs-append :
      (cs ds : List Callback) (v : World) {v' v'' : World} {es fs : List Effect}
      → Runs cs v v' es
      → Runs ds v' v'' fs
      → Runs (cs ++ ds) v v'' (es ++ fs)
  Runs-append cs ds v p q =
      ap (λ ts. perform_all jid_of ts v) (map-append Turn.callback cs ds)
      ∙ perform_all-join jid_of (map Turn.callback cs) (map Turn.callback ds) v p q

  pub callback-Split :
      {cs : List Callback} {s : Sending} {w' : World} {es : List Effect} (c : Callback)
      {b : Option Bool}
      → (deliver c w').0 ≡ done b
      → Split cs s w' es
      → Split (cs ++ c ∷ []) s (deliver c w').1 (es ++ (deliver c w').2)
  callback-Split {w' = w'} {es = es} c h p = record {
    before = p.before;
    after = p.after ++ c ∷ [];
    mid = p.mid;
    es₁ = p.es₁;
    es₂ = p.es₂ ++ (deliver c w').2;
    cut = sym (append_assoc p.before p.after (c ∷ [])) ∙ ap (λ cs. cs ++ c ∷ []) p.cut;
    first = p.first;
    second = Runs-append p.after (c ∷ []) p.mid p.second (perform_all-callback jid_of c w' h);
    quiet = simp (unsent-append, p.quiet, append_assoc);
    sends = p.sends;
  }

  -- The call may as well take effect now.
  pub merged :
      {cs : List Callback} {s : Sending} {w' : World} {es : List Effect}
      → Split cs s w' es
      → (s' : Sending) → Sends s' w'
      → Split cs s' w' es
  unfolding perform_all unsent
  merged {cs} {w' = w'} {es = es} p s' h = record {
    before = p.before ++ p.after;
    after = [];
    mid = w';
    es₁ = p.es₁ ++ p.es₂;
    es₂ = [];
    cut = append-nil (p.before ++ p.after) ∙ p.cut;
    first = Runs-append p.before p.after w p.first p.second;
    second = refl;
    quiet = simp (unsent-append, p.quiet, append-nil);
    sends = h;
  }

  -- It still may where it could before, while nothing but a message was added to the effects.
  pub kept_on :
      {cs : List Callback} {s : Sending} {w' : World} {es : List Effect} (p : Split cs s w' es)
      (s' : Sending) (fs : List Effect)
      → unsent fs ≡ []
      → Sends s' p.mid
      → Split cs s' w' (es ++ fs)
  kept_on {es = es} p s' fs h k = record {
    before = p.before;
    after = p.after;
    mid = p.mid;
    es₁ = p.es₁;
    es₂ = p.es₂;
    cut = p.cut;
    first = p.first;
    second = p.second;
    quiet = simp (unsent-append, h, append-nil, p.quiet);
    sends = k;
  }
