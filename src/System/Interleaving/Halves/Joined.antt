-- ===== src/System/Interleaving/Halves/Joined.antt =====
-- Callbacks in halves reach what whole callbacks reach.
use cinder_xmpp.Prelude.{
  ◌≡◌, refl, sym, ap, ◌∙◌, Str, Bool, false, Option, none, some, List, [], ◌∷◌, ◌++◌, map, arith,
  append-nil, ℕ, suc,
}
use mathlib.Core.Path.{subst}
use cinder_xmpp.Gloox.{Jid}
use cinder_xmpp.World.{World, Effect, done}
use cinder_xmpp.World.Laws.{Run}
use cinder_xmpp.Client.Delegate
use cinder_xmpp.Client.Api
use cinder_xmpp.Listener
use cinder_xmpp.System.{Callback, Request, deliver, Turn, perform_all}
use cinder_xmpp.System.Interleaving.{
  Sending, addressing, answered, is_over, advance, Reach, here, step, callback,
}
use cinder_xmpp.System.Interleaving.Sent.{sent, sent-append, deliver-sent}
use cinder_xmpp.System.Interleaving.Quiet.{unsent, unsent-append}
use cinder_xmpp.System.Interleaving.Point.{heard}
use cinder_xmpp.System.Interleaving.Linear.{Reach-linear}
use cinder_xmpp.System.Interleaving.Halves.{noted, rest, Finely}

-- The two halves are the callback.
pub rest-noted : (c : Callback) (w : World) → rest c (noted c w) ≡ deliver c w
unfolding rest noted deliver Listener.on_connect Listener.on_disconnect Listener.on_tls_connect
rest-noted Callback.on_connect w = refl
rest-noted (Callback.on_disconnect e) w = refl
rest-noted (Callback.on_tls_connect info) w = refl
rest-noted _ w = refl

-- The first half writes what `sendMessage` reads, and the second half nothing of it.
pub record Reads (w v : World) : Type 0 where
  pub flag : v.client.listener.is_connected ≡ w.client.listener.is_connected
  pub client : v.client.listener.client ≡ w.client.listener.client
  pub server : v.client.listener.server ≡ w.client.listener.server

pub noted-Reads : (c : Callback) (w : World) → Reads (noted c w) (deliver c w).1
unfolding noted deliver Listener.on_connect Listener.on_disconnect Listener.on_tls_connect
    Listener.handle_message Listener.handle_message_event Listener.handle_chat_state
    Listener.handle_message_session Listener.handle_roster Listener.handle_roster_presence
    Listener.handle_log Delegate.on_disconnect Delegate.on_tls_connect Delegate.handle_message
    Delegate.handle_roster Delegate.handle_roster_presence
noted-Reads Callback.on_connect w = ground arith
noted-Reads (Callback.on_disconnect e) w = ground arith
noted-Reads (Callback.on_tls_connect info) w = ground arith
noted-Reads (Callback.handle_message msg none) w = ground arith
noted-Reads (Callback.handle_message msg (some s)) w = ground arith
noted-Reads (Callback.handle_message_session s) w = ground arith
noted-Reads (Callback.handle_roster items) w = ground arith
noted-Reads (Callback.handle_roster_presence item resource presence msg) w = ground arith
noted-Reads _ w = ground arith

module _ (jid_of : Str → Jid) (recipient message subject : Str) where
  pub advance-Reads :
      (s : Sending) (w v : World)
      → Reads w v
      → advance jid_of recipient message subject s v ≡ advance jid_of recipient message subject s w
  unfolding advance Api.recipient_address
  advance-Reads s w v same = ground arith

  pub advance-unsent :
      (s : Sending) (w : World) → unsent (advance jid_of recipient message subject s w).1 ≡ []
  unfolding advance unsent
  advance-unsent s w = ground arith

  module _ (w : World) where
    -- Whole callbacks reach it, with the same messages and the same other effects.
    record Coarse (cs : List Callback) (s : Sending) (w' : World) (es : List Effect) : Type 0 where
      count : ℕ
      effects : List Effect
      run : Reach jid_of recipient message subject addressing w count s w' effects
      told : heard jid_of recipient message subject w run ≡ cs
      messages : sent effects ≡ sent es
      others : unsent effects ≡ unsent es

    callback-Coarse :
        {cs : List Callback} {s : Sending} {w' : World} {es : List Effect} (c : Callback)
        {b : Option Bool}
        → (deliver c w').0 ≡ done b
        → Coarse cs s w' es
        → Coarse (cs ++ c ∷ []) s (deliver c w').1 (es ++ (deliver c w').2)
    unfolding heard
    callback-Coarse c h p = record {
      count = p.count;
      effects = _;
      run = callback c p.run h;
      told = ap (λ cs. cs ++ c ∷ []) p.told;
      messages = simp (sent-append, p.messages);
      others = simp (unsent-append, p.others);
    }

    plain-Coarse :
        {cs : List Callback} {s : Sending} {v : World} {es : List Effect}
        → is_over s ≡ false
        → Coarse cs s v es
        → Coarse cs
            (advance jid_of recipient message subject s v).0
            v
            (es ++ (advance jid_of recipient message subject s v).1)
    unfolding heard
    plain-Coarse o p = record {
      count = suc p.count;
      effects = _;
      run = step p.run o;
      told = p.told;
      messages = simp (sent-append, p.messages);
      others = simp (unsent-append, p.others);
    }

    swapped :
        {cs : List Callback} {s : Sending} {v : World} (es fs gs : List Effect)
        → sent fs ≡ []
        → unsent gs ≡ []
        → Coarse cs s v ((es ++ fs) ++ gs)
        → Coarse cs s v ((es ++ gs) ++ fs)
    swapped es fs gs h k p = record {
      count = p.count;
      effects = p.effects;
      run = p.run;
      told = p.told;
      messages = p.messages ∙ simp (sent-append, h, append-nil);
      others = p.others ∙ simp (unsent-append, k, append-nil);
    }

    -- A step at a world of which `sendMessage` reads the same, before the effects of a second half.
    early-Coarse :
        {cs : List Callback} {s : Sending} {v : World} (es : List Effect) (u : World)
        (fs : List Effect)
        → Reads u v
        → sent fs ≡ []
        → is_over s ≡ false
        → Coarse cs s v (es ++ fs)
        → Coarse cs
            (advance jid_of recipient message subject s u).0
            v
            ((es ++ (advance jid_of recipient message subject s u).1) ++ fs)
    early-Coarse {cs} {s} {v} es u fs same silent o p =
        subst (λ (t : Sending × List Effect). Coarse cs t.0 v ((es ++ t.1) ++ fs))
          (advance-Reads s u v same)
          (swapped es fs (advance jid_of recipient message subject s v).1 silent
            (advance-unsent s v) (plain-Coarse o p))

    -- Between the halves of a callback: as if it had ended, if it will.
    abbrev Pending : List Callback → Option Callback → Sending → World → List Effect → Type 0
    Pending cs none s w' es = Coarse cs s w' es
    Pending cs (some c) s w' es =
        (v : World) × (w' ≡ noted c v)
        × ((b : Option Bool)
            → (deliver c v).0 ≡ done b
            → Coarse (cs ++ c ∷ []) s (deliver c v).1 (es ++ (deliver c v).2))

    Finely-Pending :
        {cs : List Callback} {p : Option Callback} {s : Sending} {w' : World} {es : List Effect}
        → Finely jid_of recipient message subject w cs p s w' es
        → Pending cs p s w' es
    Finely-Pending Finely.here = record {
      count = 0;
      effects = [];
      run = here refl;
      told = unfold heard in refl;
      messages = refl;
      others = refl;
    }
    Finely-Pending (Finely.step {p = none} r o) = plain-Coarse o (Finely-Pending r)
    Finely-Pending (Finely.step {p = some c} {w' = w'} {es = es} r o) =
        let (v, e, f) = Finely-Pending r in
        let same = subst (λ u. Reads u (deliver c v).1) (sym e) (noted-Reads c v) in
        (v, e, λ b h. early-Coarse es w' (deliver c v).2 same (deliver-sent c v) o (f b h))
    Finely-Pending (Finely.begin {cs = cs} {s = s} {w' = w'} {es = es} c r e) =
        let p = subst (λ p. Pending cs p s w' es) e (Finely-Pending r) in
        (w', refl, λ b h. callback-Coarse c h p)
    Finely-Pending (Finely.finish {cs = cs} {s = s} {w' = w'} {es = es} c {b} r e h) =
        let (v, q, f) = subst (λ p. Pending cs p s w' es) e (Finely-Pending r) in
        let whole : rest c w' ≡ deliver c v = ap (rest c) q ∙ rest-noted c v in
        subst (λ (t : Run (Option Bool)). Coarse (cs ++ c ∷ []) s t.1 (es ++ t.2)) (sym whole)
          (f b (ap (λ (t : Run (Option Bool)). t.0) (sym whole) ∙ h))

    -- With the callbacks in two halves each, and steps of `sendMessage` between these as well: a call that
    -- has ended, with no callback half done, is as if it had happened at one point in time among whole
    -- callbacks. There it gives the same answer, and these turns in a row leave the same members, hand
    -- the same messages to gloox, and have the same other effects in the same order.
    pub Finely-linear :
        {cs : List Callback} {b : Bool} {w' : World} {es : List Effect}
        → Finely jid_of recipient message subject w cs none (answered b) w' es
        → (before : List Callback) × (after : List Callback) × (es' : List Effect) × (before
              ++ after
            ≡ cs)
          × (perform_all jid_of
                (map Turn.callback before
                  ++ Turn.ask (Request.send_message recipient message subject)
                    ∷ map Turn.callback after)
                w
              ≡ (done tt, w', es'))
          × ((Api.send_message jid_of recipient message subject
                (perform_all jid_of (map Turn.callback before) w).1).0
              ≡ done b)
          × (sent es' ≡ sent es)
          × (unsent es' ≡ unsent es)
    Finely-linear r =
        let p = Finely-Pending r in
        let (before, after, es', cut, run, answer, messages, others) =
          Reach-linear jid_of recipient message subject w p.run in
        (before, after, es', cut ∙ p.told, run, answer, messages ∙ p.messages, others ∙ p.others)
