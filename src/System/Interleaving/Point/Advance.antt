-- ===== src/System/Interleaving/Point/Advance.antt =====
-- Each step of `sendMessage`, and each callback, keeps such a point in time.
use cinder_xmpp.Prelude.{
  ℕ, ◌≡◌, ◌≢◌, refl, sym, Str, is_empty, true, false, Bool-cases, inl, inr, List, [], ◌∷◌, ◌++◌,
  ◌==◌, arith, append-nil,
}
use mathlib.Core.Path.{subst}
use cinder_xmpp.Gloox.{Jid, Call, null}
use cinder_xmpp.World.{World, Effect, call, done}
use cinder_xmpp.Client.Api
use cinder_xmpp.Listener
use cinder_xmpp.System.{Callback, perform_all}
use cinder_xmpp.System.Addresses.{chat_message}
use cinder_xmpp.System.Interleaving.Sent.{Reach-sent}
use cinder_xmpp.System.Interleaving.Quiet.{unsent, ran-Kept}
use cinder_xmpp.System.Interleaving.{
  Sending, addressing, testing_flag, testing_client, handing_over, answered, crashed, is_over,
  advance, Reach, here, step, callback,
}
use cinder_xmpp.System.Interleaving.Point.{heard, Sends, Split, callback-Split, merged, kept_on}

module _ (jid_of : Str → Jid) (recipient message subject : Str) (w : World) where
  abbrev Splits : List Callback → Sending → World → List Effect → Type 0
  Splits = Split jid_of recipient message subject w

  refuses_offline :
      (v : World)
      → v.client.listener.is_connected ≡ false
      → Api.send_message jid_of recipient message subject v ≡ (done false, v, [])
  unfolding Api.send_message Listener.send_message
  refuses_offline v h = ground arith

  refuses_empty :
      (v : World)
      → is_empty message ≡ true
      → Api.send_message jid_of recipient message subject v ≡ (done false, v, [])
  unfolding Api.send_message Listener.send_message
  refuses_empty v h = ground arith

  refuses_null :
      (v : World)
      → (v.client.listener.client == null) ≡ true
      → Api.send_message jid_of recipient message subject v ≡ (done false, v, [])
  unfolding Api.send_message Listener.send_message
  refuses_null v h = ground arith

  stepped :
      {cs : List Callback} {w' : World} (es : List Effect) (t : Sending × List Effect)
      (s' : Sending) (fs : List Effect)
      → t ≡ (s', fs)
      → Splits cs s' w' (es ++ fs)
      → Splits cs t.0 w' (es ++ t.1)
  stepped {cs} {w'} es t s' fs e p =
      subst (λ (t : Sending × List Effect). Splits cs t.0 w' (es ++ t.1)) (sym e) p

  now :
      {cs : List Callback} {s : Sending} {w' : World} {es : List Effect}
      → Splits cs s w' es
      → (s' : Sending) → Sends jid_of recipient message subject w s' w'
      → Splits cs s' w' (es ++ [])
  now {cs} {w' = w'} {es = es} p s' h =
      subst (λ es. Splits cs s' w' es) (sym (append-nil es))
        (merged jid_of recipient message subject w p s' h)

  module _ (cs : List Callback) (w' : World) (es : List Effect) where
    -- A step that does not crash.
    abbrev Goes : Sending → Type 0
    Goes s =
        let (s', fs) = advance jid_of recipient message subject s w' in
        Splits cs s w' es → s' ≢ crashed → Splits cs s' w' (es ++ fs)

    test_flag-Split : (jid : Jid) → Goes (testing_flag jid)
    unfolding advance
    test_flag-Split jid p live = elim (Bool-cases w'.client.listener.is_connected) [
      | inl up ↦ elim (Bool-cases (is_empty message)) [
        | inl e ↦
            stepped es _ (answered false) [] (ground arith)
              (now p (answered false) (refuses_empty w' e))
        | inr e ↦
            stepped es _ (testing_client jid) [] (ground arith) (now p (testing_client jid) (up, e))
      ]
      | inr down ↦
          stepped es _ (answered false) [] (ground arith)
            (now p (answered false) (refuses_offline w' down))
    ]

    test_client-Split : (jid : Jid) → Goes (testing_client jid)
    unfolding advance unsent
    test_client-Split jid p live =
        let kept = ran-Kept jid_of p.after p.mid p.second in
        elim (Bool-cases (w'.client.listener.client == null)) [
          | inl e ↦ stepped es _ (answered false) [] (ground arith) (
              kept_on jid_of recipient message subject w p (answered false) [] refl
                (refuses_null p.mid (ground (arith, kept.client))))
          | inr e ↦
              stepped es _ (handing_over jid) [] (ground arith)
                (kept_on jid_of recipient message subject w p (handing_over jid) [] refl p.sends)
        ]

    hand_over-Split : (jid : Jid) → Goes (handing_over jid)
    unfolding advance unsent
    hand_over-Split jid p live =
        let kept = ran-Kept jid_of p.after p.mid p.second in
        elim (Bool-cases (w'.client.listener.client == null)) [
          | inl e ↦ absurd (live (ground arith))
          | inr e ↦
              stepped es _ (answered true)
                (call (Call.send w'.client.listener.client (chat_message jid message subject)) ∷ [])
                (ground arith)
                (kept_on jid_of recipient message subject w p (answered true) _ refl
                  (p.sends.0, p.sends.1, ground (arith, kept.client)))
        ]

    advance-Split : (s : Sending) → is_over s ≡ false → Goes s
    unfolding advance unsent
    advance-Split addressing o p live = kept_on jid_of recipient message subject w p _ [] refl tt
    advance-Split (testing_flag jid) o p live = test_flag-Split jid p live
    advance-Split (testing_client jid) o p live = test_client-Split jid p live
    advance-Split (handing_over jid) o p live = hand_over-Split jid p live
    advance-Split (answered b) o p live = cc
    advance-Split crashed o p live = cc

  pub Reach-Split :
      {n : ℕ} {s : Sending} {w' : World} {es : List Effect}
      (r : Reach jid_of recipient message subject addressing w n s w' es)
      → Splits (heard jid_of recipient message subject w r) s w' es
  unfolding heard perform_all unsent
  Reach-Split (here e) = record {
    before = [];
    after = [];
    mid = w;
    es₁ = [];
    es₂ = [];
    cut = refl;
    first = refl;
    second = refl;
    quiet = refl;
    sends = tt;
  }
  Reach-Split (step {n} {s' = s'} {w' = w'} {es = es} r o) =
      advance-Split (heard jid_of recipient message subject w r) w' es s' o (Reach-Split r)
        (Reach-sent jid_of recipient message subject w (step r o)).0
  Reach-Split (callback c r e) =
      callback-Split jid_of recipient message subject w c e (Reach-Split r)
