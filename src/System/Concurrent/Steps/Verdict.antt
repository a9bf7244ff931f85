-- ===== src/System/Concurrent/Steps/Verdict.antt =====
-- What `sendMessage` answers from where it is, when its own steps alone are left.
use cinder_xmpp.Prelude.{
  ◌≡◌, refl, sym, Str, is_empty, Bool, true, false, not, ◌&&◌, ◌==◌, Bool-cases, inl, inr, none,
  List, [], ◌∷◌, ◌++◌, arith,
}
use mathlib.Core.Path.{subst}
use cinder_xmpp.Gloox.{Jid, null}
use cinder_xmpp.World.{World, Effect}
use cinder_xmpp.System.{Request}
use cinder_xmpp.System.Interleaving.{
  Sending, testing_flag, testing_client, handing_over, answered, crashed, is_over, advance,
}
use cinder_xmpp.System.Concurrent.Steps.{Task}
use cinder_xmpp.System.Concurrent.Steps.Onward.{Onward}

-- What `sendMessage` answers from where it is, if the members stay as they are.
abbrev pub verdict : Str → Sending → World → Bool
verdict message (answered b) w = b
verdict message (handing_over jid) w = true
verdict message (testing_client jid) w = not (w.client.listener.client == null)
verdict message crashed w = false
verdict message _ w =
    w.client.listener.is_connected
    && (not (is_empty message) && not (w.client.listener.client == null))

module _ (jid_of : Str → Jid) (recipient message subject : Str) (v : World) where
  -- `sendMessage` goes on from `s`, and answers `b`.
  abbrev pub Answers : Sending → Bool → Type 0
  Answers s b =
      (es : List Effect) × Onward jid_of none (Task.sending recipient message subject s) v
        ((Request.send_message recipient message subject, b) ∷ []) [] v es

  pub answered-Answers : (b : Bool) → Answers (answered b) b
  answered-Answers b = ([], Onward.answer recipient message subject b Onward.at_rest)

  pub step-Answers :
      (s s' : Sending) (b : Bool)
      → is_over s ≡ false
      → (advance jid_of recipient message subject s v).0 ≡ s'
      → Answers s' b
      → Answers s b
  step-Answers s s' b o e on =
      let (es, on) = subst (λ s. Answers s b) (sym e) on in
      (
        (advance jid_of recipient message subject s v).1 ++ es,
        Onward.step recipient message subject s o on,
      )

  pub handing_over-Answers :
      (jid : Jid) → (v.client.listener.client == null) ≡ false → Answers (handing_over jid) true
  unfolding advance
  handing_over-Answers jid e =
      step-Answers (handing_over jid) (answered true) true refl (ground arith)
        (answered-Answers true)

  pub testing_client-Answers :
      (jid : Jid) → Answers (testing_client jid) (verdict message (testing_client jid) v)
  unfolding advance
  testing_client-Answers jid = elim (Bool-cases (v.client.listener.client == null)) [
    | inl e ↦ subst (Answers (testing_client jid)) (ground arith) (
        step-Answers (testing_client jid) (answered false) false refl (ground arith)
          (answered-Answers false))
    | inr e ↦ subst (Answers (testing_client jid)) (ground arith) (
        step-Answers (testing_client jid) (handing_over jid) true refl (ground arith)
          (handing_over-Answers jid e))
  ]

  refused-Answers :
      (jid : Jid)
      → (v.client.listener.is_connected && not (is_empty message)) ≡ false
      → Answers (testing_flag jid) false
  unfolding advance
  refused-Answers jid e =
      step-Answers (testing_flag jid) (answered false) false refl (ground arith)
        (answered-Answers false)

  pub testing_flag-Answers :
      (jid : Jid) → Answers (testing_flag jid) (verdict message (testing_flag jid) v)
  unfolding advance
  testing_flag-Answers jid =
      elim (Bool-cases (v.client.listener.is_connected && not (is_empty message))) [
        | inl e ↦ subst (Answers (testing_flag jid)) (ground arith) (
            step-Answers (testing_flag jid) (testing_client jid)
              (verdict message (testing_client jid) v) refl (ground arith)
              (testing_client-Answers jid))
        | inr e ↦ subst (Answers (testing_flag jid)) (ground arith) (refused-Answers jid e)
      ]
