-- ===== src/System/Interleaving/Linear.antt =====
-- Where callbacks run between the steps of `sendMessage`, the call takes effect at one point in time.
use cinder_xmpp.Prelude.{
  ℕ, ◌≡◌, refl, sym, ap, ◌∙◌, Str, Bool, true, false, List, [], ◌∷◌, ◌++◌, map, arith, append-nil,
}
use cinder_xmpp.World.Laws.{Run}
use cinder_xmpp.Gloox.{Jid, Call}
use cinder_xmpp.World.{World, Effect, call, done}
use cinder_xmpp.Client.Api
use cinder_xmpp.Listener
use cinder_xmpp.System.{Callback, Request, Turn, request, perform_all}
use cinder_xmpp.System.Addresses.{chat_message}
use cinder_xmpp.System.Interleaving.Sent.{sent, sent-append, Reach-sent, sent_at}
use cinder_xmpp.System.Interleaving.Quiet.{
  unsent, unsent-append, perform_all-join, perform_all-ask, Kept, ran-Kept,
}
use cinder_xmpp.System.Interleaving.{addressing, answered, Reach}
use cinder_xmpp.System.Interleaving.Point.{Sends, heard}
use cinder_xmpp.System.Interleaving.Point.Advance.{Reach-Split}

module _ (jid_of : Str → Jid) (recipient message subject : Str) (w : World) where
  -- What a call with this answer hands to gloox.
  abbrev handed : Bool → World → List Effect
  handed true v =
      call (
        Call.send v.client.listener.client (
          chat_message (jid_of (Api.recipient_address recipient v.client.listener)) message
            subject))
      ∷ []
  handed false v = []

  Sends-send_message :
      (b : Bool) (v : World)
      → Sends jid_of recipient message subject w (answered b) v
      → Api.send_message jid_of recipient message subject v ≡ (done b, v, handed b v)
  unfolding Api.send_message Listener.send_message
  Sends-send_message true v h = ground arith
  Sends-send_message false v h = h

  unsent-handed : (b : Bool) (v : World) → unsent (handed b v) ≡ []
  unfolding unsent
  unsent-handed b v = ground arith

  sent-handed :
      (b : Bool) (v : World) (es : List Effect)
      → Kept w v es
      → sent (handed b v) ≡ sent_at jid_of recipient message subject w (answered b)
  unfolding sent Api.recipient_address
  sent-handed true v es kept = ground (arith, kept.client, kept.server)
  sent-handed false v es kept = refl

  -- However callbacks run between the steps of a call that has ended, it is as if the call had happened
  -- at one point in time: there is a place among these callbacks at which the whole function gives the
  -- same answer, and with it there these turns in a row leave the same members, hand the same messages
  -- to gloox, and have the same other effects in the same order.
  pub Reach-linear :
      {n : ℕ} {b : Bool} {w' : World} {es : List Effect}
      (r : Reach jid_of recipient message subject addressing w n (answered b) w' es)
      → (before : List Callback) × (after : List Callback) × (es' : List Effect) × (before ++ after
          ≡ heard jid_of recipient message subject w r)
        × (perform_all jid_of
              (map Turn.callback before
                ++ Turn.ask (Request.send_message recipient message subject)
                  ∷ map Turn.callback after)
              w
            ≡ (done tt, w', es'))
        × ((Api.send_message jid_of recipient message subject
              (perform_all jid_of (map Turn.callback before) w).1).0
            ≡ done b)
        × (sent es' ≡ sent es)
        × (unsent es' ≡ unsent es)
  unfolding request
  Reach-linear {b = b} {es = es} r =
      let p = Reach-Split jid_of recipient message subject w r in
      let call_there = Sends-send_message b p.mid p.sends in
      let fs = handed b p.mid in
      let goes_on =
        perform_all-join jid_of (Turn.ask (Request.send_message recipient message subject) ∷ [])
          (map Turn.callback p.after) p.mid
          (perform_all-ask jid_of (Request.send_message recipient message subject) p.mid call_there)
          p.second in
      let kept₁ = ran-Kept jid_of p.before w p.first in
      let kept₂ = ran-Kept jid_of p.after p.mid p.second in
      let none_else : sent (p.es₁ ++ (fs ++ p.es₂)) ≡ sent fs =
        simp (sent-append, kept₁.silent, kept₂.silent, append-nil) in
      (
        p.before,
        p.after,
        p.es₁ ++ (fs ++ p.es₂),
        p.cut,
        perform_all-join jid_of (map Turn.callback p.before)
            (Turn.ask (Request.send_message recipient message subject) ∷ map Turn.callback p.after)
            w p.first goes_on,
        rw p.first (ap (λ (t : Run Bool). t.0) call_there),
        none_else
            ∙ sent-handed b p.mid p.es₁ kept₁
            ∙ sym (Reach-sent jid_of recipient message subject w r).1,
        simp (unsent-append, unsent-handed, sym p.quiet),
      )
