-- ===== src/System/Slots/Replies.antt =====
-- Where the slots make calls, one turn is that turn without slots, and then the calls.
use cinder_xmpp.Prelude.{
  Bool, ap, ◌≡◌, refl, sym, ◌∙◌, Str, true, false, some, List, [], arith, append-nil,
}
use cinder_xmpp.Gloox.{Jid, ConnectionError, CertInfo}
use cinder_xmpp.World.{
  World, Outcome, done, threw, undefined, terminated, Effect, Signal, Action, ◌>>◌, pure, Slots,
  no_slots,
}
use cinder_xmpp.World.Laws.{Run, resume, signals}
use cinder_xmpp.Client.Delegate
use cinder_xmpp.Listener
use cinder_xmpp.Listener.{to_delegate, set_connected}
use cinder_xmpp.Listener.Callbacks
use cinder_xmpp.Client.Api
use cinder_xmpp.System.{request, void, Callback, deliver, Request, Turn, perform, perform_all}
use cinder_xmpp.System.Refinement.{perform-void}
use cinder_xmpp.System.Slots.{deliver_with, replying, perform_with, replied}
use cinder_xmpp.System.Slots.Handlers.{
  Replied, on_connect-Replied, on_disconnect-Replied, on_tls_connect-Replied,
  handle_message-Replied, handle_roster-Replied, handle_roster_presence-Replied,
  to_delegate-Replied,
}

-- `onTLSConnect` returns true, which the turn drops.
settle-answer :
    (r : Outcome (Unit {0})) (w' : World) (es : List Effect)
    → resume (resume (resume (r, w', es) (λ _. pure true)) (λ b. pure (some b))) (λ _. pure tt)
      ≡ (r, w', es)
settle-answer (done tt) w' es = simp append-nil
settle-answer (threw e) w' es = refl
settle-answer undefined w' es = refl
settle-answer terminated w' es = refl

module _ (jid_of : Str → Jid) (replies : Signal → Bool → List Request) where
  abbrev slots : Slots
  slots = replying jid_of replies

  Callbacks-on_connect-Replied :
      (w : World) → Replied jid_of replies (Callbacks.on_connect slots) Listener.on_connect w
  unfolding Listener.on_connect Callbacks.on_connect
  Callbacks-on_connect-Replied w =
      to_delegate-Replied jid_of replies (Delegate.on_connect slots) (Delegate.on_connect no_slots)
        (Listener.with_connected true w)
        (on_connect-Replied jid_of replies (Listener.with_connected true w))

  Callbacks-on_disconnect-Replied :
      (e : ConnectionError) (w : World)
      → Replied jid_of replies (Callbacks.on_disconnect slots e) (Listener.on_disconnect e) w
  unfolding Listener.on_disconnect Callbacks.on_disconnect
  Callbacks-on_disconnect-Replied e w =
      to_delegate-Replied jid_of replies (Delegate.on_disconnect slots e)
        (Delegate.on_disconnect no_slots e) (Listener.with_connected false w)
        (on_disconnect-Replied jid_of replies e (Listener.with_connected false w))

  resume-pure : (r : Run (Unit {0})) → resume r (λ _. pure tt) ≡ r
  resume-pure (done tt, w, es) = simp append-nil
  resume-pure (threw e, w, es) = refl
  resume-pure (undefined, w, es) = refl
  resume-pure (terminated, w, es) = refl

  quiet-Replied :
      (m : Action (Unit {0})) (w : World) → signals (m w).2 ≡ [] → Replied jid_of replies m m w
  unfolding replied perform_all
  quiet-Replied m w h =
      sym (resume-pure (m w))
      ∙ ap (λ ss. resume (m w) (λ _. perform_all jid_of (replied jid_of replies (m w).1 ss)))
          (sym h)

  void-Replied :
      (m₁ m₀ : Action (Unit {0})) (w : World)
      → Replied jid_of replies m₁ m₀ w
      → Replied jid_of replies (void m₁ >> pure tt) (void m₀ >> pure tt) w
  void-Replied m₁ m₀ w h =
      perform-void m₁ w
      ∙ h
      ∙ ap (λ r. resume r (λ _. perform_all jid_of (replied jid_of replies r.1 (signals r.2))))
          (sym (perform-void m₀ w))

  Callbacks-on_tls_connect-Replied :
      (info : CertInfo) (w : World)
      → Replied jid_of replies
          (perform_with jid_of replies (Turn.callback (Callback.on_tls_connect info)))
          (perform jid_of (Turn.callback (Callback.on_tls_connect info)))
          w
  unfolding perform_with deliver_with perform deliver Listener.on_tls_connect
      Callbacks.on_tls_connect
  Callbacks-on_tls_connect-Replied info w =
      let w' = Listener.with_connected true w in
      let m₁ = to_delegate (Delegate.on_tls_connect slots info) in
      let m₀ = to_delegate (Delegate.on_tls_connect no_slots info) in
      settle-answer (m₁ w').0 (m₁ w').1 (m₁ w').2
      ∙ to_delegate-Replied jid_of replies (Delegate.on_tls_connect slots info)
          (Delegate.on_tls_connect no_slots info) w' (on_tls_connect-Replied jid_of replies info w')
      ∙ ap (λ r. resume r (λ _. perform_all jid_of (replied jid_of replies r.1 (signals r.2))))
          (sym (settle-answer (m₀ w').0 (m₀ w').1 (m₀ w').2))

  pub perform_with-Replied :
      (t : Turn) (w : World)
      → Replied jid_of replies (perform_with jid_of replies t) (perform jid_of t) w
  unfolding perform_with deliver_with perform deliver request signals Callbacks.handle_message
      Callbacks.handle_roster Callbacks.handle_roster_presence Listener.handle_message
      Listener.handle_roster Listener.handle_roster_presence Listener.handle_message_session
      Listener.handle_log Listener.handle_message_event Listener.handle_chat_state Api.connect
      Api.send_message Listener.setup Listener.send_message
  perform_with-Replied (Turn.callback Callback.on_connect) w =
      void-Replied (Callbacks.on_connect slots) Listener.on_connect w
        (Callbacks-on_connect-Replied w)
  perform_with-Replied (Turn.callback (Callback.on_disconnect e)) w =
      void-Replied (Callbacks.on_disconnect slots e) (Listener.on_disconnect e) w
        (Callbacks-on_disconnect-Replied e w)
  perform_with-Replied (Turn.callback (Callback.on_tls_connect info)) w =
      Callbacks-on_tls_connect-Replied info w
  perform_with-Replied (Turn.callback (Callback.handle_message msg sess)) w =
      void-Replied (Callbacks.handle_message slots msg sess) (Listener.handle_message msg sess) w (
        to_delegate-Replied jid_of replies (Delegate.handle_message slots msg sess)
          (Delegate.handle_message no_slots msg sess) w
          (handle_message-Replied jid_of replies msg sess w))
  perform_with-Replied (Turn.callback (Callback.handle_roster items)) w =
      void-Replied (Callbacks.handle_roster slots items) (Listener.handle_roster items) w (
        to_delegate-Replied jid_of replies (Delegate.handle_roster slots items)
          (Delegate.handle_roster no_slots items) w (handle_roster-Replied jid_of replies items w))
  perform_with-Replied (Turn.callback (Callback.handle_roster_presence item resource presence msg))
        w =
      void-Replied (Callbacks.handle_roster_presence slots item resource presence msg)
        (Listener.handle_roster_presence item resource presence msg) w
        (to_delegate-Replied jid_of replies
          (Delegate.handle_roster_presence slots item resource presence msg)
          (Delegate.handle_roster_presence no_slots item resource presence msg) w
          (handle_roster_presence-Replied jid_of replies item resource presence msg w))
  perform_with-Replied (Turn.callback (Callback.handle_message_session s)) w =
      quiet-Replied (perform jid_of (Turn.callback (Callback.handle_message_session s))) w
        (ground arith)
  perform_with-Replied (Turn.ask (Request.connect user server)) w =
      quiet-Replied (perform jid_of (Turn.ask (Request.connect user server))) w (ground arith)
  perform_with-Replied (Turn.ask (Request.send_message recipient message subject)) w =
      quiet-Replied (perform jid_of (Turn.ask (Request.send_message recipient message subject))) w
        (ground arith)
  perform_with-Replied t w = quiet-Replied (perform jid_of t) w refl
