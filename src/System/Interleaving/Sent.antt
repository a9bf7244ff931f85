-- ===== src/System/Interleaving/Sent.antt =====
-- What `sendMessage` hands to gloox while callbacks run between its steps.
use cinder_xmpp.Client.Delegate
use cinder_xmpp.Prelude.{
  ℕ, ◌≡◌, ◌≢◌, refl, ◌∙◌, ap, ◌<◌, Str, is_empty, true, false, none, some, List, Bool-cases, inl,
  inr, [], ◌∷◌, ◌++◌, ◌==◌, arith, append-nil, All,
}
use cinder_xmpp.Gloox.{Jid, Ptr, null, Call, Message}
use cinder_xmpp.World.{World, Effect, call}
use cinder_xmpp.Client.Api.{recipient_address}
use cinder_xmpp.Listener
use cinder_xmpp.System.{Callback, deliver}
use cinder_xmpp.System.Wiring.{deliver-SameWires}
use cinder_xmpp.System.Addresses.{chat_message}
use cinder_xmpp.System.Interleaving.{
  Sending, addressing, testing_flag, testing_client, handing_over, answered, crashed, is_over,
  advance, Reach, here, step, callback,
}

-- The messages that are handed to gloox, in order, each with its client.
unfoldable pub sent : List Effect → List (Ptr × Message)
sent [] = []
sent (call (Call.send c msg) ∷ es) = (c, msg) ∷ sent es
sent (_ ∷ es) = sent es

pub sent-append : (es fs : List Effect) → sent (es ++ fs) ≡ sent es ++ sent fs
unfolding sent
sent-append [] fs = refl
sent-append (call (Call.send c msg) ∷ es) fs = ap (◌∷◌ (c, msg)) (sent-append es fs)
sent-append (Effect.call c ∷ es) fs = sent-append es fs
sent-append (_ ∷ es) fs = sent-append es fs

-- A callback sends nothing.
pub deliver-sent : (c : Callback) (w : World) → sent (deliver c w).2 ≡ []
unfolding deliver sent Listener.on_connect Listener.on_disconnect Listener.on_tls_connect
    Listener.handle_message Listener.handle_message_event Listener.handle_chat_state
    Listener.handle_message_session Listener.handle_roster Listener.handle_roster_presence
    Listener.handle_log Delegate.on_disconnect Delegate.on_tls_connect Delegate.handle_message
    Delegate.handle_roster Delegate.handle_roster_presence
deliver-sent Callback.on_connect w = ground arith
deliver-sent (Callback.on_disconnect e) w = ground arith
deliver-sent (Callback.on_tls_connect info) w = ground arith
deliver-sent (Callback.handle_message msg none) w = ground arith
deliver-sent (Callback.handle_message msg (some s)) w = ground arith
deliver-sent (Callback.handle_message_session s) w = ground arith
deliver-sent (Callback.handle_roster items) w = ground arith
deliver-sent (Callback.handle_roster_presence item resource presence msg) w = ground arith
deliver-sent _ w = ground arith

-- A client that is not null is given a text that is not empty.
abbrev pub IsSendable : Ptr × Message → Type 0
IsSendable (c, msg) = (0 < c) × (is_empty msg.body ≡ false)

module _ (jid_of : Str → Jid) (recipient message subject : Str) (w : World) where
  -- The one message that may be sent.
  abbrev pub the_message : Ptr × Message
  the_message = (
    w.client.listener.client,
    chat_message (jid_of (recipient_address recipient w.client.listener)) message subject,
  )

  -- What is known at each step, of the local variable and of what was sent.
  abbrev Holds : Sending → List Effect → Type 0
  Holds addressing es = sent es ≡ []
  Holds (testing_flag jid) es =
      (sent es ≡ []) × (jid ≡ jid_of (recipient_address recipient w.client.listener))
  Holds (testing_client jid) es =
      (sent es ≡ [])
      × (jid ≡ jid_of (recipient_address recipient w.client.listener))
      × (is_empty message ≡ false)
  Holds (handing_over jid) es =
      (sent es ≡ [])
      × (jid ≡ jid_of (recipient_address recipient w.client.listener))
      × (is_empty message ≡ false)
      × (0 < w.client.listener.client)
  Holds (answered true) es =
      (sent es ≡ the_message ∷ []) × (is_empty message ≡ false) × (0 < w.client.listener.client)
  Holds (answered false) es = sent es ≡ []
  Holds crashed es = ⊥

  module _ (w' : World) (same_client : w'.client.listener.client ≡ w.client.listener.client)
      (same_server : w'.client.listener.server ≡ w.client.listener.server) (es : List Effect) where
    advance-Holds :
        (s : Sending)
        → Holds s es
        → is_over s ≡ false
        → let (s', fs) = advance jid_of recipient message subject s w' in Holds s' (es ++ fs)
    unfolding advance sent recipient_address
    advance-Holds addressing h o = ground (arith, append-nil es)
    advance-Holds (testing_flag jid) h o = elim (Bool-cases w'.client.listener.is_connected) [
      | inl up ↦ rw up (elim (Bool-cases (is_empty message)) [
        | inl e ↦ rw e (ground (arith, append-nil es))
        | inr e ↦ rw e (ground (arith, append-nil es))
      ])
      | inr down ↦ rw down (ground (arith, append-nil es))
    ]
    advance-Holds (testing_client jid) h o = elim (Bool-cases (w'.client.listener.client == null)) [
      | inl e ↦ rw e (ground (arith, append-nil es))
      | inr e ↦ rw e (ground (arith, append-nil es))
    ]
    advance-Holds (handing_over jid) h o = elim (Bool-cases (w'.client.listener.client == null)) [
      | inl e ↦ absurd (ground arith)
      | inr e ↦ rw e (
          ground (
            arith,
            sent-append es (
                call (Call.send w'.client.listener.client (chat_message jid message subject)) ∷ []),
          ))
    ]
    advance-Holds (answered b) h o = cc
    advance-Holds crashed h o = cc

  -- Effects that send nothing change nothing.
  Holds-append :
      (s : Sending) (es fs : List Effect) → sent fs ≡ [] → Holds s es → Holds s (es ++ fs)
  Holds-append addressing es fs q h = ground (arith, sent-append es fs)
  Holds-append (testing_flag jid) es fs q h = ground (arith, sent-append es fs)
  Holds-append (testing_client jid) es fs q h = ground (arith, sent-append es fs)
  Holds-append (handing_over jid) es fs q h = ground (arith, sent-append es fs)
  Holds-append (answered true) es fs q h = ground (arith, sent-append es fs)
  Holds-append (answered false) es fs q h = ground (arith, sent-append es fs)
  Holds-append crashed es fs q h = h

  record Inv (s : Sending) (w' : World) (es : List Effect) : Type 0 where
    client : w'.client.listener.client ≡ w.client.listener.client
    server : w'.client.listener.server ≡ w.client.listener.server
    holds : Holds s es

  Reach-Inv :
      {n : ℕ} {s' : Sending} {w' : World} {es : List Effect}
      → Reach jid_of recipient message subject addressing w n s' w' es
      → Inv s' w' es
  Reach-Inv (here e) = unfold sent in record { client = refl; server = refl; holds = refl }
  Reach-Inv (step {s' = s'} {w' = w'} {es = es} r o) =
      let inv = Reach-Inv r in
      record {
        client = inv.client;
        server = inv.server;
        holds = advance-Holds w' inv.client inv.server es s' inv.holds o;
      }
  Reach-Inv (callback {s' = s'} {w' = w'} {es = es} c r e) =
      let inv = Reach-Inv r in
      let same = deliver-SameWires c w' in
      record {
        client = same.client ∙ inv.client;
        server = same.server ∙ inv.server;
        holds = Holds-append s' es (deliver c w').2 (deliver-sent c w') inv.holds;
      }

  -- What was sent when `sendMessage` is at a step.
  abbrev pub sent_at : Sending → List (Ptr × Message)
  sent_at (answered true) = the_message ∷ []
  sent_at _ = []

  settled :
      (s : Sending) (es : List Effect)
      → Holds s es
      → (s ≢ crashed) × (sent es ≡ sent_at s) × All IsSendable (sent es)
  settled addressing es h = (λ e. cc, h, rw h tt)
  settled (testing_flag jid) es h = (λ e. cc, h.0, rw h.0 tt)
  settled (testing_client jid) es h = (λ e. cc, h.0, rw h.0 tt)
  settled (handing_over jid) es h = (λ e. cc, h.0, rw h.0 tt)
  settled (answered true) es h = (λ e. cc, h.0, rw h.0 ((h.2, h.1), tt))
  settled (answered false) es h = (λ e. cc, h, rw h tt)
  settled crashed es h = absurd h

  -- Whatever callbacks run between the steps of `sendMessage`: it never calls through a null pointer.
  -- When it has answered `true`, one message was handed to gloox, the one that was asked for, on the
  -- client that there was at the start, and its text is not empty; before that, and when it has
  -- answered `false`, none was.
  pub Reach-sent :
      {n : ℕ} {s : Sending} {w' : World} {es : List Effect}
      → Reach jid_of recipient message subject addressing w n s w' es
      → (s ≢ crashed) × (sent es ≡ sent_at s) × All IsSendable (sent es)
  Reach-sent {s = s} {es = es} r = settled s es (Reach-Inv r).holds
