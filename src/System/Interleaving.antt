-- ===== src/System/Interleaving.antt =====
-- src/XmppClient.cpp and XmppListener.cpp, `sendMessage` on the application's thread, one read of a
-- member at a time, while the listener's thread runs callbacks: no lock keeps them apart. Each read
-- is taken to be atomic.
pub mod Sent
pub mod Ending
pub mod Race
pub mod Quiet
pub mod Point
pub mod Linear
pub mod Halves
use cinder_xmpp.Prelude.{
  ℕ, zero, suc, ◌≡◌, Str, is_empty, Bool, true, false, not, Option, List, [], ◌∷◌, ◌++◌, ◌==◌,
  if◌then◌else◌,
}
use cinder_xmpp.Gloox.{Jid, null, Ptr, Call, Message, MessageType}
use cinder_xmpp.World.{World, Effect, call, done}
use cinder_xmpp.Client.Api.{recipient_address}
use cinder_xmpp.System.{Callback, deliver}

-- Where `sendMessage` is: before `server()` is read, before each test, before `mClient->send(m)`,
-- back with its answer, or at a call through a null pointer.
pub data Sending : Type 0 where
  addressing : Sending
  testing_flag : Jid → Sending
  testing_client : Jid → Sending
  handing_over : Jid → Sending
  answered : Bool → Sending
  crashed : Sending

abbrev pub is_over : Sending → Bool
is_over (answered b) = true
is_over crashed = true
is_over _ = false

module _ (jid_of : Str → Jid) (recipient message subject : Str) where
  -- The next step of the application's thread.
  unfoldable pub advance : Sending → World → Sending × List Effect
  advance addressing w = (testing_flag (jid_of (recipient_address recipient w.client.listener)), [])
  advance (testing_flag jid) w =
      if not w.client.listener.is_connected
      then (answered false, [])
      else if is_empty message
      then (answered false, [])
      else (testing_client jid, [])
  advance (testing_client jid) w =
      if w.client.listener.client == null then (answered false, []) else (handing_over jid, [])
  advance (handing_over jid) w = if w.client.listener.client == null then (crashed, []) else (
    answered true,
    call (
          Call.send w.client.listener.client
            (record { subtype = MessageType.chat; to = jid; body = message; subject = subject }))
        ∷ [],
  )
  advance s w = (s, [])

  -- What is reached from `s` at `w`, with the steps of `sendMessage` so far and the effects of both
  -- threads. A callback that throws ends the process, and nothing is reached.
  pub data Reach (s : Sending) (w : World) : ℕ → Sending → World → List Effect → Type 0 where
    here : {n : ℕ} → n ≡ 0 → Reach s w n s w []
    step :
        {n : ℕ} {s' : Sending} {w' : World} {es : List Effect}
        → Reach s w n s' w' es
        → is_over s' ≡ false
        → Reach s w (suc n) (advance s' w').0 w' (es ++ (advance s' w').1)
    callback :
        {n : ℕ} {s' : Sending} {w' : World} {es : List Effect} (c : Callback) {b : Option Bool}
        → Reach s w n s' w' es
        → (deliver c w').0 ≡ done b
        → Reach s w n s' (deliver c w').1 (es ++ (deliver c w').2)
