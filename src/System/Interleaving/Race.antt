-- ===== src/System/Interleaving/Race.antt =====
-- The test of `mIsConnected` and the call that it guards are two steps.
use cinder_xmpp.Client.Delegate
use cinder_xmpp.Prelude.{
  ℕ, suc, ◌≡◌, refl, ◌<◌, Str, is_empty, true, false, List, [], ◌∷◌, ◌++◌, arith, ap, none, Option,
  Bool,
}
use mathlib.Core.Path.{subst}
use cinder_xmpp.Gloox.{Jid, Call, conn_no_error}
use cinder_xmpp.World.{World, Effect, call, signal, Signal, Outcome, done}
use cinder_xmpp.Client
use cinder_xmpp.Client.Api.{is_connected, recipient_address}
use cinder_xmpp.Listener
use cinder_xmpp.System.{Callback, deliver}
use cinder_xmpp.System.Wiring.{IsWired}
use cinder_xmpp.System.Addresses.{chat_message}
use cinder_xmpp.System.Interleaving.{
  Sending, addressing, testing_client, handing_over, answered, is_over, advance, Reach, here, step,
  callback,
}

module _ (jid_of : Str → Jid) (recipient message subject : Str) where
  abbrev Reaches : World → ℕ → Sending → World → List Effect → Type 0
  Reaches = Reach jid_of recipient message subject addressing

  -- A step whose result is known.
  step_to :
      {w : World} {n : ℕ} {s s' : Sending} {w' : World} {es fs : List Effect}
      → Reaches w n s w' es
      → is_over s ≡ false
      → advance jid_of recipient message subject s w' ≡ (s', fs)
      → Reaches w (suc n) s' w' (es ++ fs)
  step_to {w} {n} {w' = w'} {es = es} r o e =
      subst (λ (p : Sending × List Effect). Reaches w (suc n) p.0 w' (es ++ p.1)) e (step r o)

  callback_to :
      {w : World} {n : ℕ} {s : Sending} {w' w'' : World} {es fs : List Effect} (c : Callback)
      {b : Option Bool}
      → Reaches w n s w' es
      → deliver c w' ≡ (done b, w'', fs)
      → Reaches w n s w'' (es ++ fs)
  callback_to {w} {n} {s} {es = es} c r e =
      subst (λ (t : Outcome (Option Bool) × World × List Effect). Reaches w n s t.1 (es ++ t.2)) e
        (callback c r (ap (λ t. t.0) e))

  module _ (w : World) (wired : IsWired w) (up : w.client.listener.is_connected ≡ true)
      (has_client : 0 < w.client.listener.client) (text : is_empty message ≡ false) where
    abbrev down : World
    down = Listener.with_connected false w

    abbrev jid : Jid
    jid = jid_of (recipient_address recipient w.client.listener)

    tested : Reaches w 2 (testing_client jid) w []
    unfolding advance
    tested = step_to (step_to (here refl) refl refl) refl (ground arith)

    disconnected :
        deliver (Callback.on_disconnect conn_no_error) w
        ≡ (done none, down, signal Signal.disconnected ∷ [])
    unfolding deliver Listener.on_disconnect Delegate.on_disconnect Client.exception_of
    disconnected = ground arith

    -- A disconnect that arrives after the test of `mIsConnected` does not stop the message: it is
    -- handed to gloox after the disconnect was signalled, and `sendMessage` answers `true`.
    pub send_while_disconnected :
        (w' : World) × (es : List Effect) × Reach jid_of recipient message subject addressing w 4
          (answered true)
          w'
          es
        × (is_connected w' ≡ false)
        × (es
            ≡ signal Signal.disconnected
              ∷ call (Call.send w.client.listener.client (chat_message jid message subject))
              ∷ [])
    unfolding is_connected advance
    send_while_disconnected =
        let told = callback_to (Callback.on_disconnect conn_no_error) tested disconnected in
        let ready : Reaches w 3 (handing_over jid) down (signal Signal.disconnected ∷ []) =
          step_to {fs = []} told refl (ground arith) in
        let gone =
          call (Call.send w.client.listener.client (chat_message jid message subject)) ∷ [] in
        let over : Reaches w 4 (answered true) down (signal Signal.disconnected ∷ gone) =
          step_to {fs = gone} ready refl (ground arith) in
        (down, _, over, refl, refl)
