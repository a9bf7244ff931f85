-- ===== src/System/Overriding/Survival/Turns.antt =====
-- Turns of a client whose overriding functions are calm.
use cinder_xmpp.Prelude.{
  ◌≡◌, refl, ◌<◌, Str, Bool, true, false, Option, none, some, ◌==◌, List, [], ◌∷◌, arith,
}
use cinder_xmpp.Gloox.{Jid, null}
use cinder_xmpp.World.{World, Effect, Signal, done, ◌>>◌, pure}
use cinder_xmpp.Listener
use cinder_xmpp.Listener.{with_connected}
use cinder_xmpp.System.{Callback, deliver, Request, request, Turn, perform}
use cinder_xmpp.System.Wiring.{IsWired, perform-IsWired, perform-client_pos, to_delegate_wired}
use cinder_xmpp.System.Slots.{replying}
use cinder_xmpp.System.Overriding.{
  Handling, Overriding, execute, dispatch, deliver_to, perform_in, perform_all_in,
}
use cinder_xmpp.System.Overriding.Laws.{Composes}
use cinder_xmpp.System.Overriding.Turns.{perform_in-Holds, perform_all_in-Holds}
use cinder_xmpp.System.Overriding.Survival.{
  IsCalm, IsSending, AreSending, sends, resume-done, execute-Returns,
}

-- A callback that gloox makes with a session.
abbrev pub IsProper : Callback → Type 0
IsProper (Callback.handle_message_session session) = (session == null) ≡ false
IsProper _ = Unit

-- A turn in which no function throws or connects, and the application does not connect.
abbrev pub IsCalmTurn : Overriding × Turn → Type 0
IsCalmTurn (o, Turn.callback c) = ((h : Handling) → IsCalm (o h)) × IsProper c
IsCalmTurn (o, Turn.ask r) = IsSending r

abbrev pub AreCalm : List (Overriding × Turn) → Type 0
AreCalm [] = Unit
AreCalm (t ∷ ts) = IsCalmTurn t × AreCalm ts

-- A wired world with a gloox client.
abbrev pub IsUp : World → Type 0
IsUp w = IsWired w × (0 < w.client.listener.client)

abbrev Staying : World → World → List Effect → Type 0
Staying w w' es = IsUp w → IsUp w'

Staying-Composes : Composes Staying
Staying-Composes = record {
  runs = record { nothing = λ w h. h; both = λ w v u es fs p q h. q (p h) };
  filled = λ items w h. (ground arith, h.1);
  changed = λ name status w h. (ground arith, h.1);
  raised = λ s w h. h;
}

module _ (jid_of : Str → Jid) (replies : Signal → Bool → List Request) where
  perform-Staying : (t : Turn) (w : World) → IsUp w → IsUp (perform jid_of t w).1
  perform-Staying t w (h, c) = (perform-IsWired jid_of t w h, perform-client_pos jid_of t w h c)

  perform_in-Staying :
      (t : Overriding × Turn) (w : World)
      → IsUp w
      → IsUp (perform_in jid_of (replying jid_of replies) t w).1
  perform_in-Staying =
      perform_in-Holds Staying Staying-Composes jid_of replies perform-Staying
        (λ b w h. (ground arith, h.1))

  pub perform_all_in-Staying :
      (ts : List (Overriding × Turn)) (w : World)
      → IsUp w
      → IsUp (perform_all_in jid_of (replying jid_of replies) ts w).1
  perform_all_in-Staying =
      perform_all_in-Holds Staying Staying-Composes jid_of replies perform-Staying
        (λ b w h. (ground arith, h.1))

  module _ (quiet : (s : Signal) (b : Bool) → AreSending (replies s b)) where
    dispatch-returns :
        (o : Overriding) (h : Handling) (w : World)
        → IsWired w
        → IsCalm (o h)
        → (dispatch jid_of (replying jid_of replies) o h w).0 ≡ done tt
    dispatch-returns o h w wired calm =
        let run = execute jid_of (replying jid_of replies) (o h) in
        rw (to_delegate_wired wired run) (execute-Returns jid_of replies quiet (o h) calm w)

    handled-returns :
        {A : Type 0} (o : Overriding) (h : Handling) (a : A) (w : World)
        → IsWired w
        → IsCalm (o h)
        → ((dispatch jid_of (replying jid_of replies) o h >> pure a) w).0 ≡ done a
    handled-returns o h a w wired calm =
        let (r, v, es) = dispatch jid_of (replying jid_of replies) o h w in
        resume-done (λ _. pure a) r v es (dispatch-returns o h w wired calm) refl

    deliver_to-returns :
        (o : Overriding) (c : Callback) (w : World)
        → IsUp w
        → ((h : Handling) → IsCalm (o h))
        → IsProper c
        → (b : Option Bool) × ((deliver_to jid_of (replying jid_of replies) o c w).0 ≡ done b)
    unfolding deliver_to deliver Listener.handle_message_event Listener.handle_chat_state
        Listener.handle_message_session Listener.handle_log
    deliver_to-returns o Callback.on_connect w up calm proper =
        let h = Handling.on_connect in
        (none, handled-returns o h none (with_connected true w) (ground arith) (calm h))
    deliver_to-returns o (Callback.on_disconnect e) w up calm proper =
        let h = Handling.on_disconnect e in
        (none, handled-returns o h none (with_connected false w) (ground arith) (calm h))
    deliver_to-returns o (Callback.on_tls_connect info) w up calm proper =
        let h = Handling.on_tls_connect info in
        let v = with_connected true w in
        let (r, u, es) = (dispatch jid_of (replying jid_of replies) o h >> pure true) v in
        (
          some true,
          resume-done (λ b. pure (some b)) r u es
              (handled-returns o h true v (ground arith) (calm h)) refl,
        )
    deliver_to-returns o (Callback.handle_message msg sess) w up calm proper =
        let h = Handling.handle_message msg sess in (none, handled-returns o h none w up.0 (calm h))
    deliver_to-returns o (Callback.handle_roster items) w up calm proper =
        let h = Handling.handle_roster items in (none, handled-returns o h none w up.0 (calm h))
    deliver_to-returns o (Callback.handle_roster_presence item resource presence msg) w up calm
          proper =
        let h = Handling.handle_roster_presence item resource presence msg in
        (none, handled-returns o h none w up.0 (calm h))
    deliver_to-returns o (Callback.handle_message_session session) w (wired, c) calm proper =
        (none, ground arith)
    deliver_to-returns o (Callback.handle_subscription_request jid msg) w up calm proper =
        (some false, refl)
    deliver_to-returns o (Callback.handle_unsubscription_request jid msg) w up calm proper =
        (some false, refl)
    deliver_to-returns o c w up calm proper = (none, refl)

    perform_in-returns :
        (t : Overriding × Turn) (w : World)
        → IsUp w
        → IsCalmTurn t
        → (perform_in jid_of (replying jid_of replies) t w).0 ≡ done tt
    unfolding perform_in perform
    perform_in-returns (o, Turn.callback c) w up (calm, proper) =
        let (r, v, es) = deliver_to jid_of (replying jid_of replies) o c w in
        let (b, ends) = deliver_to-returns o c w up calm proper in
        resume-done (λ _. pure tt) r v es ends refl
    perform_in-returns (o, Turn.ask r) w up calm =
        let (a, v, es) = request jid_of r w in
        let (b, ends) = sends jid_of r w calm in resume-done (λ _. pure tt) a v es ends refl

    -- Calm turns of a wired client that has a gloox client all return, if the slots send messages at most:
    -- whatever error a disconnect reports, and whoever a presence is of.
    pub perform_all_in-returns :
        (ts : List (Overriding × Turn)) (w : World)
        → IsUp w
        → AreCalm ts
        → (perform_all_in jid_of (replying jid_of replies) ts w).0 ≡ done tt
    unfolding perform_all_in
    perform_all_in-returns [] w up calm = refl
    perform_all_in-returns (t ∷ ts) w up (calm, calms) =
        let (r, v, es) = perform_in jid_of (replying jid_of replies) t w in
        resume-done (λ _. perform_all_in jid_of (replying jid_of replies) ts) r v es
          (perform_in-returns t w up calm)
          (perform_all_in-returns ts v (perform_in-Staying t w up) calms)
