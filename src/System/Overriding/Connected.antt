-- ===== src/System/Overriding/Connected.antt =====
-- When a client of a subclass counts as connected.
use cinder_xmpp.Prelude.{
  ◌≡◌, refl, sym, ◌∙◌, ap, Str, Bool, true, false, none, some, List, [], ◌∷◌, map, arith,
}
use cinder_xmpp.Gloox.{Jid}
use cinder_xmpp.World.{
  World, Effect, Signal, Outcome, done, threw, undefined, terminated, Action, ◌>>◌, pure,
}
use cinder_xmpp.World.Laws.{resume}
use cinder_xmpp.Client.Api
use cinder_xmpp.Listener
use cinder_xmpp.Listener.{with_connected}
use cinder_xmpp.System.{Callback, deliver, Request, request, Turn, perform}
use cinder_xmpp.System.Connectivity.{last_said, says, last_said-cons}
use cinder_xmpp.System.Slots.{replying}
use cinder_xmpp.System.Overriding.{
  Handling, Overriding, dispatch, deliver_to, perform_in, perform_all_in,
}
use cinder_xmpp.World.Relations.{Holds}
use cinder_xmpp.System.Overriding.Laws.{Composes}
use cinder_xmpp.System.Overriding.Turns.{dispatch-Holds}

abbrev SameFlag : World → World → List Effect → Type 0
SameFlag w w' es = w'.client.listener.is_connected ≡ w.client.listener.is_connected

SameFlag-Composes : Composes SameFlag
SameFlag-Composes = record {
  runs = record { nothing = λ w. refl; both = λ w v u es fs p q. q ∙ p };
  filled = λ items w. refl;
  changed = λ name status w. refl;
  raised = λ s w. refl;
}

asks-SameFlag : (jid_of : Str → Jid) (r : Request) → Holds SameFlag (perform jid_of (Turn.ask r))
unfolding perform request Api.connect Api.send_message Listener.setup Listener.send_message
asks-SameFlag jid_of (Request.connect user server) w = ground arith
asks-SameFlag jid_of (Request.send_message recipient message subject) w = ground arith

-- That a run goes on with a constant changes no member.
same_flag :
    {A B : Type 0} (b : Bool) (r : Outcome A) (w : World) (es : List Effect) (f : A → B)
    → w.client.listener.is_connected ≡ b
    → (resume (r, w, es) (λ a. pure (f a))).1.client.listener.is_connected ≡ b
same_flag b (done a) w es f h = h
same_flag b (threw x) w es f h = h
same_flag b undefined w es f h = h
same_flag b terminated w es f h = h

module _ (jid_of : Str → Jid) (replies : Signal → Bool → List Request) where
  dispatch-SameFlag :
      (o : Overriding) (h : Handling)
      → Holds SameFlag (dispatch jid_of (replying jid_of replies) o h)
  dispatch-SameFlag =
      dispatch-Holds SameFlag SameFlag-Composes jid_of replies (asks-SameFlag jid_of)

  handled_flag :
      {A : Type 0} (b : Bool) (o : Overriding) (h : Handling) (a : A) (w : World)
      → (let d = dispatch jid_of (replying jid_of replies) o h in
          (d >> pure a) (with_connected b w)).1.client.listener.is_connected
        ≡ b
  handled_flag b o h a w =
      let (r, v, es) = dispatch jid_of (replying jid_of replies) o h (with_connected b w) in
      same_flag b r v es (λ _. a) (dispatch-SameFlag o h (with_connected b w))

  kept_flag :
      {A : Type 0} (o : Overriding) (h : Handling) (a : A) (w : World)
      → (let d = dispatch jid_of (replying jid_of replies) o h in
          (d >> pure a) w).1.client.listener.is_connected
        ≡ w.client.listener.is_connected
  kept_flag o h a w =
      let (r, v, es) = dispatch jid_of (replying jid_of replies) o h w in
      same_flag w.client.listener.is_connected r v es (λ _. a) (dispatch-SameFlag o h w)

  deliver_to-says :
      (o : Overriding) (c : Callback) (w : World)
      → (deliver_to jid_of (replying jid_of replies) o c w).1.client.listener.is_connected
        ≡ says (Turn.callback c) w.client.listener.is_connected
  unfolding deliver_to says deliver Listener.handle_message_event Listener.handle_chat_state
      Listener.handle_message_session Listener.handle_log
  deliver_to-says o Callback.on_connect w = handled_flag true o Handling.on_connect none w
  deliver_to-says o (Callback.on_disconnect e) w =
      handled_flag false o (Handling.on_disconnect e) none w
  deliver_to-says o (Callback.on_tls_connect info) w =
      let v = with_connected true w in
      let (r, u, es) =
        (dispatch jid_of (replying jid_of replies) o (Handling.on_tls_connect info) >> pure true)
          v in
      same_flag true r u es some (handled_flag true o (Handling.on_tls_connect info) true w)
  deliver_to-says o (Callback.handle_message msg sess) w =
      kept_flag o (Handling.handle_message msg sess) none w
  deliver_to-says o (Callback.handle_roster items) w =
      kept_flag o (Handling.handle_roster items) none w
  deliver_to-says o (Callback.handle_roster_presence item resource presence msg) w =
      kept_flag o (Handling.handle_roster_presence item resource presence msg) none w
  deliver_to-says o (Callback.handle_message_session session) w = ground arith
  deliver_to-says o _ w = refl

  perform_in-says :
      (o : Overriding) (t : Turn) (w : World)
      → (perform_in jid_of (replying jid_of replies) (o, t) w).1.client.listener.is_connected
        ≡ says t w.client.listener.is_connected
  unfolding perform_in says
  perform_in-says o (Turn.callback c) w =
      let (r, v, es) = deliver_to jid_of (replying jid_of replies) o c w in
      same_flag (says (Turn.callback c) w.client.listener.is_connected) r v es (λ _. tt)
        (deliver_to-says o c w)
  perform_in-says o (Turn.ask (Request.connect user server)) w =
      asks-SameFlag jid_of (Request.connect user server) w
  perform_in-says o (Turn.ask (Request.send_message recipient message subject)) w =
      asks-SameFlag jid_of (Request.send_message recipient message subject) w

  -- What one turn says counts from then on, if it ends well.
  resume-says :
      (k : Action (Unit {0})) (r : Outcome (Unit {0})) (w : World) (es : List Effect) (b : Bool)
      → ((k w).0 ≡ done tt → (k w).1.client.listener.is_connected ≡ b)
      → (resume (r, w, es) (λ _. k)).0 ≡ done tt
      → (resume (r, w, es) (λ _. k)).1.client.listener.is_connected ≡ b
  resume-says k (done a) w es b f h = f h
  resume-says k (threw x) w es b f h = cc
  resume-says k undefined w es b f h = cc
  resume-says k terminated w es b f h = cc

  -- Whatever the handlers do that a subclass overrides, and whatever calls the slots make in answer to
  -- signals: after any turns that end well `isConnected` answers what the last connection callback said,
  -- true after a login and already after the TLS handshake, false after a disconnect.
  pub perform_all_in-last_said :
      (ts : List (Overriding × Turn)) (w : World)
      → (perform_all_in jid_of (replying jid_of replies) ts w).0 ≡ done tt
      → Api.is_connected (perform_all_in jid_of (replying jid_of replies) ts w).1
        ≡ last_said (map (λ t. t.1) ts) (Api.is_connected w)
  unfolding perform_all_in Api.is_connected
  perform_all_in-last_said [] w h = unfold last_said in refl
  perform_all_in-last_said ((o, t) ∷ ts) w h =
      let (r, v, es) = perform_in jid_of (replying jid_of replies) (o, t) w in
      let said = perform_in-says o t w in
      resume-says (perform_all_in jid_of (replying jid_of replies) ts) r v es
        (last_said (t ∷ map (λ t. t.1) ts) w.client.listener.is_connected)
        (λ fine.
          perform_all_in-last_said ts v fine
          ∙ ap (last_said (map (λ t. t.1) ts)) said
          ∙ sym (last_said-cons t (map (λ t. t.1) ts) w.client.listener.is_connected))
        h
