-- ===== src/System/Delivery.antt =====
-- When a message gets through to gloox.
use cinder_xmpp.Prelude.{
  ap, ◌≡◌, sym, ◌∙◌, ◌<◌, Str, codes, is_empty, Bool, true, false, ◌||◌, none, some, List, [], ◌∷◌,
  ◌++◌, arith, ◌==◌,
}
use cinder_xmpp.Gloox.{Jid, Ptr, null, Call}
use cinder_xmpp.World.{done, call}
use cinder_xmpp.Client.Api
use cinder_xmpp.Listener
use cinder_xmpp.System.{Callback, Request, Turn, perform_all, start}
use cinder_xmpp.System.Wiring.{start-IsWired}
use cinder_xmpp.System.Spec.{View, Observed, view, spec_callback, spec_request, spec_turn, spec_all}
use cinder_xmpp.System.Histories.{and_then-well}
use cinder_xmpp.System.Refinement.{perform_all-spec_all}
use cinder_xmpp.System.Addresses.{chat_message, send_message_lem}
use cinder_xmpp.System.Connectivity.{last_said, is_connected-last_said}
use cinder_xmpp.System.Lifetimes.{connects}

-- Whether some turn is a `connect` that is not refused.
unfoldable pub any_connects : List Turn → Bool
any_connects [] = false
any_connects (t ∷ ts) = connects t || any_connects ts

ready-turn : (t : Turn) (v : View) → (spec_turn t v).1.ready ≡ (v.ready || connects t)
unfolding spec_turn spec_callback spec_request
ready-turn (Turn.callback (Callback.on_disconnect e)) v = ground arith
ready-turn (Turn.callback (Callback.handle_message msg none)) v = ground arith
ready-turn (Turn.callback (Callback.handle_message msg (some s))) v = ground arith
ready-turn (Turn.callback (Callback.handle_roster_presence item resource presence msg)) v =
    ground arith
ready-turn (Turn.callback c) v = ground arith
ready-turn (Turn.ask (Request.connect user server)) v = ground arith
ready-turn (Turn.ask (Request.send_message recipient message subject)) v = ground arith

spec_all-ready :
    (ts : List Turn) (v : View)
    → (spec_all ts v).0 ≡ done tt
    → (spec_all ts v).1.ready ≡ (v.ready || any_connects ts)
unfolding spec_all any_connects
spec_all-ready [] v h = ground arith
spec_all-ready (t ∷ ts) v h =
    let (same, well) = and_then-well (spec_turn t v) (spec_all ts) h in
    ground (arith, ready-turn t v, spec_all-ready ts (spec_turn t v).1 well)

module _ (jid_of : Str → Jid) (self fresh : Ptr) (ts : List Turn) (self_pos : 0 < self)
    (fresh_pos : 0 < fresh) where
  ready_lem :
      (perform_all jid_of ts (start self fresh)).0 ≡ done tt
      → any_connects ts ≡ true
      → ((perform_all jid_of ts (start self fresh)).1.client.listener.client == null) ≡ false
  unfolding start
  ready_lem well asked =
      let w = start self fresh in
      let e = perform_all-spec_all jid_of ts w (start-IsWired self fresh self_pos fresh_pos) in
      let known = spec_all-ready ts (view w) (sym (ap (λ (o : Observed). o.0) e) ∙ well) in
      let seen = ap (λ (o : Observed). o.1.ready) e in ground arith

  up_lem :
      (perform_all jid_of ts (start self fresh)).0 ≡ done tt
      → last_said ts false ≡ true
      → (perform_all jid_of ts (start self fresh)).1.client.listener.is_connected ≡ true
  unfolding start Api.is_connected Listener.new_listener
  up_lem well said =
      is_connected-last_said jid_of ts (start self fresh)
        (start-IsWired self fresh self_pos fresh_pos) well
      ∙ said

  -- After any turns of a new client that end well, with a `connect` among them that was not refused, and
  -- with a login or a TLS handshake after the last disconnect: a text that is not empty is handed to
  -- gloox, and `sendMessage` answers `true`.
  pub send_after_login :
      (recipient message subject : Str)
      → (perform_all jid_of ts (start self fresh)).0 ≡ done tt
      → any_connects ts ≡ true
      → last_said ts false ≡ true
      → is_empty message ≡ false
      → let w = (perform_all jid_of ts (start self fresh)).1 in
        Api.send_message jid_of recipient message subject w ≡ (
          done true,
          w,
          call (
                Call.send w.client.listener.client
                  (chat_message (jid_of (recipient ++ codes "@")) message subject))
              ∷ [],
        )
  send_after_login recipient message subject well asked said text =
      let up = up_lem well said in
      let ready = ready_lem well asked in
      send_message_lem jid_of self fresh ts self_pos fresh_pos recipient message subject
      ∙ rw (up, ready, text)
