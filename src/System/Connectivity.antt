-- ===== src/System/Connectivity.antt =====
-- When the wrapper counts as connected: after the last of the three callbacks that say so.
use cinder_xmpp.Prelude.{
  ap, ◌≡◌, refl, sym, ◌∙◌, Bool, true, false, none, some, Str, List, [], ◌∷◌, arith,
}
use cinder_xmpp.Gloox.{Jid}
use cinder_xmpp.World.{World, done}
use cinder_xmpp.Client.Api.{is_connected}
use cinder_xmpp.System.{Callback, Request, Turn, perform_all}
use cinder_xmpp.System.Wiring.{IsWired}
use cinder_xmpp.System.Spec.{View, Observed, view, spec_callback, spec_request, spec_turn, spec_all}
use cinder_xmpp.System.Histories.{and_then-well}
use cinder_xmpp.System.Refinement.{perform_all-spec_all}

-- What the last connection callback of these turns said, or else `b`. That TLS is up counts as much
-- as that the login is complete.
unfoldable pub last_said : List Turn → Bool → Bool
last_said [] b = b
last_said (Turn.callback Callback.on_connect ∷ ts) b = last_said ts true
last_said (Turn.callback (Callback.on_tls_connect info) ∷ ts) b = last_said ts true
last_said (Turn.callback (Callback.on_disconnect e) ∷ ts) b = last_said ts false
last_said (_ ∷ ts) b = last_said ts b

-- What one turn says.
unfoldable pub says : Turn → Bool → Bool
says (Turn.callback Callback.on_connect) b = true
says (Turn.callback (Callback.on_tls_connect info)) b = true
says (Turn.callback (Callback.on_disconnect e)) b = false
says _ b = b

pub last_said-cons :
    (t : Turn) (ts : List Turn) (b : Bool) → last_said (t ∷ ts) b ≡ last_said ts (says t b)
unfolding last_said says
last_said-cons (Turn.callback Callback.on_connect) ts b = refl
last_said-cons (Turn.callback _) ts b = refl
last_said-cons (Turn.ask r) ts b = refl

online-callback :
    (c : Callback) (v : View) → (spec_callback c v).1.online ≡ says (Turn.callback c) v.online
unfolding spec_callback says
online-callback (Callback.on_disconnect e) v = ground arith
online-callback (Callback.handle_message msg none) v = refl
online-callback (Callback.handle_message msg (some s)) v = refl
online-callback (Callback.handle_roster_presence item resource presence msg) v = ground arith
online-callback _ v = refl

online-turn : (t : Turn) (v : View) → (spec_turn t v).1.online ≡ says t v.online
unfolding spec_turn spec_request says
online-turn (Turn.callback c) v = online-callback c v
online-turn (Turn.ask (Request.connect user server)) v = ground arith
online-turn (Turn.ask (Request.send_message recipient message subject)) v = refl

online-all :
    (ts : List Turn) (v : View)
    → (spec_all ts v).0 ≡ done tt
    → (spec_all ts v).1.online ≡ last_said ts v.online
unfolding spec_all
online-all [] v h = unfold last_said in refl
online-all (t ∷ ts) v h =
    let (same, fine) = and_then-well (spec_turn t v) (spec_all ts) h in
    ap (λ (u : View). u.online) same
    ∙ online-all ts (spec_turn t v).1 fine
    ∙ ap (last_said ts) (online-turn t v)
    ∙ sym (last_said-cons t ts v.online)

-- After any turns that end well `isConnected` answers what the last connection callback said: true
-- after a login and already after the TLS handshake, false after a disconnect.
pub is_connected-last_said :
    (jid_of : Str → Jid) (ts : List Turn) (w : World)
    → IsWired w
    → (perform_all jid_of ts w).0 ≡ done tt
    → is_connected (perform_all jid_of ts w).1 ≡ last_said ts (is_connected w)
unfolding is_connected
is_connected-last_said jid_of ts w wired fine =
    let e = perform_all-spec_all jid_of ts w wired in
    ap (λ (o : Observed). o.1.online) e
    ∙ online-all ts (view w) (sym (ap (λ (o : Observed). o.0) e) ∙ fine)
