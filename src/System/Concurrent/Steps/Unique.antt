-- ===== src/System/Concurrent/Steps/Unique.antt =====
-- The ways to rest, with either thread going first.
use cinder_xmpp.Prelude.{
  ◌≡◌, refl, sym, ap, ◌∙◌, Str, Bool, false, Option, none, some, List, [], ◌∷◌, arith,
}
use mathlib.Core.Path.{subst}
use cinder_xmpp.Gloox.{Jid}
use cinder_xmpp.Client.Delegate
use cinder_xmpp.Listener
use cinder_xmpp.World.{World, Effect, Thread}
use cinder_xmpp.World.Laws.{Run}
use cinder_xmpp.System.{Callback, Request, deliver}
use cinder_xmpp.System.Interleaving.{Sending, crashed, is_over, advance}
use cinder_xmpp.System.Interleaving.Halves.{rest}
use cinder_xmpp.System.Interleaving.Halves.Joined.{Reads, advance-Reads}
use cinder_xmpp.System.Concurrent.Storing.{with_thread, Unthreaded, deliver-Unthreaded, store-done}
use cinder_xmpp.System.Concurrent.Steps.{Task}
use cinder_xmpp.System.Concurrent.Steps.Onward.{Onward, at_rest, finish, step, answer, stored}
use cinder_xmpp.System.Concurrent.Steps.Verdict.{verdict}
use cinder_xmpp.System.Concurrent.Steps.Settling.{pending, after, ended, settled}

-- The second half of a callback writes nothing that `sendMessage` reads.
rest-Reads : (c : Callback) (w : World) → Reads w (rest c w).1
unfolding rest deliver Listener.handle_message Listener.handle_message_event
    Listener.handle_chat_state Listener.handle_message_session Listener.handle_roster
    Listener.handle_roster_presence Listener.handle_log Delegate.on_connect Delegate.on_disconnect
    Delegate.on_tls_connect Delegate.handle_message Delegate.handle_roster
    Delegate.handle_roster_presence
rest-Reads Callback.on_connect w = ground arith
rest-Reads (Callback.on_disconnect e) w = ground arith
rest-Reads (Callback.on_tls_connect info) w = ground arith
rest-Reads (Callback.handle_message msg none) w = ground arith
rest-Reads (Callback.handle_message msg (some s)) w = ground arith
rest-Reads (Callback.handle_message_session s) w = ground arith
rest-Reads (Callback.handle_roster items) w = ground arith
rest-Reads (Callback.handle_roster_presence item resource presence msg) w = ground arith
rest-Reads _ w = ground arith

after-Reads : (p : Option Callback) (w : World) → Reads w (after p w)
after-Reads none w = record { flag = refl; client = refl; server = refl }
after-Reads (some c) w = rest-Reads c w

-- Nor does it touch the thread.
rest-Unthreaded : (c : Callback) → Unthreaded (rest c)
unfolding rest Delegate.on_connect Delegate.on_disconnect Delegate.on_tls_connect
rest-Unthreaded Callback.on_connect t w = ground arith
rest-Unthreaded (Callback.on_disconnect e) t w = ground arith
rest-Unthreaded (Callback.on_tls_connect info) t w = ground arith
rest-Unthreaded c t w = deliver-Unthreaded c t w

after-with_thread :
    (p : Option Callback) (t : Option Thread) (w : World)
    → after p (with_thread t w) ≡ with_thread t (after p w)
after-with_thread none t w = refl
after-with_thread (some c) t w = ap (λ (r : Run (Option Bool)). r.1) (rest-Unthreaded c t w)

-- `sendMessage` has not crashed.
abbrev IsLive : Task → Type 0
IsLive (Task.sending recipient message subject crashed) = ⊥
IsLive _ = Unit

live :
    (recipient message subject : Str) (s : Sending)
    → is_over s ≡ false
    → IsLive (Task.sending recipient message subject s)
live recipient message subject crashed o = cc
live recipient message subject _ o = tt

module _ (jid_of : Str → Jid) where
  Onward-IsLive :
      {p : Option Callback} {k : Task} {w : World} {rs : List (Request × Bool)} {cs : List Callback}
      {w' : World} {es : List Effect}
      → Onward jid_of p k w rs cs w' es
      → IsLive k
  Onward-IsLive at_rest = tt
  Onward-IsLive (finish c ends on) = Onward-IsLive on
  Onward-IsLive (step recipient message subject s o on) = live recipient message subject s o
  Onward-IsLive (answer recipient message subject b on) = tt
  Onward-IsLive (stored user server t e on) = tt

  -- A step does not change what will be answered, unless it is a crash.
  verdict-advance :
      (recipient message subject : Str) (s : Sending) (v : World)
      → is_over s ≡ false
      → IsLive
          (Task.sending recipient message subject (advance jid_of recipient message subject s v).0)
      → verdict message (advance jid_of recipient message subject s v).0 v ≡ verdict message s v
  unfolding advance
  verdict-advance recipient message subject s v o alive = ground arith

  -- However the two threads go on to rest from where they are: the callback and the call that were under
  -- way end, and no other; `connect` answers `true`, `sendMessage` what its tests that are left say of
  -- the members as the callback leaves them, also if the callback returns later; and the members then
  -- are those that the callback leaves, with the thread stored if one was to be.
  pub Onward-unique :
      {p : Option Callback} {k : Task} {w : World} {rs : List (Request × Bool)} {cs : List Callback}
      {w' : World} {es : List Effect}
      → Onward jid_of p k w rs cs w' es
      → (rs ≡ ended k (after p w)) × (cs ≡ pending p) × (w' ≡ settled k (after p w))
  Onward-unique at_rest = (refl, refl, refl)
  Onward-unique (finish c ends on) =
      let (calls, heard, members) = Onward-unique on in (calls, ap (◌∷◌ c) heard, members)
  Onward-unique (step {p = p} {w = w} recipient message subject s o on) =
      let (calls, heard, members) = Onward-unique on in
      let v = after p w in
      let same =
        ap (λ (t : Sending × List Effect). t.0)
          (advance-Reads jid_of recipient message subject s w v (after-Reads p w)) in
      let alive =
        subst (λ s. IsLive (Task.sending recipient message subject s)) (sym same)
          (Onward-IsLive on) in
      (
        calls
            ∙ ap (λ s. (Request.send_message recipient message subject, verdict message s v) ∷ [])
                (sym same)
            ∙ ap (λ b. (Request.send_message recipient message subject, b) ∷ [])
                (verdict-advance recipient message subject s v o alive),
        heard,
        members,
      )
  Onward-unique (answer recipient message subject b on) =
      let (calls, heard, members) = Onward-unique on in
      (ap (◌∷◌ (Request.send_message recipient message subject, b)) calls, heard, members)
  Onward-unique (stored {p = p} {w = w} user server t {b} e on) =
      let (calls, heard, members) = Onward-unique on in
      let (accepted, there, nothing) = store-done t w e in
      (
        ap (◌∷◌ (Request.connect user server, b)) calls
            ∙ ap (λ b. (Request.connect user server, b) ∷ []) accepted,
        heard,
        members ∙ ap (after p) there ∙ after-with_thread p (some t) w,
      )
