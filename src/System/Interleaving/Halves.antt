-- ===== src/System/Interleaving/Halves.antt =====
-- The callbacks of src/XmppListener.cpp in two halves: a callback first writes `mIsConnected`, if it does,
-- and `sendMessage` may run between that and the rest. The rest writes no member that it reads.
pub mod Joined
use cinder_xmpp.Prelude.{◌≡◌, Str, Bool, true, false, Option, none, some, List, [], ◌∷◌, ◌++◌}
use cinder_xmpp.Gloox.{Jid}
use cinder_xmpp.World.{World, Effect, Action, ◌>>=◌, ◌>>◌, pure, no_slots, done}
use cinder_xmpp.Client.Delegate
use cinder_xmpp.Listener
use cinder_xmpp.System.{void, Callback, deliver}
use cinder_xmpp.System.Interleaving.{Sending, addressing, is_over, advance}

-- `mIsConnected = …`
unfoldable pub noted : Callback → World → World
noted Callback.on_connect w = Listener.with_connected true w
noted (Callback.on_disconnect e) w = Listener.with_connected false w
noted (Callback.on_tls_connect info) w = Listener.with_connected true w
noted _ w = w

-- What comes after it.
unfoldable pub rest : Callback → Action (Option Bool)
unfolding deliver
rest Callback.on_connect = void (Listener.to_delegate (Delegate.on_connect no_slots))
rest (Callback.on_disconnect e) = void (Listener.to_delegate (Delegate.on_disconnect no_slots e))
rest (Callback.on_tls_connect info) = do
  b ← (do Listener.to_delegate (Delegate.on_tls_connect no_slots info); pure true)
  pure (some b)
rest c = deliver c

module _ (jid_of : Str → Jid) (recipient message subject : Str) where
  -- What is reached from the start of `sendMessage` at `w`: the callbacks that have ended, the one that
  -- is in its second half, and the effects of both threads.
  pub data Finely (w : World)
      : List Callback → Option Callback → Sending → World → List Effect → Type 0 where
    here : Finely w [] none addressing w []
    step :
        {cs : List Callback} {p : Option Callback} {s : Sending} {w' : World} {es : List Effect}
        → Finely w cs p s w' es
        → is_over s ≡ false
        → Finely w cs p
            (advance jid_of recipient message subject s w').0
            w'
            (es ++ (advance jid_of recipient message subject s w').1)
    begin :
        {cs : List Callback} {p : Option Callback} {s : Sending} {w' : World} {es : List Effect}
        (c : Callback)
        → Finely w cs p s w' es
        → p ≡ none
        → Finely w cs (some c) s (noted c w') es
    finish :
        {cs : List Callback} {p : Option Callback} {s : Sending} {w' : World} {es : List Effect}
        (c : Callback) {b : Option Bool}
        → Finely w cs p s w' es
        → p ≡ some c
        → (rest c w').0 ≡ done b
        → Finely w (cs ++ c ∷ []) none s (rest c w').1 (es ++ (rest c w').2)
