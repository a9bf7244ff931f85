-- ===== src/System/Slots/Reconnecting.antt =====
-- A slot that calls `connect` again, as one of the disconnect signal would to reconnect.
use cinder_xmpp.Prelude.{
  Bool, ◌≡◌, ap, ◌∙◌, Str, true, false, Bool-cases, inl, inr, List, [], ◌∷◌, map, arith, is_some,
}
use cinder_xmpp.Gloox.{Jid}
use cinder_xmpp.World.{World, Signal, done, terminated}
use cinder_xmpp.World.Laws.{signals}
use cinder_xmpp.Client.Api
use cinder_xmpp.Listener
use cinder_xmpp.System.{Callback, Request, request, Turn, perform, perform_all}
use cinder_xmpp.System.Wiring.{IsWired, perform-IsWired, deliver-SameWires}
use cinder_xmpp.System.Lifetimes.{connects}
use cinder_xmpp.System.Delivery.{any_connects}
use cinder_xmpp.System.Slots.{answers, replied, perform_with}
use cinder_xmpp.System.Slots.Replies.{perform_with-Replied}

module _ (jid_of : Str → Jid) where
  -- While a thread is stored a call ends the process if it is a `connect` that is not refused, and
  -- else returns and leaves the thread where it is.
  ask_again :
      (r : Request) (w : World)
      → IsWired w
      → is_some w.client.thread ≡ true
      → let (o, w', es) = perform jid_of (Turn.ask r) w in
        (connects (Turn.ask r) ≡ true → o ≡ terminated)
        × (connects (Turn.ask r) ≡ false → (o ≡ done tt) × (w'.client.thread ≡ w.client.thread))
  unfolding perform request Api.connect Api.send_message Listener.setup Listener.send_message
  ask_again (Request.connect user server) w wired started =
      (λ h. ground (arith, wired.threads_join), λ h. ground arith)
  ask_again (Request.send_message recipient message subject) w wired started =
      (λ h. ground arith, λ h. ground arith)

  -- A `connect` that is not refused ends the process, whatever calls come before it.
  asks-terminated :
      (rs : List Request) (w : World)
      → IsWired w
      → is_some w.client.thread ≡ true
      → any_connects (map Turn.ask rs) ≡ true
      → (perform_all jid_of (map Turn.ask rs) w).0 ≡ terminated
  unfolding perform_all any_connects
  asks-terminated [] w wired started h = ground arith
  asks-terminated (r ∷ rs) w wired started h =
      let w' = (perform jid_of (Turn.ask r) w).1 in
      let (ends, goes_on) = ask_again r w wired started in
      let rest = asks-terminated rs w' (perform-IsWired jid_of (Turn.ask r) w wired) in
      elim (Bool-cases (connects (Turn.ask r))) [
        | inl p ↦ ground (arith, ends p)
        | inr p ↦ ground (arith, goes_on p, rest)
      ]

  callback-thread :
      (c : Callback) (w : World)
      → (perform jid_of (Turn.callback c) w).1.client.thread ≡ w.client.thread
  unfolding perform
  callback-thread c w = ground (arith, deliver-SameWires c w)

  module _ (replies : Signal → Bool → List Request) where
    -- Once a thread was started, a slot that reconnects ends the process: a callback that would return
    -- without slots ends it, if to one of the signals that it raises some slot answers by a `connect`
    -- with a user and a server.
    pub reconnect_terminated :
        (c : Callback) (w : World)
        → IsWired w
        → is_some w.client.thread ≡ true
        → let (o, w', es) = perform jid_of (Turn.callback c) w in
          o ≡ done tt
          → any_connects (replied jid_of replies w' (signals es)) ≡ true
          → (perform_with jid_of replies (Turn.callback c) w).0 ≡ terminated
    unfolding replied
    reconnect_terminated c w wired started well h =
        let (o, w', es) = perform jid_of (Turn.callback c) w in
        let kept : is_some w'.client.thread ≡ true = rw (callback-thread c w) started in
        let ends =
          asks-terminated (answers jid_of replies (Api.is_connected w') (signals es)) w'
            (perform-IsWired jid_of (Turn.callback c) w wired) kept h in
        ap (λ r. r.0) (perform_with-Replied jid_of replies (Turn.callback c) w)
        ∙ ground (arith, ends)
