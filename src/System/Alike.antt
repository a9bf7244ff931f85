-- ===== src/System/Alike.antt =====
-- The order in which `std::unordered_map` holds its elements is no part of what the program does.
pub mod Members
pub mod Rosters
use cinder_xmpp.Client.Delegate
use cinder_xmpp.Prelude.{
  ◌≡◌, refl, sym, ◌∙◌, Str, none, some, List, [], ◌∷◌, arith, Option-cases, Bool-cases, ◌==◌, inl,
  inr,
}
use mathlib.Core.Path.{subst}
use cinder_xmpp.UnorderedMap.{UnorderedMap, find}
use cinder_xmpp.Gloox.{null, Jid, RosterItem, PresenceType}
use cinder_xmpp.Peer.{XmppPeer}
use cinder_xmpp.World.{World, Effect, Action, Outcome, done, threw, undefined, terminated}
use cinder_xmpp.World.Laws.{Run, resume}
use cinder_xmpp.Client
use cinder_xmpp.Client.Api
use cinder_xmpp.Client.Presences.{handle_roster_presence_found, missing_undefined}
use cinder_xmpp.Client.Frame.{handle_roster_presence-SameButRoster}
use cinder_xmpp.System.Refinement.{perform-void}
use cinder_xmpp.Listener
use cinder_xmpp.System.{Callback, deliver, Request, request, Turn, perform, perform_all}

-- Two worlds that differ at most in the order in which the roster is held.
pub record Alike (w v : World) : Type 0 where
  pub self : w.self ≡ v.self
  pub fresh : w.fresh ≡ v.fresh
  pub listener : w.client.listener ≡ v.client.listener
  pub thread : w.client.thread ≡ v.client.thread
  pub finds : (k : Str) → find k w.client.roster ≡ find k v.client.roster

-- Runs that end alike, with the same effects.
abbrev pub AlikeRuns : {A : Type 0} → Run A → Run A → Type 0
AlikeRuns (r, w, es) (s, v, fs) = (r ≡ s) × (es ≡ fs) × Alike w v

-- The same world with another roster.
abbrev with_roster : UnorderedMap XmppPeer → World → World
with_roster m w = record w { client = record w.client { roster = m } }

Alike-with_roster : {w v : World} → Alike w v → with_roster v.client.roster w ≡ v
Alike-with_roster {w} {v} a = λ i. record {
  self = a.self i;
  fresh = a.fresh i;
  client = record { listener = a.listener i; thread = a.thread i; roster = v.client.roster };
}

module _ (w : World) (m : UnorderedMap XmppPeer)
    (finds : (k : Str) → find k w.client.roster ≡ find k m) where
  unchanged : Alike w (with_roster m w)
  unchanged = record { self = refl; fresh = refl; listener = refl; thread = refl; finds = finds }

  request-Alike :
      (jid_of : Str → Jid) (r : Request)
      → AlikeRuns (perform jid_of (Turn.ask r) w) (perform jid_of (Turn.ask r) (with_roster m w))
  unfolding perform request Api.connect Api.send_message Listener.setup Listener.send_message
  request-Alike jid_of (Request.connect user server) = ground (arith, finds)
  request-Alike jid_of (Request.send_message recipient message subject) = ground (arith, finds)

  module _ (item : RosterItem) (resource : Str) (presence : PresenceType) (msg : Str) where
    abbrev handled : World → Run (Unit {0})
    handled = Client.handle_roster_presence item resource presence msg

    client_presence-Alike : AlikeRuns (handled w) (handled (with_roster m w))
    client_presence-Alike = elim (Option-cases (find item.jid_jid.username w.client.roster)) [
      | inl missing ↦
          rw
            (
              missing_undefined item resource presence msg w missing,
              missing_undefined item resource presence msg (with_roster m w)
                  (sym (finds item.jid_jid.username) ∙ missing),
            )
            (refl, refl, unchanged)
      | inr (p, found) ↦
          let (r, es, here) = handle_roster_presence_found item resource presence msg w found in
          let (s, fs, there) =
            handle_roster_presence_found item resource presence msg (with_roster m w)
              (sym (finds item.jid_jid.username) ∙ found) in
          let same = handle_roster_presence-SameButRoster item resource presence msg w in
          let same' =
            handle_roster_presence-SameButRoster item resource presence msg (with_roster m w) in
          (
            r ∙ sym s,
            es ∙ sym fs,
            record {
              self = same.self ∙ sym same'.self;
              fresh = same.fresh ∙ sym same'.fresh;
              listener = same.listener ∙ sym same'.listener;
              thread = same.thread ∙ sym same'.thread;
              finds = λ k. ground (arith, here k, there k, finds k);
            },
          )
    ]

    presence-Alike :
        AlikeRuns
          (Listener.handle_roster_presence item resource presence msg w)
          (Listener.handle_roster_presence item resource presence msg (with_roster m w))
    unfolding Listener.handle_roster_presence
    presence-Alike = elim (Bool-cases (w.client.listener.delegate == null)) [
      | inl none_there ↦ rw none_there (refl, refl, unchanged)
      | inr some_there ↦ rw some_there (elim (Bool-cases (w.client.listener.delegate == w.self)) [
        | inl attached ↦ rw attached client_presence-Alike
        | inr dangling ↦ rw dangling (refl, refl, unchanged)
      ])
    ]

  callback-Alike :
      (jid_of : Str → Jid) (c : Callback)
      → AlikeRuns
          (perform jid_of (Turn.callback c) w)
          (perform jid_of (Turn.callback c) (with_roster m w))
  unfolding perform deliver Listener.on_connect Listener.on_disconnect Listener.on_tls_connect
      Listener.handle_message Listener.handle_message_event Listener.handle_chat_state
      Listener.handle_message_session Listener.handle_roster Listener.handle_roster_presence
      Listener.handle_log Delegate.on_disconnect Delegate.on_tls_connect Delegate.handle_message
      Delegate.handle_roster Delegate.handle_roster_presence
  callback-Alike jid_of Callback.on_connect = ground (arith, finds)
  callback-Alike jid_of (Callback.on_disconnect e) = ground (arith, finds)
  callback-Alike jid_of (Callback.on_tls_connect info) = ground (arith, finds)
  callback-Alike jid_of (Callback.handle_message msg none) = ground (arith, finds)
  callback-Alike jid_of (Callback.handle_message msg (some s)) =
      ground (arith, finds, finds s.target.username)
  callback-Alike jid_of (Callback.handle_message_session s) = ground (arith, finds)
  callback-Alike jid_of (Callback.handle_roster items) = ground (arith, finds)
  callback-Alike jid_of (Callback.handle_roster_presence item resource presence msg) =
      let run = Listener.handle_roster_presence item resource presence msg in
      rw (perform-void run w, perform-void run (with_roster m w))
        (presence-Alike item resource presence msg)
  callback-Alike jid_of c = ground (arith, finds)

  turn-Alike :
      (jid_of : Str → Jid) (t : Turn)
      → AlikeRuns (perform jid_of t w) (perform jid_of t (with_roster m w))
  turn-Alike jid_of (Turn.callback c) = callback-Alike jid_of c
  turn-Alike jid_of (Turn.ask r) = request-Alike jid_of r

resume-Alike :
    (k : Action (Unit {0})) (r s : Outcome (Unit {0})) (w v : World) (es fs : List Effect)
    → AlikeRuns (r, w, es) (s, v, fs)
    → AlikeRuns (k w) (k v)
    → AlikeRuns (resume (r, w, es) (λ _. k)) (resume (s, v, fs) (λ _. k))
resume-Alike k r s w v es fs (e, f, a) next =
    subst
      (λ (o : Outcome (Unit {0})).
        AlikeRuns (resume (r, w, es) (λ _. k)) (resume (o, v, fs) (λ _. k)))
      e (same_outcome r)
  where
    same_outcome :
        (r : Outcome (Unit {0}))
        → AlikeRuns (resume (r, w, es) (λ _. k)) (resume (r, v, fs) (λ _. k))
    same_outcome (done x) = (next.0, rw (f, next.1), next.2)
    same_outcome (threw x) = (refl, f, a)
    same_outcome undefined = (refl, f, a)
    same_outcome terminated = (refl, f, a)

-- Two worlds that differ at most in the order in which the roster is held: any turns end alike in
-- both, with the same calls and signals in the same order, in worlds that differ at most so again.
pub perform_all-Alike :
    (jid_of : Str → Jid) (ts : List Turn) (w v : World)
    → Alike w v
    → AlikeRuns (perform_all jid_of ts w) (perform_all jid_of ts v)
unfolding perform_all
perform_all-Alike jid_of [] w v a = (refl, refl, a)
perform_all-Alike jid_of (t ∷ ts) w v a =
    let m = v.client.roster in
    let (r, w', es) = perform jid_of t w in
    let (s, v', fs) = perform jid_of t v in
    let first : AlikeRuns (r, w', es) (s, v', fs) =
      subst (λ u. AlikeRuns (perform jid_of t w) (perform jid_of t u)) (Alike-with_roster a)
        (turn-Alike w m a.finds jid_of t) in
    resume-Alike (perform_all jid_of ts) r s w' v' es fs first
      (perform_all-Alike jid_of ts w' v' first.2)
