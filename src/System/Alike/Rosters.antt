-- ===== src/System/Alike/Rosters.antt =====
-- The order of the items of a roster, and what comes after it.
use cinder_xmpp.Prelude.{
  ◌≡◌, refl, sym, ap, ◌∙◌, Str, List, [], ◌∷◌, ◌++◌, arith, Bool-cases, ◌==◌, inl, inr,
}
use mathlib.Core.Path.{subst}
use mathlib.Core.List.{Perm}
use cinder_xmpp.Gloox.{null, Jid, Roster}
use cinder_xmpp.World.{
  World, Effect, signal, Signal, Action, Outcome, done, threw, undefined, terminated,
}
use cinder_xmpp.World.Laws.{Run, resume}
use cinder_xmpp.Client
use cinder_xmpp.Client.Rosters.{names, handle_roster_lem}
use cinder_xmpp.Client.Orders.{handle_roster-perm}
use cinder_xmpp.Client.Frame.{handle_roster-SameButRoster}
use cinder_xmpp.Listener
use cinder_xmpp.System.{Callback, deliver, Turn, perform, perform_all}
use cinder_xmpp.System.Refinement.{perform-void}
use cinder_xmpp.System.Wiring.{perform_all-append}
use cinder_xmpp.System.Alike.{Alike, perform_all-Alike}

-- The effects but for the signals that tell a roster.
unfoldable pub unrostered : List Effect → List Effect
unrostered [] = []
unrostered (signal (Signal.roster userlist) ∷ es) = unrostered es
unrostered (e ∷ es) = e ∷ unrostered es

unrostered-append : (es fs : List Effect) → unrostered (es ++ fs) ≡ unrostered es ++ unrostered fs
unfolding unrostered
unrostered-append [] fs = refl
unrostered-append (signal (Signal.roster userlist) ∷ es) fs = unrostered-append es fs
unrostered-append (Effect.signal s ∷ es) fs = ap (◌∷◌ (signal s)) (unrostered-append es fs)
unrostered-append (e ∷ es) fs = ap (◌∷◌ e) (unrostered-append es fs)

-- Runs that end alike, with the same effects but for the rosters that they tell.
abbrev pub SameButOrder : Run (Unit {0}) → Run (Unit {0}) → Type 0
SameButOrder (r, w, es) (s, v, fs) = (r ≡ s) × (unrostered es ≡ unrostered fs) × Alike w v

Alike-refl : (w : World) → Alike w w
Alike-refl w = ground arith

SameButOrder-refl : (r : Run (Unit {0})) → SameButOrder r r
SameButOrder-refl r = (refl, refl, Alike-refl r.1)

-- What follows runs of this kind follows both.
resume-SameButOrder :
    (k l : Action (Unit {0})) (r s : Outcome (Unit {0})) (w v : World) (es fs : List Effect)
    → SameButOrder (r, w, es) (s, v, fs)
    → SameButOrder (k w) (l v)
    → SameButOrder (resume (r, w, es) (λ _. k)) (resume (s, v, fs) (λ _. l))
resume-SameButOrder k l r s w v es fs (e, f, a) next =
    subst
      (λ (o : Outcome (Unit {0})).
        SameButOrder (resume (r, w, es) (λ _. k)) (resume (o, v, fs) (λ _. l)))
      e (same_outcome r)
  where
    same_outcome :
        (r : Outcome (Unit {0}))
        → SameButOrder (resume (r, w, es) (λ _. k)) (resume (r, v, fs) (λ _. l))
    same_outcome (done x) = (
      next.0,
      unrostered-append es (k w).2 ∙ (λ i. f i ++ next.1 i) ∙ sym (unrostered-append fs (l v).2),
      next.2,
    )
    same_outcome (threw x) = (refl, f, a)
    same_outcome undefined = (refl, f, a)
    same_outcome terminated = (refl, f, a)

module _ (items others : Roster) (perm : Perm (names items) (names others)) where
  client-SameButOrder :
      (w : World) → SameButOrder (Client.handle_roster items w) (Client.handle_roster others w)
  unfolding unrostered
  client-SameButOrder w =
      let (r, es, _, _) = handle_roster_lem items w in
      let (s, fs, _, _) = handle_roster_lem others w in
      let same = handle_roster-SameButRoster items w in
      let same' = handle_roster-SameButRoster others w in
      (
        r ∙ sym s,
        ap unrostered es ∙ sym (ap unrostered fs),
        record {
          self = same.self ∙ sym same'.self;
          fresh = same.fresh ∙ sym same'.fresh;
          listener = same.listener ∙ sym same'.listener;
          thread = same.thread ∙ sym same'.thread;
          finds = handle_roster-perm items others w w perm;
        },
      )

  listener-SameButOrder :
      (w : World) → SameButOrder (Listener.handle_roster items w) (Listener.handle_roster others w)
  unfolding Listener.handle_roster
  listener-SameButOrder w = elim (Bool-cases (w.client.listener.delegate == null)) [
    | inl none_there ↦ rw none_there (refl, refl, Alike-refl w)
    | inr some_there ↦ rw some_there (elim (Bool-cases (w.client.listener.delegate == w.self)) [
      | inl attached ↦ rw attached (client-SameButOrder w)
      | inr dangling ↦ rw dangling (refl, refl, Alike-refl w)
    ])
  ]

  module _ (jid_of : Str → Jid) where
    turn-SameButOrder :
        (w : World)
        → SameButOrder
            (perform jid_of (Turn.callback (Callback.handle_roster items)) w)
            (perform jid_of (Turn.callback (Callback.handle_roster others)) w)
    unfolding perform deliver
    turn-SameButOrder w =
        rw
          (
            perform-void (Listener.handle_roster items) w,
            perform-void (Listener.handle_roster others) w,
          )
          (listener-SameButOrder w)

    since-SameButOrder :
        (us : List Turn) (w : World)
        → SameButOrder
            (perform_all jid_of (Turn.callback (Callback.handle_roster items) ∷ us) w)
            (perform_all jid_of (Turn.callback (Callback.handle_roster others) ∷ us) w)
    unfolding perform_all
    since-SameButOrder us w =
        let (r, v, es) = perform jid_of (Turn.callback (Callback.handle_roster items)) w in
        let (s, u, fs) = perform jid_of (Turn.callback (Callback.handle_roster others)) w in
        let first = turn-SameButOrder w in
        let (o, same, alike) = perform_all-Alike jid_of us v u first.2 in
        resume-SameButOrder (perform_all jid_of us) (perform_all jid_of us) r s v u es fs first
          (o, ap unrostered same, alike)

    -- The order in which a roster comes never matters again: with its items in another order, whatever
    -- comes before and after it, the run ends the same way, in a world that differs at most in how the
    -- roster is held, with the same calls and signals in the same order, but for the signals that tell
    -- a roster.
    pub roster-SameButOrder :
        (ts us : List Turn) (w : World)
        → SameButOrder
            (perform_all jid_of (ts ++ Turn.callback (Callback.handle_roster items) ∷ us) w)
            (perform_all jid_of (ts ++ Turn.callback (Callback.handle_roster others) ∷ us) w)
    roster-SameButOrder ts us w =
        let (r, v, es) = perform_all jid_of ts w in
        let this = Turn.callback (Callback.handle_roster items) ∷ us in
        let that = Turn.callback (Callback.handle_roster others) ∷ us in
        rw
          (
            ap (λ m. m w) (perform_all-append jid_of ts this),
            ap (λ m. m w) (perform_all-append jid_of ts that),
          )
          (resume-SameButOrder (perform_all jid_of this) (perform_all jid_of that) r r v v es es
            (SameButOrder-refl (r, v, es)) (since-SameButOrder us v))
