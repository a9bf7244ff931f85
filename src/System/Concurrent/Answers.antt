-- ===== src/System/Concurrent/Answers.antt =====
-- The callbacks among turns, and the calls with their answers.
use cinder_xmpp.Prelude.{◌≡◌, refl, sym, ap, ◌∙◌, Str, Bool, List, [], ◌∷◌, ◌++◌, map, append_assoc}
use cinder_xmpp.Gloox.{Jid}
use cinder_xmpp.World.{World, Action, Outcome, done, threw, undefined, terminated}
use cinder_xmpp.World.Laws.{Run, resume}
use cinder_xmpp.System.{Callback, Request, Turn, request, perform, perform_all}
use cinder_xmpp.System.Wiring.{perform_all-append}

-- The callbacks among the turns.
unfoldable pub callbacks_of : List Turn → List Callback
callbacks_of [] = []
callbacks_of (Turn.callback c ∷ ts) = c ∷ callbacks_of ts
callbacks_of (Turn.ask r ∷ ts) = callbacks_of ts

pub callbacks_of-append :
    (ts us : List Turn) → callbacks_of (ts ++ us) ≡ callbacks_of ts ++ callbacks_of us
unfolding callbacks_of
callbacks_of-append [] us = refl
callbacks_of-append (Turn.callback c ∷ ts) us = ap (◌∷◌ c) (callbacks_of-append ts us)
callbacks_of-append (Turn.ask r ∷ ts) us = callbacks_of-append ts us

callbacks_of-map : (cs : List Callback) → callbacks_of (map Turn.callback cs) ≡ cs
unfolding callbacks_of
callbacks_of-map [] = refl
callbacks_of-map (c ∷ cs) = ap (◌∷◌ c) (callbacks_of-map cs)

pub callbacks_of-around :
    (r : Request) (before after : List Callback)
    → callbacks_of (map Turn.callback before ++ Turn.ask r ∷ map Turn.callback after)
      ≡ before ++ after
unfolding callbacks_of
callbacks_of-around r before after =
    callbacks_of-append (map Turn.callback before) (Turn.ask r ∷ map Turn.callback after)
    ∙ (λ i. callbacks_of-map before i ++ callbacks_of-map after i)

resume-done :
    (k : Action (Unit {0})) (r : Run (Unit {0}))
    → (resume r (λ _. k)).0 ≡ done tt
    → ((k r.1).0 ≡ done tt) × ((resume r (λ _. k)).1 ≡ (k r.1).1)
resume-done k (done a, w, es) h = (h, refl)
resume-done k (threw e, w, es) h = cc
resume-done k (undefined, w, es) h = cc
resume-done k (terminated, w, es) h = cc

resume-well :
    (k : Action (Unit {0})) (r : Run (Unit {0})) → (resume r (λ _. k)).0 ≡ done tt → r.0 ≡ done tt
resume-well k (done a, w, es) h = refl
resume-well k (threw e, w, es) h = cc
resume-well k (undefined, w, es) h = cc
resume-well k (terminated, w, es) h = cc

module _ (jid_of : Str → Jid) where
  -- The call that a turn makes, with its answer.
  unfoldable pub answer : Turn → World → List (Request × Bool)
  answer (Turn.callback c) w = []
  answer (Turn.ask r) w = elim (request jid_of r w).0 [ done b ↦ (r, b) ∷ [] | _ ↦ [] ]

  unfoldable pub answers : List Turn → World → List (Request × Bool)
  unfolding answer
  answers [] w = []
  answers (t ∷ ts) w = answer t w ++ answers ts (perform jid_of t w).1

  pub answers-append :
      (ts us : List Turn) (w : World)
      → (perform_all jid_of ts w).0 ≡ done tt
      → answers (ts ++ us) w ≡ answers ts w ++ answers us (perform_all jid_of ts w).1
  unfolding answers perform_all
  answers-append [] us w h = refl
  answers-append (t ∷ ts) us w h =
      let (well, same) = resume-done (perform_all jid_of ts) (perform jid_of t w) h in
      ap (λ rs. answer t w ++ rs) (answers-append ts us (perform jid_of t w).1 well)
      ∙ sym (
          append_assoc (answer t w) (answers ts (perform jid_of t w).1)
            (answers us (perform_all jid_of ts (perform jid_of t w).1).1))
      ∙ ap (λ v. (answer t w ++ answers ts (perform jid_of t w).1) ++ answers us v) (sym same)

  answers-callbacks : (cs : List Callback) (w : World) → answers (map Turn.callback cs) w ≡ []
  unfolding answers
  answers-callbacks [] w = refl
  answers-callbacks (c ∷ cs) w = answers-callbacks cs (perform jid_of (Turn.callback c) w).1

  pub append-done :
      (ts us : List Turn) (w : World)
      → (perform_all jid_of (ts ++ us) w).0 ≡ done tt
      → (perform_all jid_of ts w).0 ≡ done tt
  append-done ts us w h =
      resume-well (perform_all jid_of us) (perform_all jid_of ts w)
        (ap (λ m. (m w).0) (sym (perform_all-append jid_of ts us)) ∙ h)

  -- The answer of a call that stands between callbacks.
  pub answers-around :
      (r : Request) (before after : List Callback) (w : World) {b : Bool}
      → (perform_all jid_of (map Turn.callback before) w).0 ≡ done tt
      → (request jid_of r (perform_all jid_of (map Turn.callback before) w).1).0 ≡ done b
      → answers (map Turn.callback before ++ Turn.ask r ∷ map Turn.callback after) w ≡ (r, b) ∷ []
  unfolding answers
  answers-around r before after w {b} h e =
      let v = (perform_all jid_of (map Turn.callback before) w).1 in
      answers-append (map Turn.callback before) (Turn.ask r ∷ map Turn.callback after) w h
      ∙ ap (λ rs. rs ++ answers (Turn.ask r ∷ map Turn.callback after) v)
          (answers-callbacks before w)
      ∙ ap
          (λ (o : Outcome Bool).
            elim o as (λ _. List (Request × Bool)) [ done b ↦ (r, b) ∷ [] | _ ↦ [] ]
            ++ answers (map Turn.callback after) (perform jid_of (Turn.ask r) v).1)
          e
      ∙ ap (λ rs. (r, b) ∷ rs) (answers-callbacks after (perform jid_of (Turn.ask r) v).1)
