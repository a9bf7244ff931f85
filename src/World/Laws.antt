-- ===== src/World/Laws.antt =====
-- How a run goes on after a part of it, and that only the order of the parts counts.
use cinder_xmpp.Prelude.{◌≡◌, refl, ap, List, [], ◌∷◌, ◌++◌, append_assoc}
use cinder_xmpp.World.{
  World, Effect, Signal, Outcome, done, threw, undefined, terminated, Action, ◌>>=◌,
}

abbrev pub Run : Type 0 → Type 0
Run A = Outcome A × World × List Effect

module _ {A B : Type 0} where
  -- A run that goes on from another one; `m >>= k` at `w` is `resume (m w) k`.
  abbrev pub resume : Run A → (A → Action B) → Run B
  resume (r, w', es) k = ((λ _. (r, w', es)) >>= k) w'

  pub >>=-done :
      (m : Action A) (k : A → Action B) (w : World) {w' : World} {es : List Effect} {a : A}
      → m w ≡ (done a, w', es)
      → (m >>= k) w ≡ ((k a w').0, (k a w').1, es ++ (k a w').2)
  >>=-done m k w e = ap {B = Run B} (λ t. resume t k) e

  resume-emitted :
      (es : List Effect) (r : Outcome A) (w : World) (fs : List Effect) (k : A → Action B)
      → let (s, v, gs) = resume (r, w, fs) k in resume (r, w, es ++ fs) k ≡ (s, v, es ++ gs)
  resume-emitted es (done a) w fs k = simp append_assoc
  resume-emitted es (threw x) w fs k = refl
  resume-emitted es undefined w fs k = refl
  resume-emitted es terminated w fs k = refl

module _ {A B C : Type 0} (k : A → Action B) (l : B → Action C) where
  resume_assoc :
      (r : Outcome A) (w : World) (es : List Effect)
      → resume (resume (r, w, es) k) l ≡ resume (r, w, es) (λ a. k a >>= l)
  resume_assoc (done a) w es = resume-emitted es (k a w).0 (k a w).1 (k a w).2 l
  resume_assoc (threw x) w es = refl
  resume_assoc undefined w es = refl
  resume_assoc terminated w es = refl

  pub >>=_assoc : (m : Action A) (w : World) → ((m >>= k) >>= l) w ≡ (m >>= λ a. k a >>= l) w
  >>=_assoc m w = resume_assoc (m w).0 (m w).1 (m w).2

-- The signals among the effects, in order.
unfoldable pub signals : List Effect → List Signal
signals [] = []
signals (Effect.signal s ∷ es) = s ∷ signals es
signals (_ ∷ es) = signals es

pub signals-append : (es fs : List Effect) → signals (es ++ fs) ≡ signals es ++ signals fs
unfolding signals
signals-append [] fs = refl
signals-append (Effect.call c ∷ es) fs = signals-append es fs
signals-append (Effect.signal s ∷ es) fs = ap (◌∷◌ s) (signals-append es fs)
signals-append (Effect.start_thread t ∷ es) fs = signals-append es fs
signals-append (Effect.console l a m ∷ es) fs = signals-append es fs
