-- ===== src/World/Relations.antt =====
-- Relations between the worlds before and after a run and its effects, whatever way it ends.
use cinder_xmpp.Prelude.{List, [], ◌++◌, append-nil}
use mathlib.Core.Path.{subst}
use cinder_xmpp.World.{
  World, Effect, Outcome, done, threw, undefined, terminated, Action, ◌>>=◌, pure,
}
use cinder_xmpp.World.Laws.{resume}

-- A relation of a run that does nothing, and of two runs in a row.
pub record Sequential (R : World → World → List Effect → Type 0) : Type 0 where
  pub nothing : (w : World) → R w w []
  pub both : (w v u : World) (es fs : List Effect) → R w v es → R v u fs → R w u (es ++ fs)

module _ (R : World → World → List Effect → Type 0) where
  -- The relation has all runs of this.
  abbrev pub Holds : {A : Type 0} → Action A → Type 0
  Holds m = (w : World) → R w (m w).1 (m w).2

  -- A run whose value is then dropped.
  pub dropped :
      {A : Type 0} (w : World) (r : Outcome A) (v : World) (es : List Effect)
      → (let t = resume (r, v, es) (λ _. pure tt) in R w t.1 t.2)
      → R w v es
  dropped w (done a) v es h = subst (R w v) (append-nil es) h
  dropped w (threw x) v es h = h
  dropped w undefined v es h = h
  dropped w terminated v es h = h

  module _ (laws : Sequential R) where
    resume-Holds :
        {A B : Type 0} (k : A → Action B) (w : World) (r : Outcome A) (v : World) (es : List Effect)
        → R w v es
        → ((a : A) → Holds (k a))
        → R w (resume (r, v, es) k).1 (resume (r, v, es) k).2
    resume-Holds k w (done a) v es h f = laws.both w v (k a v).1 es (k a v).2 h (f a v)
    resume-Holds k w (threw x) v es h f = h
    resume-Holds k w undefined v es h f = h
    resume-Holds k w terminated v es h f = h

    pub >>=-Holds :
        {A B : Type 0} (m : Action A) (k : A → Action B)
        → Holds m
        → ((a : A) → Holds (k a))
        → Holds (m >>= k)
    >>=-Holds m k h f w = resume-Holds k w (m w).0 (m w).1 (m w).2 (h w) f
