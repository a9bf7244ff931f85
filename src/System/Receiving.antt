-- ===== src/System/Receiving.antt =====
-- src/XmppListener.cpp, `openConnection`: the loop around `recv`, on the thread that `connect` starts.
use cinder_xmpp.Prelude.{
  Bool-cases, inl, inr, append-nil, ◌≡◌, refl, ◌<◌, false, Str, List, [], ◌∷◌, ◌++◌, map, arith,
  ◌==◌, if◌then◌else◌,
}
use cinder_xmpp.Gloox.{Jid, null, Call, ConnectionError}
use cinder_xmpp.World.{
  World, Outcome, done, threw, undefined, terminated, Effect, call, Action, ◌>>◌, pure,
}
use cinder_xmpp.World.Laws.{signals, signals-append, Run, resume}
use cinder_xmpp.Listener
use cinder_xmpp.Listener.{is_no_error, Progress, returned, receiving}
use cinder_xmpp.System.{Turn, perform_all}
use cinder_xmpp.System.Wiring.{
  IsWired, perform_all-IsWired, perform_all-client_pos, perform_all-append,
}

-- What `recv` does each time: the turns that take place meanwhile, and the answer.
abbrev pub Script : Type 0
Script = List (List Turn × ConnectionError)

-- The turns up to the first answer that is an error.
unfoldable pub received : Script → List Turn
received [] = []
received ((ts, ce) ∷ script) = ts ++ (if is_no_error ce then received script else [])

unfoldable pub progress : Script → Progress
progress [] = receiving
progress ((ts, ce) ∷ script) = if is_no_error ce then progress script else returned

-- How a run ends that has nothing more to do than these turns.
abbrev pub ends_as : {A : Type 0} → A → Outcome (Unit {0}) → Outcome A
ends_as a (done _) = done a
ends_as a (threw x) = threw x
ends_as a undefined = undefined
ends_as a terminated = terminated

-- A run of the loop does the same as some turns, and then ends as `p` says.
abbrev pub Follows : Progress → Run Progress → Run (Unit {0}) → Type 0
Follows p (r, w, es) (s, v, fs) = (r ≡ ends_as p s) × (w ≡ v) × (signals es ≡ signals fs)

pub resume-Follows :
    (p : Progress) (k : Action Progress) (l : Action (Unit {0})) (r : Outcome (Unit {0}))
    (w : World) (es : List Effect)
    → Follows p (k w) (l w)
    → Follows p (resume (r, w, es) (λ _. k)) (resume (r, w, es) (λ _. l))
resume-Follows p k l (done a) w es (h0, h1, h2) = (h0, h1, simp (signals-append, h2))
resume-Follows p k l (threw x) w es h = (refl, refl, refl)
resume-Follows p k l undefined w es h = (refl, refl, refl)
resume-Follows p k l terminated w es h = (refl, refl, refl)

pub resume-pure :
    {A : Type 0} (f : A → Action Progress) (a : A) (r : Outcome (Unit {0})) (w : World)
    (es : List Effect)
    → resume (resume (r, w, es) (λ _. pure a)) f ≡ resume (r, w, es) (λ _. f a)
resume-pure f a (done x) w es = simp append-nil
resume-pure f a (threw x) w es = refl
resume-pure f a undefined w es = refl
resume-pure f a terminated w es = refl

module _ (jid_of : Str → Jid) where
  abbrev pub answer_of : List Turn × ConnectionError → Action ConnectionError
  answer_of (ts, ce) = do perform_all jid_of ts; pure ce

  -- One round of the loop.
  abbrev pub round :
      List Turn → ConnectionError → List (Action ConnectionError) → World → Run Progress
  round ts ce answers w =
      resume (perform_all jid_of ts w)
        (λ _. if is_no_error ce then Listener.recv_loop answers else pure returned)

  pub loop-cons :
      (ts : List Turn) (ce : ConnectionError) (answers : List (Action ConnectionError)) (w : World)
      → 0 < w.client.listener.client
      → let (r, w', es) = round ts ce answers w in
        Listener.recv_loop (answer_of (ts, ce) ∷ answers) w
        ≡ (r, w', call (Call.recv w.client.listener.client) ∷ es)
  unfolding Listener.recv_loop
  loop-cons ts ce answers w c =
      let some_client : (w.client.listener.client == null) ≡ false = ground arith in
      let (r, w', es) = perform_all jid_of ts w in
      let e =
        resume-pure (λ e. if is_no_error e then Listener.recv_loop answers else pure returned) ce r
          w' es in
      rw some_client (λ i. ((e i).0, (e i).1, call (Call.recv w.client.listener.client) ∷ (e i).2))

  pub stopped-Follows : (w : World) → Follows returned (pure returned w) (perform_all jid_of [] w)
  unfolding perform_all
  stopped-Follows w = (refl, refl, refl)

  waiting-Follows :
      (w : World)
      → 0 < w.client.listener.client
      → Follows receiving (Listener.recv_loop [] w) (perform_all jid_of [] w)
  unfolding Listener.recv_loop perform_all signals
  waiting-Follows w c = ground arith

  round-Follows :
      (ts : List Turn) (ce : ConnectionError) (script : Script) (w : World)
      → Follows
          (progress script)
          (Listener.recv_loop (map answer_of script) (perform_all jid_of ts w).1)
          (perform_all jid_of (received script) (perform_all jid_of ts w).1)
      → Follows
          (progress ((ts, ce) ∷ script))
          (round ts ce (map answer_of script) w)
          (perform_all jid_of (received ((ts, ce) ∷ script)) w)
  unfolding received progress
  round-Follows ts ce script w ih =
      let (r, w', es) = perform_all jid_of ts w in
      elim (Bool-cases (is_no_error ce)) [
        | inl ok ↦
            rw (ok, perform_all-append jid_of ts (received script))
              (resume-Follows (progress script) (Listener.recv_loop (map answer_of script))
                (perform_all jid_of (received script)) r w' es ih)
        | inr failed ↦
            rw (failed, perform_all-append jid_of ts [])
              (resume-Follows returned (pure returned) (perform_all jid_of []) r w' es
                (stopped-Follows w'))
      ]

  pub recv_loop_lem :
      (script : Script) (w : World)
      → 0 < w.client.listener.client
      → IsWired w
      → Follows
          (progress script)
          (Listener.recv_loop (map answer_of script) w)
          (perform_all jid_of (received script) w)
  unfolding signals received progress
  recv_loop_lem [] w c wired = waiting-Follows w c
  recv_loop_lem ((ts, ce) ∷ script) w c wired =
      let ih =
        recv_loop_lem script (perform_all jid_of ts w).1
          (perform_all-client_pos jid_of ts w wired c) (perform_all-IsWired jid_of ts w wired) in
      rw (loop-cons ts ce (map answer_of script) w c) (round-Follows ts ce script w ih)
