-- ===== src/System/Concurrent/Steps/Moves.antt =====
-- The steps of the two threads, with callbacks whole: what each does to how far the application's
-- thread is.
use cinder_xmpp.Prelude.{
  suc, ◌≡◌, refl, sym, ap, ◌∙◌, Str, is_empty, Bool, true, false, ◌||◌, Option, List, [], ◌∷◌, ◌++◌,
  map, append-nil, append_assoc,
}
use mathlib.Core.Path.{subst}
use mathlib.Core.List.{map-append}
use cinder_xmpp.Gloox.{Jid}
use cinder_xmpp.World.{World, Effect, Thread, done}
use cinder_xmpp.System.{Callback, deliver, Request, Turn, perform_all}
use cinder_xmpp.System.Interleaving.{
  Sending, addressing, answered, is_over, advance, here, step, callback,
}
use cinder_xmpp.System.Interleaving.Quiet.{perform_all-join, perform_all-callback}
use cinder_xmpp.System.Interleaving.Point.{heard}
use cinder_xmpp.System.Concurrent.{dial, store, Reaches, told, messaged, refused, connected}
use cinder_xmpp.System.Concurrent.Steps.{Task}
use cinder_xmpp.System.Concurrent.Steps.Coarsely.{Same, Same-append, Coarse}

module _ (jid_of : Str → Jid) (w : World) where
  abbrev Whole : List (Request × Bool) → List Callback → Task → World → List Effect → Type 0
  Whole = Coarse jid_of w

  pub told-Coarse :
      (rs : List (Request × Bool)) (cs : List Callback) (w' : World) (es : List Effect) (k : Task)
      (c : Callback) {b : Option Bool}
      → (deliver c w').0 ≡ done b
      → Whole rs cs k w' es
      → Whole rs (cs ++ c ∷ []) k (deliver c w').1 (es ++ (deliver c w').2)
  unfolding heard
  told-Coarse rs cs w' es Task.idle c h p = record {
    effects = p.effects ++ (deliver c w').2;
    run = told c p.run h;
    same = Same-append p.effects es (deliver c w').2 p.same;
  }
  told-Coarse rs cs w' es (Task.sending recipient message subject s) c h p = record {
    earlier = p.earlier;
    mid = p.mid;
    effects = p.effects;
    before = p.before;
    count = p.count;
    fs = p.fs ++ (deliver c w').2;
    run = callback c p.run h;
    cut =
        sym (append_assoc p.earlier (heard jid_of recipient message subject p.mid p.run) (c ∷ []))
        ∙ ap (λ cs. cs ++ c ∷ []) p.cut;
    same =
        subst (λ fs. Same fs (es ++ (deliver c w').2))
          (append_assoc p.effects p.fs (deliver c w').2)
          (Same-append (p.effects ++ p.fs) es (deliver c w').2 p.same);
  }
  told-Coarse rs cs w' es (Task.storing user server t) c h p = record {
    earlier = p.earlier;
    mid = p.mid;
    effects = p.effects;
    before = p.before;
    given = p.given;
    v = p.v;
    fs = p.fs;
    dialled = p.dialled;
    meanwhile = p.meanwhile ++ c ∷ [];
    gs = p.gs ++ (deliver c w').2;
    ran =
        ap (λ ts. perform_all jid_of ts p.v) (map-append Turn.callback p.meanwhile (c ∷ []))
        ∙ perform_all-join jid_of (map Turn.callback p.meanwhile) (Turn.callback c ∷ []) p.v p.ran
            (perform_all-callback jid_of c w' h);
    cut = sym (append_assoc p.earlier p.meanwhile (c ∷ [])) ∙ ap (λ cs. cs ++ c ∷ []) p.cut;
    same =
        subst (λ fs. Same fs (es ++ (deliver c w').2))
          (append_assoc p.effects (p.fs ++ p.gs) (deliver c w').2
            ∙ ap (λ es. p.effects ++ es) (append_assoc p.fs p.gs (deliver c w').2))
          (Same-append (p.effects ++ (p.fs ++ p.gs)) es (deliver c w').2 p.same);
  }

  module _ {rs : List (Request × Bool)} {cs : List Callback} {w' : World} {es : List Effect} where
    pub call-Coarse :
        (recipient message subject : Str)
        → Whole rs cs Task.idle w' es
        → Whole rs cs (Task.sending recipient message subject addressing) w' es
    unfolding heard
    call-Coarse recipient message subject p = record {
      earlier = cs;
      mid = w';
      effects = p.effects;
      before = p.run;
      count = 0;
      fs = [];
      run = here refl;
      cut = append-nil cs;
      same = subst (λ fs. Same fs es) (sym (append-nil p.effects)) p.same;
    }

    pub step-Coarse :
        (recipient message subject : Str) (s : Sending)
        → is_over s ≡ false
        → Whole rs cs (Task.sending recipient message subject s) w' es
        → let (s', gs) = advance jid_of recipient message subject s w' in
          Whole rs cs (Task.sending recipient message subject s') w' (es ++ gs)
    unfolding heard
    step-Coarse recipient message subject s o p =
        let gs = (advance jid_of recipient message subject s w').1 in
        record {
          earlier = p.earlier;
          mid = p.mid;
          effects = p.effects;
          before = p.before;
          count = suc p.count;
          fs = p.fs ++ gs;
          run = step p.run o;
          cut = p.cut;
          same =
              subst (λ fs. Same fs (es ++ gs)) (append_assoc p.effects p.fs gs)
                (Same-append (p.effects ++ p.fs) es gs p.same);
        }

    pub answer-Coarse :
        (recipient message subject : Str) (b : Bool)
        → Whole rs cs (Task.sending recipient message subject (answered b)) w' es
        → Whole (rs ++ (Request.send_message recipient message subject, b) ∷ []) cs Task.idle w' es
    answer-Coarse recipient message subject b p = record {
      effects = p.effects ++ p.fs;
      run =
          subst
            (λ cs.
              Reaches jid_of w (rs ++ (Request.send_message recipient message subject, b) ∷ []) cs
                w' (p.effects ++ p.fs))
            p.cut (messaged recipient message subject p.before p.run);
      same = p.same;
    }

    pub refuse-Coarse :
        (user server : Str)
        → (is_empty user || is_empty server) ≡ true
        → Whole rs cs Task.idle w' es
        → Whole (rs ++ (Request.connect user server, false) ∷ []) cs Task.idle w' es
    refuse-Coarse user server h p = record {
      effects = p.effects;
      run = refused user server p.run h;
      same = p.same;
    }

    pub dialling-Coarse :
        (user server : Str) {t : Thread} {v : World} {fs : List Effect}
        → (is_empty user || is_empty server) ≡ false
        → dial jid_of user server w' ≡ (done t, v, fs)
        → Whole rs cs Task.idle w' es
        → Whole rs cs (Task.storing user server t) v (es ++ fs)
    unfolding perform_all
    dialling-Coarse user server {v = v} {fs = fs} given dialled p = record {
      earlier = cs;
      mid = w';
      effects = p.effects;
      before = p.run;
      given = given;
      v = v;
      fs = fs;
      dialled = dialled;
      meanwhile = [];
      gs = [];
      ran = refl;
      cut = append-nil cs;
      same =
          subst (λ gs. Same (p.effects ++ gs) (es ++ fs)) (sym (append-nil fs))
            (Same-append p.effects es fs p.same);
    }

    pub stored-Coarse :
        (user server : Str) (t : Thread) {b : Bool} {v : World} {hs : List Effect}
        → store t w' ≡ (done b, v, hs)
        → Whole rs cs (Task.storing user server t) w' es
        → Whole (rs ++ (Request.connect user server, b) ∷ []) cs Task.idle v (es ++ hs)
    stored-Coarse user server t {b} {v} {hs} h p = record {
      effects = p.effects ++ (p.fs ++ (p.gs ++ hs));
      run =
          subst
            (λ cs.
              Reaches jid_of w (rs ++ (Request.connect user server, b) ∷ []) cs v
                (p.effects ++ (p.fs ++ (p.gs ++ hs))))
            p.cut (connected user server p.meanwhile p.before p.given p.dialled p.ran h);
      same =
          subst (λ fs. Same fs (es ++ hs))
            (append_assoc p.effects (p.fs ++ p.gs) hs
              ∙ ap (λ es. p.effects ++ es) (append_assoc p.fs p.gs hs))
            (Same-append (p.effects ++ (p.fs ++ p.gs)) es hs p.same);
    }
