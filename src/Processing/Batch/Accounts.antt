-- ===== src/Processing/Batch/Accounts.antt =====
-- What happens in the course of a batch, as the sequence of the handlings that it makes.
use mathlib.Core.List.{append-nil}
use fastsqs.Base.{List, [], ◌∷◌, ◌++◌, ◌≡◌, ap, ◌⊎◌, inl, inr, map}
use fastsqs.Base.{Among, at_head, at_tail, Among-append_left, Among-append_right}
use fastsqs.Value.{Value}
use fastsqs.Exceptions.{Exn, Res, ok, raise}
use fastsqs.Processing.{message_id}
use fastsqs.Processing.Batch.{Failures}

-- A record that was handled, and what came of it.
abbrev pub Handling : Type 0
Handling = Value × Res Value

-- `handle` is how a record is handled. `Says` is what else may change the world.
module _ {W : Type 0} (handle : Value → W → Res Value × W) (Says : W → W → Type 0) where
  -- From one world to another by handling these records one after the other, each in the world that
  -- the one before has left.
  pub data Runs : List Handling → W → W → Type 0 where
    over : {w : W} → Runs [] w w
    handled :
        {log : List Handling} {w w₁ w' : W} (r : Value) (q : Res Value)
        → handle r w ≡ (q, w₁)
        → Runs log w₁ w'
        → Runs ((r, q) ∷ log) w w'
    said : {log : List Handling} {w w₁ w' : W} → Says w w₁ → Runs log w₁ w' → Runs log w w'

  pub Runs-append :
      {log log' : List Handling} {w w₁ w' : W}
      → Runs log w w₁
      → Runs log' w₁ w'
      → Runs (log ++ log') w w'
  Runs-append over later = later
  Runs-append (handled r q ran rest) later = handled r q ran (Runs-append rest later)
  Runs-append (said moved rest) later = said moved (Runs-append rest later)

-- The record is among those that were handled with success, or its identifier is reported.
abbrev pub Settled : List Handling → Value → Failures → Type 0
Settled log r failures = ((v : Value) × Among (r, ok v) log) ⊎ Among (message_id r) failures

Settled-both :
    (log log' : List Handling) (r : Value) (fs gs : Failures)
    → Settled log r fs ⊎ Settled log' r gs
    → Settled (log ++ log') r (fs ++ gs)
Settled-both log log' r fs gs (inl (inl (v, a))) = inl (v, Among-append_left (r, ok v) log log' a)
Settled-both log log' r fs gs (inl (inr m)) = inr (Among-append_left (message_id r) fs gs m)
Settled-both log log' r fs gs (inr (inl (v, a))) = inl (v, Among-append_right (r, ok v) log log' a)
Settled-both log log' r fs gs (inr (inr m)) = inr (Among-append_right (message_id r) fs gs m)

Settled-later :
    (h : Handling) (log : List Handling) (r : Value) (fs : Failures)
    → Settled log r fs
    → Settled (h ∷ log) r fs
Settled-later h log r fs (inl (v, a)) = inl (v, at_tail a)
Settled-later h log r fs (inr m) = inr m

Settled-reported :
    (x : Value) (log : List Handling) (r : Value) (fs : Failures)
    → Settled log r fs
    → Settled log r (x ∷ fs)
Settled-reported x log r fs (inl a) = inl a
Settled-reported x log r fs (inr m) = inr (at_tail m)

module _ {W : Type 0} (handle : Value → W → Res Value × W) (Says : W → W → Type 0) where
  -- Between these worlds some records were handled, in one run, and each record of which `P` holds
  -- was handled in it with success or is among these failures.
  pub record Accounted (P : Value → Type 0) (failures : Failures) (w w' : W) : Type 0 where
    pub log : List Handling
    pub runs : Runs handle Says log w w'
    pub settled : (r : Value) → P r → Settled log r failures

  abbrev pub These : List Value → Value → Type 0
  These rs r = Among r rs

  pub nothing : (w : W) → Accounted (These []) [] w w
  nothing w = record { log = []; runs = over; settled = λ r here. elim here [ ] }

  head_or_tail :
      {x : Value} {rs : List Value} {log : List Handling} {fs : Failures} (r : Value)
      → ((r ≡ x) → Settled log r fs)
      → (Among r rs → Settled log r fs)
      → Among r (x ∷ rs)
      → Settled log r fs
  head_or_tail r h k (at_head e) = h e
  head_or_tail r h k (at_tail m) = k m

  pub succeeded :
      {x v : Value} {rs : List Value} {fs : Failures} {w w₁ w' : W}
      → handle x w ≡ (ok v, w₁)
      → Accounted (These rs) fs w₁ w'
      → Accounted (These (x ∷ rs)) fs w w'
  succeeded {x} {v} {rs} {fs} ran a = record {
    log = (x, ok v) ∷ a.log;
    runs = handled x (ok v) ran a.runs;
    settled = λ r.
        head_or_tail r (λ e. inl (v, at_head (ap (λ y. (y, ok v)) e)))
          (λ m. Settled-later (x, ok v) a.log r fs (a.settled r m));
  }

  pub failed :
      {x : Value} {e : Exn} {rs : List Value} {fs : Failures} {w w₁ w' : W}
      → handle x w ≡ (raise e, w₁)
      → Accounted (These rs) fs w₁ w'
      → Accounted (These (x ∷ rs)) (message_id x ∷ fs) w w'
  failed {x} {e} {rs} {fs} ran a = record {
    log = (x, raise e) ∷ a.log;
    runs = handled x (raise e) ran a.runs;
    settled = λ r.
        head_or_tail r (λ same. inr (at_head (ap message_id same)))
          (λ m.
            Settled-later (x, raise e) a.log r (message_id x ∷ fs)
              (Settled-reported (message_id x) a.log r fs (a.settled r m)));
  }

  pub skipped :
      {x : Value} {rs : List Value} {fs : Failures} {w w' : W}
      → Accounted (These rs) fs w w'
      → Accounted (These (x ∷ rs)) (message_id x ∷ fs) w w'
  skipped {x} {rs} {fs} a = record {
    log = a.log;
    runs = a.runs;
    settled = λ r.
        head_or_tail r (λ same. inr (at_head (ap message_id same)))
          (λ m. Settled-reported (message_id x) a.log r fs (a.settled r m));
  }

  pub all_skipped : (rs : List Value) (w : W) → Accounted (These rs) (map message_id rs) w w
  all_skipped [] w = nothing w
  all_skipped (x ∷ rs) w = skipped (all_skipped rs w)

  pub spoken :
      {P : Value → Type 0} {fs : Failures} {w w₁ w' : W}
      → Says w w₁
      → Accounted P fs w₁ w'
      → Accounted P fs w w'
  spoken moved a = record { log = a.log; runs = said moved a.runs; settled = a.settled }

  pub both :
      {P Q R : Value → Type 0} {fs gs : Failures} {w w₁ w' : W}
      → ((r : Value) → R r → P r ⊎ Q r)
      → Accounted P fs w w₁
      → Accounted Q gs w₁ w'
      → Accounted R (fs ++ gs) w w'
  both {fs = fs} {gs = gs} choose a b = record {
    log = a.log ++ b.log;
    runs = Runs-append handle Says a.runs b.runs;
    settled = λ r h.
        Settled-both a.log b.log r fs gs
          (elim (choose r h) [ inl p ↦ inl (a.settled r p) | inr q ↦ inr (b.settled r q) ]);
  }

  pub narrowed :
      {P Q : Value → Type 0} {fs : Failures} {w w' : W}
      → ((r : Value) → Q r → P r)
      → Accounted P fs w w'
      → Accounted Q fs w w'
  narrowed h a = record { log = a.log; runs = a.runs; settled = λ r q. a.settled r (h r q) }

  pub run_on :
      {P : Value → Type 0} {fs : Failures} {w w₁ w' : W}
      → Runs handle Says [] w w₁
      → Accounted P fs w₁ w'
      → Accounted P fs w w'
  run_on before a = record {
    log = a.log;
    runs = Runs-append handle Says before a.runs;
    settled = a.settled;
  }

  pub run_behind :
      {P : Value → Type 0} {fs : Failures} {w w₁ w' : W}
      → Accounted P fs w w₁
      → Runs handle Says [] w₁ w'
      → Accounted P fs w w'
  run_behind a later = record {
    log = a.log ++ [];
    runs = Runs-append handle Says a.runs later;
    settled = λ r h. rw append-nil (a.settled r h);
  }
