-- ===== src/Shared/Action/Triple.antt =====
-- Triples of an action: what holds before it, after it when it returns, and when it throws.
use jejak.Prelude.{◌≡◌, Bool, true, false}
use jejak.Prelude.Tests.{if◌then◌else◌}
use jejak.Shared.Errors.{Result, Error, ok, err}
use jejak.Shared.Action.{Action, continue_with, ◌>>=◌, give, throw, lift, recover, try_catch}

module _ {W : Type 0} where
  abbrev pub Ends : {A : Type 0} → (A → W → Type 0) → (W → Type 0) → Result A × W → Type 0
  Ends Q E (ok a, w) = Q a w
  Ends Q E (err e, w) = E w

  pub record Triple {A : Type 0} (P : W → Type 0) (m : Action W A) (Q : A → W → Type 0)
      (E : W → Type 0) : Type 0 where
    pub ends : (w : W) → P w → Ends Q E (m w)

  Ends-bind :
      {A B : Type 0} (Q : A → W → Type 0) (R : B → W → Type 0) (E : W → Type 0) (r : Result A × W)
      (f : A → Action W B)
      → Ends Q E r
      → ((a : A) → Triple (Q a) (f a) R E)
      → Ends R E (continue_with r f)
  Ends-bind Q R E (ok a, w) f h k = (k a).ends w h
  Ends-bind Q R E (err e, w) f h k = h

  pub bind_triple :
      {A B : Type 0} {P : W → Type 0} (Q : A → W → Type 0) {R : B → W → Type 0} {E : W → Type 0}
      {m : Action W A} {f : A → Action W B}
      → Triple P m Q E
      → ((a : A) → Triple (Q a) (f a) R E)
      → Triple P (m >>= f) R E
  bind_triple Q {R = R} {E = E} {m = m} {f = f} h k = record {
    ends = λ w p. Ends-bind Q R E (m w) f (h.ends w p) k;
  }

  Ends-recover :
      {A : Type 0} (Q : A → W → Type 0) (E F : W → Type 0) (r : Result A × W)
      (handler : Error → Action W A)
      → Ends Q E r
      → ((e : Error) → Triple E (handler e) Q F)
      → Ends Q F (recover r handler)
  Ends-recover Q E F (ok a, w) handler h k = h
  Ends-recover Q E F (err e, w) handler h k = (k e).ends w h

  pub try_triple :
      {A : Type 0} {P : W → Type 0} {Q : A → W → Type 0} (E : W → Type 0) {F : W → Type 0}
      {m : Action W A} {handler : Error → Action W A}
      → Triple P m Q E
      → ((e : Error) → Triple E (handler e) Q F)
      → Triple P (try_catch m handler) Q F
  try_triple {Q = Q} E {F = F} {m = m} {handler = handler} h k = record {
    ends = λ w p. Ends-recover Q E F (m w) handler (h.ends w p) k;
  }

  -- An invariant that an action keeps, whether it returns or throws.
  abbrev pub Keeps : {A : Type 0} → (W → Type 0) → Action W A → Type 0
  Keeps I m = Triple I m (λ a. I) I

  Ends-kept : {A : Type 0} (I : W → Type 0) (r : Result A × W) → Ends (λ (a : A). I) I r → I r.1
  Ends-kept I (ok a, w) i = i
  Ends-kept I (err e, w) i = i

  kept-Ends : {A : Type 0} (I : W → Type 0) (r : Result A × W) → I r.1 → Ends (λ (a : A). I) I r
  kept-Ends I (ok a, w) i = i
  kept-Ends I (err e, w) i = i

  -- What an action keeps holds of the world after it.
  pub after_keeps :
      {A : Type 0} (I : W → Type 0) (m : Action W A) → Keeps I m → (w : W) → I w → I (m w).1
  after_keeps I m h w i = Ends-kept I (m w) (h.ends w i)

  pub keeps_after :
      {A : Type 0} (I : W → Type 0) (m : Action W A) → ((w : W) → I w → I (m w).1) → Keeps I m
  keeps_after I m h = record { ends = λ w i. kept-Ends I (m w) (h w i) }

  pub give_triple :
      {A : Type 0} {P : W → Type 0} {Q : A → W → Type 0} {E : W → Type 0} {a : A}
      → ((w : W) → P w → Q a w)
      → Triple P (give a) Q E
  give_triple h = record { ends = h }

  pub throw_triple :
      {A : Type 0} {E : W → Type 0} {Q : A → W → Type 0} {e : Error} → Triple E (throw e) Q E
  throw_triple = record { ends = λ w i. i }

  pub lift_keeps : {A : Type 0} {I : W → Type 0} (r : Result A) → Keeps I (lift r)
  lift_keeps (ok a) = record { ends = λ w i. i }
  lift_keeps (err e) = record { ends = λ w i. i }

  -- A step that keeps the invariant, before a step.
  pub then_triple :
      {A B : Type 0} {I : W → Type 0} {R : B → W → Type 0} {m : Action W A} {f : A → Action W B}
      → Keeps I m
      → ((a : A) → Triple I (f a) R I)
      → Triple I (m >>= f) R I
  then_triple {I = I} h k = bind_triple (λ a. I) h k

  pub if_triple :
      {A : Type 0} {P : W → Type 0} {Q : A → W → Type 0} {E : W → Type 0} (b : Bool)
      {m n : Action W A}
      → Triple P m Q E
      → Triple P n Q E
      → Triple P (if b then m else n) Q E
  if_triple true h k = h
  if_triple false h k = k

  pub weaken :
      {A B : Type 0} {I : W → Type 0} {m : Action W A} {Q : A → W → Type 0}
      → Triple I m Q I
      → Triple (λ w. B × I w) m Q I
  weaken h = record { ends = λ w i. h.ends w i.1 }

  -- A fact that the precondition gives with the invariant.
  pub given :
      {A B : Type 0} {I : W → Type 0} {m : Action W A} {Q : A → W → Type 0} {E : W → Type 0}
      → (B → Triple I m Q E)
      → Triple (λ w. B × I w) m Q E
  given h = record { ends = λ w i. (h i.0).ends w i.1 }

  Ends-imply :
      {A : Type 0} (Q R : A → W → Type 0) (E : W → Type 0) (r : Result A × W)
      → Ends Q E r
      → ((a : A) (w : W) → Q a w → R a w)
      → Ends R E r
  Ends-imply Q R E (ok a, w) h k = k a w h
  Ends-imply Q R E (err e, w) h k = h

  pub imply :
      {A : Type 0} {P : W → Type 0} {m : Action W A} {Q R : A → W → Type 0} {E : W → Type 0}
      → Triple P m Q E
      → ((a : A) (w : W) → Q a w → R a w)
      → Triple P m R E
  imply {m = m} {Q = Q} {R = R} {E = E} h k = record {
    ends = λ w p. Ends-imply Q R E (m w) (h.ends w p) k;
  }

  -- The triple with nothing said of the world in which an error is thrown.
  abbrev pub Anywhere : W → Type 0
  Anywhere w = Unit

  Ends-Anywhere :
      {A : Type 0} (Q : A → W → Type 0) (E : W → Type 0) (r : Result A × W)
      → Ends Q E r
      → Ends Q Anywhere r
  Ends-Anywhere Q E (ok a, w) h = h
  Ends-Anywhere Q E (err e, w) h = tt

  pub forget :
      {A : Type 0} {P : W → Type 0} {m : Action W A} {Q : A → W → Type 0} {E : W → Type 0}
      → Triple P m Q E
      → Triple P m Q Anywhere
  forget {m = m} {Q = Q} {E = E} h = record { ends = λ w p. Ends-Anywhere Q E (m w) (h.ends w p) }

  pub throw-Anywhere :
      {A : Type 0} {P : W → Type 0} {Q : A → W → Type 0} {e : Error} → Triple P (throw e) Q Anywhere
  throw-Anywhere = record { ends = λ w i. tt }

  -- What holds after an action that is known to return.
  pub returned :
      {A : Type 0} {P : W → Type 0} {m : Action W A} {Q : A → W → Type 0} {E : W → Type 0}
      {w w' : W} {a : A}
      → Triple P m Q E
      → P w
      → m w ≡ (ok a, w')
      → Q a w'
  returned {Q = Q} {E = E} {w = w} h p e = let k = h.ends w p in rw e at k
