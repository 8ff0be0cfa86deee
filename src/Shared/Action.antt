-- ===== src/Shared/Action.antt =====
-- A computation that reads and changes a state of the world, whose type is a parameter, and may
-- throw: an `async` method of the source. What was done before an error is thrown is kept.
pub mod Pair
pub mod Triple
use jejak.Prelude.{◌≡◌, refl}
use jejak.Shared.Errors.{Result, Error, ok, err}

abbrev pub Action : Type 0 → Type 0 → Type 0
Action W A = W → Result A × W

abbrev pub continue_with : {W A B : Type 0} → Result A × W → (A → Action W B) → Result B × W
continue_with (ok a, w) f = f a w
continue_with (err e, w) f = (err e, w)

infixl 5 ◌>>=◌ ◌>>◌
abbrev pub ◌>>=◌ : {W A B : Type 0} → Action W A → (A → Action W B) → Action W B
m >>= f = λ w. continue_with (m w) f

abbrev pub ◌>>◌ : {W B : Type 0} → Action W (Unit {0}) → Action W B → Action W B
m >> k = m >>= λ _. k

abbrev pub give : {W A : Type 0} → A → Action W A
give a w = (ok a, w)

abbrev pub throw : {W A : Type 0} → Error → Action W A
throw e w = (err e, w)

-- A computation that leaves the world as it is.
abbrev pub lift : {W A : Type 0} → Result A → Action W A
lift r w = (r, w)

pub continue_with-eq-ok :
    {W A B : Type 0} (r : Result A × W) (f : A → Action W B) {b : B} {w' : W}
    → continue_with r f ≡ (ok b, w')
    → (a : A) × (w1 : W) × (r ≡ (ok a, w1)) × (f a w1 ≡ (ok b, w'))
continue_with-eq-ok (ok a, w) f h = (a, w, refl, h)
continue_with-eq-ok (err e, w) f h = cc

pub continue_with-lift :
    {W A B : Type 0} (r : Result A) (w : W) (f : A → Action W B) {b : B} {w' : W}
    → continue_with (r, w) f ≡ (ok b, w')
    → (a : A) × (r ≡ ok a) × (f a w ≡ (ok b, w'))
continue_with-lift (ok a) w f h = (a, refl, h)
continue_with-lift (err e) w f h = cc

-- `try { … } catch (error) { … }`
abbrev pub recover : {W A : Type 0} → Result A × W → (Error → Action W A) → Result A × W
recover (ok a, w) handler = (ok a, w)
recover (err e, w) handler = handler e w

abbrev pub try_catch : {W A : Type 0} → Action W A → (Error → Action W A) → Action W A
try_catch m handler w = recover (m w) handler

-- A step of one part of a world made of two.
abbrev pub on_first : {S P A : Type 0} → Action S A → Action (S × P) A
on_first f (s, p) = ((f s).0, ((f s).1, p))

abbrev pub on_second : {S P A : Type 0} → Action P A → Action (S × P) A
on_second f (s, p) = ((f p).0, (s, (f p).1))
