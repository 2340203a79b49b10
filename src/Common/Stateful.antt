-- ===== src/Common/Stateful.antt =====
-- Fallible code that acts on a world through a repository: each call takes the world as it is and
-- leaves one behind, whether it succeeds or not. A `do` block chains the calls with `?`.
use pvlog.Common.{Result, ok, err, ◌≡◌, refl}

abbrev pub Stateful {ℓ κ μ} : Type ℓ → Type κ → Type μ → Type (ℓ ⊔ κ ⊔ μ)
Stateful W E A = W → Result E A × W

-- What follows a call: the error is passed on, with the world that the call left.
abbrev pub and_then {ℓ κ μ ν} :
    {W : Type ℓ} {E : Type κ} {A : Type μ} {B : Type ν}
    → (A → Stateful W E B)
    → Result E A × W
    → Result E B × W
and_then next (err e, w) = (err e, w)
and_then next (ok a, w) = next a w

infixl 5 ◌>>=◌ ◌>>◌
abbrev pub ◌>>=◌ {ℓ κ μ ν} :
    {W : Type ℓ} {E : Type κ} {A : Type μ} {B : Type ν}
    → Stateful W E A
    → (A → Stateful W E B)
    → Stateful W E B
(first >>= next) w = and_then next (first w)

abbrev pub ◌>>◌ {ℓ κ μ ν} :
    {W : Type ℓ} {E : Type κ} {A : Type μ} {B : Type ν}
    → Stateful W E A
    → Stateful W E B
    → Stateful W E B
first >> next = first >>= λ _. next

abbrev pub returning {ℓ κ μ} : {W : Type ℓ} {E : Type κ} {A : Type μ} → Result E A → Stateful W E A
returning r w = (r, w)

-- The world left behind has the property, and a result, if there is one, the other.
unfoldable pub Outcome :
    {W E A : Type 0} → (W → Type 0) → (A → W → Type 0) → Result E A × W → Type 0
Outcome I Q (err e, w) = I w
Outcome I Q (ok a, w) = I w × Q a w

-- A property of what a call leaves carries over to what follows it.
pub Outcome-and_then :
    {W E A B : Type 0} (I : W → Type 0) (Q : A → W → Type 0) (R : B → W → Type 0)
    (next : A → Stateful W E B) (r : Result E A × W)
    → Outcome I Q r
    → ((a : A) (w : W) → I w → Q a w → Outcome I R (next a w))
    → Outcome I R (and_then next r)
unfolding Outcome
Outcome-and_then I Q R next (err e, w) h k = h
Outcome-and_then I Q R next (ok a, w) h k = k a w h.0 h.1

pub Outcome-map :
    {W E A : Type 0} (I J : W → Type 0) (Q R : A → W → Type 0) (r : Result E A × W)
    → Outcome I Q r
    → ((w : W) → I w → J w)
    → ((a : A) (w : W) → I w → Q a w → R a w)
    → Outcome J R r
unfolding Outcome
Outcome-map I J Q R (err e, w) h f g = f w h
Outcome-map I J Q R (ok a, w) h f g = (f w h.0, g a w h.0 h.1)

-- What a chain of calls that succeeds has passed through.
pub and_then-eq-ok :
    {W E A B : Type 0} (next : A → Stateful W E B) (r : Result E A × W) {b : B}
    → (and_then next r).0 ≡ ok b
    → (a : A) × (r.0 ≡ ok a) × ((next a r.1).0 ≡ ok b)
and_then-eq-ok next (err e, w) h = cc
and_then-eq-ok next (ok a, w) h = (a, refl, h)

-- A call that fails leaves a world with the one property, and one that succeeds the other.
unfoldable pub Ends : {W E A : Type 0} → (W → Type 0) → (A → W → Type 0) → Result E A × W → Type 0
Ends P Q (err e, w) = P w
Ends P Q (ok a, w) = Q a w

pub Ends-and_then :
    {W E A B : Type 0} (P : W → Type 0) (Q : A → W → Type 0) (R : B → W → Type 0)
    (next : A → Stateful W E B) (r : Result E A × W)
    → Ends P Q r
    → ((a : A) (w : W) → Q a w → Ends P R (next a w))
    → Ends P R (and_then next r)
unfolding Ends
Ends-and_then P Q R next (err e, w) h k = h
Ends-and_then P Q R next (ok a, w) h k = k a w h

pub Ends-map :
    {W E A : Type 0} (P P' : W → Type 0) (Q Q' : A → W → Type 0) (r : Result E A × W)
    → Ends P Q r
    → ((w : W) → P w → P' w)
    → ((a : A) (w : W) → Q a w → Q' a w)
    → Ends P' Q' r
unfolding Ends
Ends-map P P' Q Q' (err e, w) h f g = f w h
Ends-map P P' Q Q' (ok a, w) h f g = g a w h
