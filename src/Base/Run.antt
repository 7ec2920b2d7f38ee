-- ===== src/Base/Run.antt =====
-- How a piece of C ends: with a value, with an access that C leaves undefined, or not within the
-- rounds that its loop was given.
use mathlib.Core.Path.{◌≡◌, refl, subst}
use mathlib.Core.Bool.{Bool, true, false}
use mathlib.Core.Logic.{◌⊎◌, inl, inr}
use Prim.Native.Nat.{ℕ, zero, suc}
use nucleo_tests.Base.Tests.{if◌then◌else◌}

pub data Run {ℓ} (A : Type ℓ) : Type ℓ where
  done : A → Run A
  fault : Run A
  more : Run A

infixl 5 ◌>>=◌
abbrev pub ◌>>=◌ {ℓ κ} : {A : Type ℓ} {B : Type κ} → Run A → (A → Run B) → Run B
done a >>= f = f a
fault >>= f = fault
more >>= f = more

pub done-injective {ℓ} : {A : Type ℓ} {a b : A} → done a ≡ done b → a ≡ b
done-injective h = cc

-- The rounds given were enough, and this holds of the value, where there is one.
abbrev pub Ends {ℓ} : {A : Type ℓ} → (A → Type 0) → Run A → Type 0
Ends P (done a) = P a
Ends P fault = Unit
Ends P more = ⊥

pub Ends->>= {ℓ κ} :
    {A : Type ℓ} {B : Type κ} (P : A → Type 0) (Q : B → Type 0) (m : Run A) (f : A → Run B)
    → Ends P m
    → ((a : A) → m ≡ done a → P a → Ends Q (f a))
    → Ends Q (m >>= f)
Ends->>= P Q (done a) f h k = k a refl h
Ends->>= P Q fault f h k = tt
Ends->>= P Q more f h k = h

pub Ends-if {ℓ} :
    {A : Type ℓ} (P : A → Type 0) (b : Bool) (x y : Run A)
    → (b ≡ true → Ends P x)
    → (b ≡ false → Ends P y)
    → Ends P (if b then x else y)
Ends-if P true x y h k = h refl
Ends-if P false x y h k = k refl

-- What holds of the value, where there is one.
abbrev pub Post {ℓ κ} : {A : Type ℓ} → (A → Type κ) → Run A → Type κ
Post P (done a) = P a
Post P fault = Unit
Post P more = Unit

pub Post->>= {ℓ κ μ ν} :
    {A : Type ℓ} {B : Type κ} (P : A → Type μ) (Q : B → Type ν) (m : Run A) (f : A → Run B)
    → Post P m
    → ((a : A) → P a → Post Q (f a))
    → Post Q (m >>= f)
Post->>= P Q (done a) f h k = k a h
Post->>= P Q fault f h k = tt
Post->>= P Q more f h k = tt

-- Where nothing is asked of the first part.
pub Post-then {ℓ κ ν} :
    {A : Type ℓ} {B : Type κ} (Q : B → Type ν) (m : Run A) (f : A → Run B)
    → ((a : A) → Post Q (f a))
    → Post Q (m >>= f)
Post-then Q (done a) f k = k a
Post-then Q fault f k = tt
Post-then Q more f k = tt

pub Post-if {ℓ κ} :
    {A : Type ℓ} (P : A → Type κ) (b : Bool) (x y : Run A)
    → (b ≡ true → Post P x)
    → (b ≡ false → Post P y)
    → Post P (if b then x else y)
Post-if P true x y h k = h refl
Post-if P false x y h k = k refl

pub Post-done {ℓ κ} :
    {A : Type ℓ} (P : A → Type κ) {m : Run A} (a : A) → Post P m → m ≡ done a → P a
Post-done P a h e = subst (Post P) e h

pub Post-weaken {ℓ κ μ} :
    {A : Type ℓ} (P : A → Type κ) (Q : A → Type μ) (m : Run A)
    → ((a : A) → P a → Q a)
    → Post P m
    → Post Q m
Post-weaken P Q (done a) f h = f a h
Post-weaken P Q fault f h = tt
Post-weaken P Q more f h = tt

-- A loop that has no bound of its own, with rounds: a round ends with the state of the next one, or
-- with the loop's result.
abbrev pub after_round {ℓ κ} : {S : Type ℓ} {R : Type κ} → (S → Run R) → S ⊎ R → Run R
after_round next (inl s) = next s
after_round next (inr r) = done r

abbrev pub repeat {ℓ κ} : {S : Type ℓ} {R : Type κ} → ℕ → (S → Run (S ⊎ R)) → S → Run R
repeat zero round s = more
repeat (suc rounds) round s = round s >>= after_round (repeat rounds round)

-- What holds before a round, or of the result.
abbrev pub Either {ℓ κ μ} : {S : Type ℓ} {R : Type κ} → (S → Type μ) → (R → Type μ) → S ⊎ R → Type μ
Either I Q (inl s) = I s
Either I Q (inr r) = Q r

Post-after_round {ℓ κ μ} :
    {S : Type ℓ} {R : Type κ} (I : S → Type μ) (Q : R → Type μ) (next : S → Run R) (x : S ⊎ R)
    → ((s : S) → I s → Post Q (next s))
    → Either I Q x
    → Post Q (after_round next x)
Post-after_round I Q next (inl s) step h = step s h
Post-after_round I Q next (inr r) step h = h

-- A loop's invariant.
pub Post-repeat {ℓ κ μ} :
    {S : Type ℓ} {R : Type κ} (I : S → Type μ) (Q : R → Type μ) (rounds : ℕ)
    (round : S → Run (S ⊎ R))
    → ((s : S) → I s → Post (Either I Q) (round s))
    → (s : S) → I s
    → Post Q (repeat rounds round s)
Post-repeat I Q zero round step s h = tt
Post-repeat I Q (suc rounds) round step s h =
    Post->>= (Either I Q) Q (round s) (after_round (repeat rounds round)) (step s h)
      (λ x e. Post-after_round I Q (repeat rounds round) x (Post-repeat I Q rounds round step) e)

-- A value is returned, and this holds of it.
abbrev pub Returns {ℓ} : {A : Type ℓ} → (A → Type 0) → Run A → Type 0
Returns P (done a) = P a
Returns P fault = ⊥
Returns P more = ⊥

pub Returns->>= {ℓ κ} :
    {A : Type ℓ} {B : Type κ} (P : A → Type 0) (Q : B → Type 0) (m : Run A) (f : A → Run B)
    → Returns P m
    → ((a : A) → P a → Returns Q (f a))
    → Returns Q (m >>= f)
Returns->>= P Q (done a) f h k = k a h
Returns->>= P Q fault f h k = absurd h
Returns->>= P Q more f h k = absurd h

pub Returns-weaken {ℓ} :
    {A : Type ℓ} (P Q : A → Type 0) (m : Run A) → Returns P m → ((a : A) → P a → Q a) → Returns Q m
Returns-weaken P Q (done a) h k = k a h
Returns-weaken P Q fault h k = h
Returns-weaken P Q more h k = h
