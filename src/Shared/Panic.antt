-- ===== src/Shared/Panic.antt =====
-- Operations on a state that may panic. A panic keeps what was written before it: a panicking task
-- leaves the shared atomics as they are.
use mathlib.Core.Path.{◌≡◌, refl}
use mathlib.Core.Option.{Option, none, some}

abbrev pub Op {ℓ κ} : Type ℓ → Type κ → Type (ℓ ⊔ κ)
Op S A = S → S × Option A

abbrev pub pure {ℓ κ} : {S : Type ℓ} {A : Type κ} → A → Op S A
pure a s = (s, some a)

abbrev pub panic {ℓ κ} : {S : Type ℓ} {A : Type κ} → Op S A
panic s = (s, none)

-- What follows a step that has left `s` and the outcome `r`.
abbrev pub resume {ℓ κ μ} :
    {S : Type ℓ} {A : Type κ} {B : Type μ} → (A → Op S B) → S → Option A → S × Option B
resume f s none = (s, none)
resume f s (some a) = f a s

infixl 5 ◌>>=◌ ◌>>◌
abbrev pub ◌>>=◌ {ℓ κ μ} : {S : Type ℓ} {A : Type κ} {B : Type μ} → Op S A → (A → Op S B) → Op S B
◌>>=◌ m f s = resume f (m s).0 (m s).1

abbrev pub ◌>>◌ {ℓ κ μ} : {S : Type ℓ} {A : Type κ} {B : Type μ} → Op S A → Op S B → Op S B
m >> k = m >>= λ _. k

-- A value that may be missing, such as an index out of bounds.
abbrev pub expect {ℓ κ} : {S : Type ℓ} {A : Type κ} → Option A → Op S A
expect o s = (s, o)

-- Read the whole state.
abbrev pub state {ℓ} : {S : Type ℓ} → Op S S
state s = (s, some s)

resume-pure-state {ℓ κ μ} :
    {S : Type ℓ} {A : Type κ} {B : Type μ} (f : A → B) (s : S) (out : Option A)
    → (resume (λ a. pure (f a)) s out).0 ≡ s
resume-pure-state f s none = refl
resume-pure-state f s (some a) = refl

-- A last `pure` leaves the state alone.
pub then_pure-state {ℓ κ μ} :
    {S : Type ℓ} {A : Type κ} {B : Type μ} (m : Op S A) (f : A → B) (s : S)
    → ((m >>= λ a. pure (f a)) s).0 ≡ (m s).0
then_pure-state m f s = resume-pure-state f (m s).0 (m s).1

resume-pure-value {ℓ κ μ} :
    {S : Type ℓ} {A : Type κ} {B : Type μ} (b y : B) (s s' : S) (out : Option A)
    → ◌≡◌ {A = S × Option B} (resume (λ _. pure b) s out) (s', some y)
    → b ≡ y
resume-pure-value b y s s' none h = absurd (cc)
resume-pure-value b y s s' (some a) h = cc

-- What ends well after a last `pure` has its value.
pub then_pure-value {ℓ κ μ} :
    {S : Type ℓ} {A : Type κ} {B : Type μ} (m : Op S A) (b y : B) (s s' : S)
    → ◌≡◌ {A = S × Option B} ((m >> pure b) s) (s', some y)
    → b ≡ y
then_pure-value m b y s s' h = resume-pure-value b y (m s).0 s' (m s).1 h
