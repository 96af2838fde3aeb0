-- ===== src/Outcome.antt =====
-- How a call of pajamax ends: pajamax/src/error.rs, a panic, or a model loop out of fuel.
use pajamax.Prelude.{String, Bytes, ◌≡◌, ◌≢◌, refl, sym}

-- `Error`. An outside error is held as its text, an unknown method as the bytes of its path.
pub data Error : Type 0 where
  invalid_http2 : String → Error
  invalid_hpack : String → Error
  invalid_huffman : Error
  invalid_protobuf : String → Error
  io_fail : String → Error
  channel_closed : Error
  unknown_method : Bytes → Error
  no_path_set : Error

-- `Result<A, Error>`. `panic` is an index out of range, an overflow or an `unwrap` that fails;
-- `stuck` is no outcome of the code: a loop of the model ran out of fuel.
pub data Outcome {ℓ} (A : Type ℓ) : Type ℓ where
  ok : A → Outcome A
  err : Error → Outcome A
  panic : Outcome A
  stuck : Outcome A

infixl 5 ◌>>=◌
abbrev pub ◌>>=◌ {ℓ κ} : {A : Type ℓ} {B : Type κ} → Outcome A → (A → Outcome B) → Outcome B
ok a >>= f = f a
err e >>= f = err e
panic >>= f = panic
stuck >>= f = stuck

-- What holds of the value, if there is one.
abbrev pub OnOk {ℓ κ} : {A : Type ℓ} → (A → Type κ) → Outcome A → Type κ
OnOk P (ok a) = P a
OnOk P (err e) = Unit {κ}
OnOk P panic = Unit {κ}
OnOk P stuck = Unit {κ}

pub OnOk-bind {ℓ κ ι} :
    {A : Type ℓ} {B : Type κ} (P : B → Type ι) (m : Outcome A) (f : A → Outcome B)
    → ((a : A) → m ≡ ok a → OnOk P (f a))
    → OnOk P (m >>= f)
OnOk-bind P (ok a) f h = h a refl
OnOk-bind P (err e) f h = tt
OnOk-bind P panic f h = tt
OnOk-bind P stuck f h = tt

pub OnOk-eq {ℓ κ} :
    {A : Type ℓ} (P : A → Type κ) (m : Outcome A) (a : A) → OnOk P m → m ≡ ok a → P a
OnOk-eq P m a h e = rw e at h

-- What holds of the value, if there is one, and that the model did not run out of fuel.
abbrev pub Safe {ℓ} : {A : Type ℓ} → (A → Type 0) → Outcome A → Type 0
Safe P (ok a) = P a
Safe P (err e) = Unit {0}
Safe P panic = Unit {0}
Safe P stuck = ⊥

pub Safe-bind {ℓ κ} :
    {A : Type ℓ} {B : Type κ} (P : A → Type 0) (Q : B → Type 0) (m : Outcome A) (f : A → Outcome B)
    → Safe P m
    → ((a : A) → P a → Safe Q (f a))
    → Safe Q (m >>= f)
Safe-bind P Q (ok a) f h k = k a h
Safe-bind P Q (err e) f h k = tt
Safe-bind P Q panic f h k = tt
Safe-bind P Q stuck f h k = elim h [ ]

pub Safe-ne-stuck {ℓ} : {A : Type ℓ} (P : A → Type 0) (m : Outcome A) → Safe P m → m ≢ stuck
Safe-ne-stuck P (ok a) h e = cc
Safe-ne-stuck P (err x) h e = cc
Safe-ne-stuck P panic h e = cc
Safe-ne-stuck P stuck h e = elim h [ ]

pub Safe-mono {ℓ} :
    {A : Type ℓ} (P Q : A → Type 0) (m : Outcome A) → ((a : A) → P a → Q a) → Safe P m → Safe Q m
Safe-mono P Q (ok a) f h = f a h
Safe-mono P Q (err e) f h = tt
Safe-mono P Q panic f h = tt
Safe-mono P Q stuck f h = elim h [ ]

-- The two results behind a bind that succeeds.
pub >>=-eq-ok {ℓ κ} :
    {A : Type ℓ} {B : Type κ} (m : Outcome A) (f : A → Outcome B) {b : B}
    → ok b ≡ (m >>= f)
    → (a : A) × (f a ≡ ok b) × (m ≡ ok a)
>>=-eq-ok stuck f e = cc
>>=-eq-ok panic f e = cc
>>=-eq-ok (err x) f e = cc
>>=-eq-ok (ok a) f e = (a, sym e, refl)

-- Always an answer: the model does not run out of fuel.
abbrev pub Ends {ℓ} : {A : Type ℓ} → Outcome A → Type 0
Ends = Safe (λ _. Unit {0})

pub Ends-ne_stuck {ℓ} : {A : Type ℓ} (m : Outcome A) → m ≢ stuck → Ends m
Ends-ne_stuck (ok a) h = tt
Ends-ne_stuck (err e) h = tt
Ends-ne_stuck panic h = tt
Ends-ne_stuck stuck h = absurd (h refl)

pub Ends-bind {ℓ κ} :
    {A : Type ℓ} {B : Type κ} (m : Outcome A) (f : A → Outcome B)
    → Ends m
    → ((a : A) → Ends (f a))
    → Ends (m >>= f)
Ends-bind m f h k = Safe-bind (λ _. Unit {0}) (λ _. Unit {0}) m f h (λ a _. k a)
