-- ===== src/Base/Except.antt =====
-- Rust's `Result` with its error type, and the `?` operator as a monad.
use mathlib.Core.Path.{◌≡◌, refl}
use mathlib.Core.Bool.{Bool, true, false}
use mathlib.Core.Option.{Option, none, some}

pub data Except {ℓ} (E : Type 0) (A : Type ℓ) : Type ℓ where
  ok : A → Except E A
  err : E → Except E A

-- `if !b { return Err(e) }`
abbrev pub guard : {E : Type 0} → Bool → E → Except E (Unit {0})
guard false e = err e
guard true _ = ok tt

infixl 5 ◌>>=◌ ◌>>◌
abbrev pub ◌>>=◌ {ℓ κ} :
    {E : Type 0} {A : Type ℓ} {B : Type κ} → Except E A → (A → Except E B) → Except E B
err e >>= next = err e
ok value >>= next = next value

abbrev pub ◌>>◌ {ℓ} : {E : Type 0} {B : Type ℓ} → Except E (Unit {0}) → Except E B → Except E B
first >> second = first >>= λ done. second

abbrev pub ok_or {ℓ} : {E : Type 0} {A : Type ℓ} → Option A → E → Except E A
ok_or none e = err e
ok_or (some a) e = ok a

abbrev pub map_err {ℓ} : {E F : Type 0} {A : Type ℓ} → (E → F) → Except E A → Except F A
map_err f (ok a) = ok a
map_err f (err e) = err (f e)

-- A chain that ends well: its first step did, and so did the rest from there.
pub >>=-eq-ok {ℓ κ} :
    {E : Type 0} {A : Type ℓ} {B : Type κ} (first : Except E A) (next : A → Except E B) {result : B}
    → (first >>= next) ≡ ok result
    → (value : A) × (first ≡ ok value) × (next value ≡ ok result)
>>=-eq-ok (err e) next ended = cc
>>=-eq-ok (ok value) next ended = (value, refl, ended)

pub guard-eq-ok {ℓ} :
    {E : Type 0} {B : Type ℓ} (t : Bool) (e : E) (m : Except E B) {b : B}
    → (guard t e >> m) ≡ ok b
    → (t ≡ true) × (m ≡ ok b)
guard-eq-ok true e m h = (refl, h)
guard-eq-ok false e m h = cc

pub ok_or-eq-ok {ℓ κ} :
    {E : Type 0} {A : Type ℓ} {B : Type κ} (o : Option A) (e : E) (f : A → Except E B) {b : B}
    → (ok_or o e >>= f) ≡ ok b
    → (a : A) × (o ≡ some a) × (f a ≡ ok b)
ok_or-eq-ok (some a) e f h = (a, refl, h)
ok_or-eq-ok none e f h = cc

pub map_err-eq-ok {ℓ} :
    {E F : Type 0} {A : Type ℓ} (f : E → F) (m : Except E A) {a : A} → map_err f m ≡ ok a → m ≡ ok a
map_err-eq-ok f (ok b) h = cc
map_err-eq-ok f (err e) h = cc

-- The call returned a value.
pub data IsOk {ℓ} {E : Type 0} {A : Type ℓ} : Except E A → Type ℓ where
  is_ok : (a : A) → IsOk (ok a)

pub ok-injective {ℓ} :
    {E : Type 0} {A : Type ℓ} {a b : A} → ◌≡◌ {A = Except E A} (ok a) (ok b) → a ≡ b
ok-injective h = cc

-- Two chains that go on alike after every value of their first step.
