-- ===== src/Prelude/Checks.antt =====
-- A Go function that returns a value or an error, for any type of errors, with `do`.
use mathlib.Core.Path.{◌≡◌, refl}
use mathlib.Core.Logic.{◌≢◌}
use mathlib.Core.Bool.{Bool, true, false}
use tip_olg_ucentral_client.Prelude.Tests.{if◌then◌else◌}
use mathlib.Core.Option.{Option, none, some}

pub data Checked {ℓ κ} (E : Type ℓ) (A : Type κ) : Type (ℓ ⊔ κ) where
  pass : A → Checked E A
  fault : E → Checked E A

infixl 5 ◌>>=◌ ◌>>◌
abbrev pub ◌>>=◌ {ℓ κ ι} :
    {E : Type ℓ} {A : Type κ} {B : Type ι} → Checked E A → (A → Checked E B) → Checked E B
pass a >>= f = f a
fault e >>= f = fault e

abbrev pub ◌>>◌ {ℓ κ} : {E : Type ℓ} {B : Type κ} → Checked E (Unit {0}) → Checked E B → Checked E B
m >> n = m >>= λ u. n

-- `if c { return e }`
abbrev pub refuse {ℓ} : {E : Type ℓ} → Bool → E → Checked E (Unit {0})
refuse true e = fault e
refuse false e = pass tt

-- `if err != nil { return e }`
abbrev pub need {ℓ κ} : {E : Type ℓ} {A : Type κ} → Option A → E → Checked E A
need none e = fault e
need (some a) e = pass a

-- What a check that passed says.
pub refuse-inv {ℓ} : {E : Type ℓ} (b : Bool) (e : E) → refuse b e ≡ pass tt → b ≡ false
refuse-inv true e h = cc
refuse-inv false e h = refl

pub need-inv {ℓ κ} :
    {E : Type ℓ} {A : Type κ} (o : Option A) (e : E) (a : A) → need o e ≡ pass a → o ≡ some a
need-inv none e a h = cc
need-inv (some b) e a h = cc

pub bind-inv {ℓ κ ι} :
    {E : Type ℓ} {A : Type κ} {B : Type ι} (m : Checked E A) (f : A → Checked E B) (b : B)
    → (m >>= f) ≡ pass b
    → (a : A) × (m ≡ pass a) × (f a ≡ pass b)
bind-inv (pass a) f b h = (a, refl, h)
bind-inv (fault e) f b h = cc

pub then-inv {ℓ κ} :
    {E : Type ℓ} {B : Type κ} (c : Bool) (e : E) (n : Checked E B) (b : B)
    → (refuse c e >> n) ≡ pass b
    → (c ≡ false) × (n ≡ pass b)
then-inv true e n b h = cc
then-inv false e n b h = (refl, h)

-- A chain does not end with an error that none of its parts ends with.
pub bind-lacks {ℓ κ ι} :
    {E : Type ℓ} {A : Type κ} {B : Type ι} (m : Checked E A) (f : A → Checked E B) (e : E)
    → m ≢ fault e
    → ((a : A) → m ≡ pass a → f a ≢ fault e)
    → (m >>= f) ≢ fault e
bind-lacks (pass a) f e u v h = v a refl h
bind-lacks (fault x) f e u v h = u cc

pub then-lacks {ℓ κ} :
    {E : Type ℓ} {B : Type κ} (c : Bool) (x : E) (n : Checked E B) (e : E)
    → x ≢ e
    → n ≢ fault e
    → (refuse c x >> n) ≢ fault e
then-lacks true x n e u v h = u cc
then-lacks false x n e u v h = v h

-- `fmt.Errorf` around the error of a call.
abbrev pub wrap {ℓ κ ι} :
    {E : Type ℓ} {D : Type κ} {A : Type ι} → (E → D) → Checked E A → Checked D A
wrap f (pass a) = pass a
wrap f (fault e) = fault (f e)

pub wrap-inv {ℓ κ ι} :
    {E : Type ℓ} {D : Type κ} {A : Type ι} (f : E → D) (m : Checked E A) (a : A)
    → wrap f m ≡ pass a
    → m ≡ pass a
wrap-inv f (pass b) a h = cc
wrap-inv f (fault e) a h = cc

-- Both branches of a test have `P`.
pub either {ℓ κ} :
    {A : Type ℓ} (P : A → Type κ) (b : Bool) (x y : A) → P x → P y → P (if b then x else y)
either P true x y p q = p
either P false x y p q = q
