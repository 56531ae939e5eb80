-- ===== src/Base/Tests.antt =====
-- Boolean tests on the native numbers, the conditional, and case lemmas that keep an equation.
use Prim.Native.Nat.{ℕ, ◌≤◌, ◌<◌, compare, Ordering}
use mathlib.Core.Path.{◌≡◌, refl}
use mathlib.Core.Logic.{◌↔◌, ◌⊎◌, inl, inr}
use mathlib.Core.Bool.{Bool, true, false}
use mathlib.Core.Option.{Option, none, some}
use native.Mathlib.Omega.{arith}

abbrev pub ltb : ℕ → ℕ → Bool
ltb a b = elim (compare a b) [ Ordering.lt ↦ true | _ ↦ false ]

abbrev pub leb : ℕ → ℕ → Bool
leb a b = elim (compare a b) [ Ordering.gt ↦ false | _ ↦ true ]

infix 50 ◌==◌
abbrev pub ◌==◌ : ℕ → ℕ → Bool
a == b = elim (compare a b) [ Ordering.eq ↦ true | _ ↦ false ]

infix 1 if◌then◌else◌
abbrev pub if◌then◌else◌ {ℓ} : {A : Type ℓ} → Bool → A → A → A
if true then x else y = x
if false then x else y = y

pub ==_iff : (a b : ℕ) → ((a == b) ≡ true) ↔ (a ≡ b)
==_iff a b = ground arith

pub ltb→lt : (a b : ℕ) → ltb a b ≡ true → a < b
ltb→lt a b h = ground arith

pub leb→le : (a b : ℕ) → leb a b ≡ true → a ≤ b
leb→le a b h = ground arith

pub leb→gt : (a b : ℕ) → leb a b ≡ false → b < a
leb→gt a b h = ground arith

pub Bool-cases : (b : Bool) → (b ≡ true) ⊎ (b ≡ false)
Bool-cases true = inl refl
Bool-cases false = inr refl

pub Option-cases {ℓ} : {A : Type ℓ} (o : Option A) → (o ≡ none) ⊎ ((a : A) × (o ≡ some a))
Option-cases none = inl refl
Option-cases (some a) = inr (a, refl)

-- The tests of the source on an `Option`: `is_some`, `is_none` and `unwrap_or`.
abbrev pub is_some {ℓ} : {A : Type ℓ} → Option A → Bool
is_some none = false
is_some (some _) = true

abbrev pub is_none {ℓ} : {A : Type ℓ} → Option A → Bool
is_none none = true
is_none (some _) = false

abbrev pub unwrap_or {ℓ} : {A : Type ℓ} → A → Option A → A
unwrap_or d none = d
unwrap_or d (some a) = a

abbrev pub map_option {ℓ κ} : {A : Type ℓ} {B : Type κ} → (A → B) → Option A → Option B
map_option f none = none
map_option f (some a) = some (f a)

-- `and_then`, and the monad of fallible code: `none` is the failure.
infixl 5 ◌>>=◌
abbrev pub ◌>>=◌ {ℓ κ} : {A : Type ℓ} {B : Type κ} → Option A → (A → Option B) → Option B
none >>= f = none
some a >>= f = f a

-- A property of the result, if there is one.
abbrev pub OnSome {ℓ κ} : {A : Type ℓ} → (A → Type κ) → Option A → Type κ
OnSome P none = Unit
OnSome P (some a) = P a

pub OnSome_eq {ℓ κ} :
    {A : Type ℓ} (P : A → Type κ) {o : Option A} {a : A} → OnSome P o → o ≡ some a → P a
OnSome_eq P {a = a} h e = rw e at h

-- A property of both branches of a conditional, each under its test.
pub if_both {ℓ κ} :
    {A : Type ℓ} (P : A → Type κ) (b : Bool) {x y : A}
    → (b ≡ true → P x)
    → (b ≡ false → P y)
    → P (if b then x else y)
if_both P true f g = f refl
if_both P false f g = g refl

pub is_some->>= {ℓ κ} :
    {A : Type ℓ} {B : Type κ} (o : Option A) (f : A → Option B)
    → is_some o ≡ true
    → ((a : A) → is_some (f a) ≡ true)
    → is_some (o >>= f) ≡ true
is_some->>= none f h k = h
is_some->>= (some a) f h k = k a

-- There is a result, and it has the property.
abbrev pub Yields {ℓ} : {A : Type ℓ} → (A → Type 0) → Option A → Type 0
Yields P none = ⊥
Yields P (some a) = P a

pub Yields->>= {ℓ} :
    {A B : Type ℓ} (P : A → Type 0) (R : B → Type 0) (o : Option A) (f : A → Option B)
    → Yields P o
    → ((a : A) → P a → Yields R (f a))
    → Yields R (o >>= f)
Yields->>= P R none f h k = absurd h
Yields->>= P R (some a) f h k = k a h

pub OnSome->>= {ℓ κ} :
    {A B : Type ℓ} (P : A → Type κ) (R : B → Type κ) (o : Option A) (f : A → Option B)
    → OnSome P o
    → ((a : A) → P a → OnSome R (f a))
    → OnSome R (o >>= f)
OnSome->>= P R none f h k = tt
OnSome->>= P R (some a) f h k = k a h

pub OnSome-all {ℓ κ} : {A : Type ℓ} (P : A → Type κ) → ((a : A) → P a) → (o : Option A) → OnSome P o
OnSome-all P h none = tt
OnSome-all P h (some a) = h a
