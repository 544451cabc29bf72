-- ===== src/Prelude/Results.antt =====
-- Results of Go code: a value, an error value, a run-time panic, or a loop that does not end.
use Prim.Native.Nat.{ℕ, ◌≤◌}
use native.Mathlib.Omega.{arith}
use libmqtt.Prelude.Tests.{leb}
use mathlib.Core.Path.{◌≡◌, refl}
use mathlib.Core.Logic.{◌≢◌, ◌⊎◌, inl, inr}
use mathlib.Core.Option.{Option, none, some}
use mathlib.Core.Bool.{Bool, true, false}

-- The error values of decoder.go, encoder.go and persist.go, and the two that package io returns
-- at the end of the input.
pub data Error : Type 0 where
  decode_bad_packet decode_none_v311_packet decode_none_v5_packet : Error
  unsupported_version encode_bad_packet encode_large_packet : Error
  packet_dropped_by_strategy : Error
  eof unexpected_eof write_failed : Error

-- `stuck` is no Go value: it stands for a loop that would run for ever.
pub data Result {ℓ} (A : Type ℓ) : Type ℓ where
  ok : A → Result A
  err : Error → Result A
  panic : Result A
  stuck : Result A

infixl 5 ◌>>=◌ ◌>>◌
abbrev pub ◌>>=◌ {ℓ κ} : {X : Type ℓ} {Y : Type κ} → Result X → (X → Result Y) → Result Y
panic >>= next = panic
stuck >>= next = stuck
err e >>= next = err e
ok x >>= next = next x

-- An operation that panics out of range, and `if !cond { return failure }`.
abbrev pub or_panic {ℓ} : {X : Type ℓ} → Option X → Result X
or_panic none = panic
or_panic (some x) = ok x

abbrev pub guard : (cond : Bool) (failure : Error) → Result (Unit {0})
guard false failure = err failure
guard true failure = ok tt

abbrev pub ◌>>◌ {κ} : {Y : Type κ} → Result (Unit {0}) → Result Y → Result Y
first >> second = first >>= λ _. second

-- The code returned: a value or an error, and neither a panic nor an endless loop.
pub data Returns {ℓ} {A : Type ℓ} : Result A → Type ℓ where
  value : (a : A) → Returns (ok a)
  error : (e : Error) → Returns (err e)

-- The loops of the code ended, though it may have panicked.
pub data Ends {ℓ} {A : Type ℓ} : Result A → Type ℓ where
  with_value : (a : A) → Ends (ok a)
  with_error : (e : Error) → Ends (err e)
  with_panic : Ends panic

pub >>=-Returns {ℓ κ} :
    {A : Type ℓ} {B : Type κ} (m : Result A) (f : A → Result B)
    → Returns m
    → ((a : A) → m ≡ ok a → Returns (f a))
    → Returns (m >>= f)
>>=-Returns (ok a) f h k = k a refl
>>=-Returns (err e) f h k = error e
>>=-Returns panic f h k = elim h [ ]
>>=-Returns stuck f h k = elim h [ ]

pub >>=-Ends {ℓ κ} :
    {A : Type ℓ} {B : Type κ} (m : Result A) (f : A → Result B)
    → Ends m
    → ((a : A) → m ≡ ok a → Ends (f a))
    → Ends (m >>= f)
>>=-Ends (ok a) f h k = k a refl
>>=-Ends (err e) f h k = with_error e
>>=-Ends panic f h k = with_panic
>>=-Ends stuck f h k = elim h [ ]

pub Returns-of {ℓ} : {A : Type ℓ} (r : Result A) → r ≢ panic → r ≢ stuck → Returns r
Returns-of (ok a) h k = value a
Returns-of (err e) h k = error e
Returns-of panic h k = absurd (h refl)
Returns-of stuck h k = absurd (k refl)

pub Ends-of {ℓ} : {A : Type ℓ} (r : Result A) → r ≢ stuck → Ends r
Ends-of (ok a) k = with_value a
Ends-of (err e) k = with_error e
Ends-of panic k = with_panic
Ends-of stuck k = absurd (k refl)

pub guard-Returns : (b : Bool) (e : Error) → Returns (guard b e)
guard-Returns true e = value tt
guard-Returns false e = error e

pub >>=-eq-ok {ℓ κ} :
    {X : Type ℓ} {Y : Type κ} (first : Result X) (next : X → Result Y) {y : Y}
    → (first >>= next) ≡ ok y
    → (x : X) × (first ≡ ok x) × (next x ≡ ok y)
>>=-eq-ok panic next e = cc
>>=-eq-ok stuck next e = cc
>>=-eq-ok (err failure) next e = cc
>>=-eq-ok (ok x) next e = (x, refl, e)

pub Result-cases {ℓ} :
    {X : Type ℓ} (r : Result X)
    → Returns r
    → ((x : X) × (r ≡ ok x)) ⊎ ((failure : Error) × (r ≡ err failure))
Result-cases panic returns = elim returns [ ]
Result-cases stuck returns = elim returns [ ]
Result-cases (err failure) returns = inr (failure, refl)
Result-cases (ok x) returns = inl (x, refl)

pub guard-leb : (m n : ℕ) (e : Error) → m ≤ n → guard (leb m n) e ≡ ok tt
guard-leb m n e h = ground arith
