-- ===== src/Errors.antt =====
-- src/lib.rs: the crate's `Error` and `Result`. A text that the source formats is kept as the
-- number that it shows.
use msdelta.Base.{ℕ, List, String, ◌≡◌, refl, Bool, true, false, if◌then◌else◌}

pub data Error : Type 0 where
  truncated : Error
  bad_magic : (expected got : List ℕ) → Error
  bitstream_exhausted : (needed available : ℕ) → Error
  invalid_var_int : Error
  hash_too_large : (size max : ℕ) → Error
  malformed : String → Error
  unsupported : String → Error
  hash_mismatch : (expected got : String) → Error
  pa19 : String → ℕ → Error
  base_manifest : String → Error

pub data Result {ℓ} (T : Type ℓ) : Type ℓ where
  err : Error → Result T
  ok : T → Result T

-- The `?` operator.
abbrev pub ◌>>=◌ {ℓ κ} : {S : Type ℓ} {T : Type κ} → Result S → (S → Result T) → Result T
err failure >>= next = err failure
ok value >>= next = next value

infixl 5 ◌>>=◌
-- What stands behind a `?` whose chain succeeds.
pub >>=-ok {ℓ κ} :
    {S : Type ℓ} {T : Type κ} (first : Result S) (next : S → Result T) {out : T}
    → (first >>= next) ≡ ok out
    → (value : S) × (first ≡ ok value) × (next value ≡ ok out)
>>=-ok (err failure) next h = cc
>>=-ok (ok value) next h = (value, refl, h)

-- What a guard that let its code through says of its condition.
pub unless-ok {ℓ} :
    {A : Type ℓ} (c : Bool) (e : Error) {m : Result A} {b : A}
    → (if c then err e else m) ≡ ok b
    → (c ≡ false) × (m ≡ ok b)
unless-ok true e h = cc
unless-ok false e h = (refl, h)

pub when-ok {ℓ} :
    {A : Type ℓ} (c : Bool) (e : Error) {m : Result A} {b : A}
    → (if c then m else err e) ≡ ok b
    → (c ≡ true) × (m ≡ ok b)
when-ok true e h = (refl, h)
when-ok false e h = cc

pub ok-injective {ℓ} : {A : Type ℓ} {a b : A} → ok a ≡ ok b → a ≡ b
ok-injective e = cc
