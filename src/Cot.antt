-- ===== src/Cot.antt =====
-- crates/tak-cot/src/lib.rs: the errors of the codec, and its result type.
pub mod Framing
pub mod Xml
pub mod Proto
use Prim.Native.String.{String}
use tak_rs.Common.{ℕ, ◌≡◌, ◌≢◌, ◌⊎◌, inl, inr, refl, Bool, true, false}

pub data Error : Type 0 where
  invalid_magic : ℕ → Error
  incomplete : ℕ → ℕ → Error
  xml : String → Error
  framing : String → Error
  entity_not_supported : Error
  missing_event_attr : String → Error
  missing_point_attr : String → Error
  special_char_in_value : ℕ → Error
  proto : String → Error
  io : String → Error

-- `panic` is no value of the source: an index or a slice was out of range.
pub data Result {ℓ} (A : Type ℓ) : Type ℓ where
  ok : A → Result A
  err : Error → Result A
  panic : Result A

infixl 5 ◌>>=◌
abbrev pub ◌>>=◌ {ℓ κ} : {A : Type ℓ} {B : Type κ} → Result A → (A → Result B) → Result B
panic >>= f = panic
err e >>= f = err e
ok a >>= f = f a

-- The error that more input may mend.
abbrev pub is_incomplete : Error → Bool
is_incomplete (incomplete need have) = true
is_incomplete _ = false

-- What a chain did, by how it ended.
module _ {ℓ κ} {A : Type ℓ} {B : Type κ} (f : A → Result B) where
  pub bind-eq-ok : (m : Result A) {b : B} → (m >>= f) ≡ ok b → (a : A) × (m ≡ ok a) × (f a ≡ ok b)
  bind-eq-ok panic h = cc
  bind-eq-ok (err e) h = cc
  bind-eq-ok (ok a) h = (a, refl, h)

  pub bind-eq-err :
      (m : Result A) {e : Error}
      → (m >>= f) ≡ err e
      → (m ≡ err e) ⊎ ((a : A) × (m ≡ ok a) × (f a ≡ err e))
  bind-eq-err panic h = cc
  bind-eq-err (err e) h = inl (cc)
  bind-eq-err (ok a) h = inr (a, refl, h)

  pub bind-ne-panic :
      (m : Result A) → m ≢ panic → ((a : A) → m ≡ ok a → f a ≢ panic) → (m >>= f) ≢ panic
  bind-ne-panic panic hm hf = λ p. hm refl
  bind-ne-panic (err e) hm hf = λ p. cc
  bind-ne-panic (ok a) hm hf = hf a refl
