-- ===== src/Common/Equality.antt =====
-- Decidable equality as a Boolean test with its law, and text as a list of code points.
use Prim.Native.Nat.{ℕ}
use mathlib.Core.Path.{◌≡◌, refl}
use mathlib.Core.Logic.{◌↔◌}
use mathlib.Core.Bool.{Bool, true, false, ◌&&◌}
use mathlib.Core.List.{List, [], ◌∷◌}
use native.Mathlib.Omega.{arith}
use Prim.Native.Char.{code}
use Prim.Native.String.{String}
use tak_rs.Common.Tests.{◌==◌ as nat_eqb, ==_iff}

pub record Eq {ℓ} (A : Type ℓ) : Type ℓ where
  pub eqb : A → A → Bool
  pub eqb_iff : (a b : A) → (eqb a b ≡ true) ↔ (a ≡ b)

infix 50 ◌=?◌
abbrev pub ◌=?◌ {ℓ} : {A : Type ℓ} ⦃e : Eq A⦄ → A → A → Bool
◌=?◌ ⦃e⦄ = e.eqb

module _ {ℓ} {A : Type ℓ} ⦃e : Eq A⦄ where
  pub eqb_refl : (a : A) → (a =? a) ≡ true
  eqb_refl a = (e.eqb_iff a a).1 refl

  -- The law as a fact that names the test as the code does.
  pub =?_iff : (a b : A) → ((a =? b) ≡ true) ↔ (a ≡ b)
  =?_iff = e.eqb_iff

  pub eqb→eq : (a b : A) → (a =? b) ≡ true → a ≡ b
  eqb→eq a b = (e.eqb_iff a b).0

  pub eqb_sym : (a b : A) → (a =? b) ≡ (b =? a)
  eqb_sym a b = ground (arith, e.eqb_iff a b, e.eqb_iff b a)

instance abbrev pub nat_eq : Eq ℕ
nat_eq = record { eqb = nat_eqb; eqb_iff = ==_iff }

module _ {ℓ} {A : Type ℓ} ⦃e : Eq A⦄ where
  unfoldable pub list_eqb : List A → List A → Bool
  list_eqb [] [] = true
  list_eqb (x ∷ xs) (y ∷ ys) = (x =? y) && list_eqb xs ys
  list_eqb _ _ = false

  pub list_eqb_iff : (xs ys : List A) → (list_eqb xs ys ≡ true) ↔ (xs ≡ ys)
  unfolding list_eqb
  list_eqb_iff [] [] = ground arith
  list_eqb_iff (x ∷ xs) (y ∷ ys) = ground (arith, e.eqb_iff x y, list_eqb_iff xs ys)
  list_eqb_iff [] (y ∷ ys) = ground arith
  list_eqb_iff (x ∷ xs) [] = ground arith

  pub list_eqb-cons :
      (x y : A) (xs ys : List A) → list_eqb (x ∷ xs) (y ∷ ys) ≡ ((x =? y) && list_eqb xs ys)
  unfolding list_eqb
  list_eqb-cons x y xs ys = refl

  pub list_eqb-cons_nil : (x : A) (xs : List A) → list_eqb (x ∷ xs) [] ≡ false
  unfolding list_eqb
  list_eqb-cons_nil x xs = refl

  pub list_eqb-nil_cons : (x : A) (xs : List A) → list_eqb [] (x ∷ xs) ≡ false
  unfolding list_eqb
  list_eqb-nil_cons x xs = refl

pub list_eqb-nil {ℓ} : (A : Type ℓ) ⦃e : Eq A⦄ → list_eqb {A = A} [] [] ≡ true
unfolding list_eqb
list_eqb-nil A = refl

instance abbrev pub list_eq {ℓ} : {A : Type ℓ} ⦃e : Eq A⦄ → Eq (List A)
list_eq = record { eqb = list_eqb; eqb_iff = list_eqb_iff }

-- `str` and `String` of the source: the code points in order.
abbrev pub Str : Type 0
Str = List ℕ

-- A text literal as a `Str`.
abbrev pub str : String → Str
str String.[] = []
str (String.◌∷◌ c s) = code c ∷ str s
