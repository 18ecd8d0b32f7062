-- ===== src/Cot/Proto/Decimal.antt =====
-- Unsigned numbers as text: `Display`, and `str::parse::<u32>()`.
use tak_rs.Common.{
  ℕ, zero, suc, ◌+◌, ◌-◌, ◌*◌, ◌/◌, ◌%◌, ◌^◌, ◌<◌, Option, none, some, [], ◌∷◌, ◌||◌, ◌==◌, ltb,
  leb, true, if◌then◌else◌, is_empty, Str, ◌≡◌, refl, ap, sym, ◌∙◌, arith, Bool, false,
}
use tak_rs.Cot.Xml.Attrs.{IsPlain}

-- The digits in front of `out`; a number of `slots` digits at most.
unfoldable pub digits : ℕ → ℕ → Str → Str
digits zero n out = out
digits (suc slots) n out =
    let more = digits slots (n / 10) ((b'0' + n % 10) ∷ out) in if ltb 0 n then more else out

-- A `u64` has 20 digits at most.
unfoldable pub display : ℕ → Str
display n = if n == 0 then b'0' ∷ [] else digits 20 n []

-- `checked_mul` and `checked_add` on a `u32`
unfoldable pub scan_u32 : Str → ℕ → Option ℕ
scan_u32 [] n = some n
scan_u32 (c ∷ s) n =
    let next = scan_u32 s (n * 10 + (c - b'0')) in
    if ltb c b'0' || ltb b'9' c
    then none
    else if leb (2 ^ 32) (n * 10 + (c - b'0'))
    then none
    else next

-- One sign is allowed in front of the digits.
unfoldable pub parse_u32 : Str → Option ℕ
unfolding scan_u32
parse_u32 [] = none
parse_u32 (c ∷ s) =
    if c == b'+' then (if is_empty s then none else scan_u32 s 0) else scan_u32 (c ∷ s) 0

scan_last :
    (n : ℕ) (out : Str) → n < 2 ^ 32 → scan_u32 ((b'0' + n % 10) ∷ out) (n / 10) ≡ scan_u32 out n
unfolding scan_u32
scan_last n out h = ground arith

scan-digits :
    (slots n : ℕ) (out : Str)
    → n < 10 ^ slots
    → n < 2 ^ 32
    → scan_u32 (digits slots n out) 0 ≡ scan_u32 out n
unfolding digits
scan-digits zero n out h k = ap (scan_u32 out) (omega arith)
scan-digits (suc slots) n out h k =
    ground (arith, scan_last n out k, scan-digits slots (n / 10) ((b'0' + n % 10) ∷ out))

-- Behind a digit the first byte is a digit still, and so no sign.
parse_u32-digits :
    (slots n : ℕ) (c : ℕ) (out : Str)
    → leb b'0' c ≡ true
    → parse_u32 (digits slots n (c ∷ out)) ≡ scan_u32 (digits slots n (c ∷ out)) 0
unfolding digits parse_u32
parse_u32-digits zero n c out h = ground (arith, h)
parse_u32-digits (suc slots) n c out h =
    go (parse_u32-digits slots (n / 10) (b'0' + n % 10) (c ∷ out) (ground arith)) (ltb 0 n)
  where
    more : Str
    more = digits slots (n / 10) ((b'0' + n % 10) ∷ c ∷ out)

    go :
        parse_u32 more ≡ scan_u32 more 0
        → (b : Bool)
        → parse_u32 (if b then more else c ∷ out) ≡ scan_u32 (if b then more else c ∷ out) 0
    go ih true = ih
    go ih false = ground (arith, h)

first_digit :
    (slots n : ℕ) (out : Str)
    → 0 < n
    → digits (suc slots) n out ≡ digits slots (n / 10) ((b'0' + n % 10) ∷ out)
unfolding digits
first_digit slots n out h = ground (arith, h)

-- Every `u32` is read back from its text.
pub parse_u32-display : (n : ℕ) → n < 2 ^ 32 → parse_u32 (display n) ≡ some n
unfolding display parse_u32 scan_u32
parse_u32-display n h = go (n == 0) refl
  where
    go : (b : Bool) → (n == 0) ≡ b → parse_u32 (if b then b'0' ∷ [] else digits 20 n []) ≡ some n
    go true e = ap some (ground (arith, e))
    go false e =
        ap parse_u32 (first_digit 19 n [] (ground (arith, e)))
        ∙ parse_u32-digits 19 (n / 10) (b'0' + n % 10) [] (ground arith)
        ∙ ap (λ s. scan_u32 s 0) (sym (first_digit 19 n [] (ground (arith, e))))
        ∙ scan-digits 20 n [] (omega (arith, h)) h

-- Digits need no escape.
digits-IsPlain : (slots n : ℕ) (out : Str) → IsPlain out → IsPlain (digits slots n out)
unfolding digits
digits-IsPlain zero n out h = h
digits-IsPlain (suc slots) n out h =
    go (digits-IsPlain slots (n / 10) ((b'0' + n % 10) ∷ out) (ground arith, h)) (ltb 0 n)
  where
    go :
        IsPlain (digits slots (n / 10) ((b'0' + n % 10) ∷ out))
        → (b : Bool) → IsPlain (if b then digits slots (n / 10) ((b'0' + n % 10) ∷ out) else out)
    go ih true = ih
    go ih false = h

pub display-IsPlain : (n : ℕ) → IsPlain (display n)
unfolding display
display-IsPlain n = go (n == 0)
  where
    go : (b : Bool) → IsPlain (if b then b'0' ∷ [] else digits 20 n [])
    go true = (refl, tt)
    go false = digits-IsPlain 20 n [] tt
