-- ===== src/Mission/Tokens.antt =====
-- The tokens of crates/tak-mission/src/lib.rs: which are live after `mint` and `release`.
use tak_rs.Common.{
  ℕ, zero, suc, ◌+◌, ◌-◌, ◌*◌, ◌/◌, ◌%◌, ◌^◌, ◌<◌, ltb, none, some, [], ◌∷◌, ◌=?◌, =?_iff,
  if◌then◌else◌, Str, list_eq, nat_eq, ◌≡◌, sym, ap, ◌∙◌, arith, drop, Bool-cases, inl, inr, ◌⊎◌,
}
use tak_rs.Net.Auth.{StrMap, get}
use tak_rs.Net.Auth.Bits.{get-insert}
use tak_rs.Mission.{
  SubscriptionRegistry, lower_hex_digit, hex, format_token, remove, mint, lookup, release,
}

abbrev digit_value : ℕ → ℕ
digit_value c = if ltb c b'a' then c - b'0' else c - b'a' + 10

abbrev hex_value : Str → ℕ → ℕ
hex_value [] n = n
hex_value (c ∷ s) n = hex_value s (n * 16 + digit_value c)

digit_value-lower_hex_digit : (d : ℕ) → d < 16 → digit_value (lower_hex_digit d) ≡ d
digit_value-lower_hex_digit d h = ground (arith, h)

hex_value-hex :
    (places n : ℕ) (out : Str) → n < 16 ^ places → hex_value (hex places n out) 0 ≡ hex_value out n
unfolding hex
hex_value-hex zero n out h = ap (hex_value out) (omega arith)
hex_value-hex (suc places) n out h =
    hex_value-hex places (n / 16) (lower_hex_digit (n % 16) ∷ out) (ground arith)
    ∙ ap (hex_value out) (ground (arith, digit_value-lower_hex_digit (n % 16)))

format_token-Injective :
    (m n : ℕ) → m < 2 ^ 64 → n < 2 ^ 64 → format_token m ≡ format_token n → m ≡ n
unfolding format_token
format_token-Injective m n h k e =
    sym (hex_value-hex 16 m [] (omega (arith, h)))
    ∙ ap (λ s. hex_value s 0) (ap (drop 4) e)
    ∙ hex_value-hex 16 n [] (omega (arith, k))

get-remove {ℓ} :
    {V : Type ℓ} (k k' : Str) (m : StrMap V)
    → get k (remove k' m) ≡ (if k' =? k then none else get k m)
unfolding get remove
get-remove k k' [] = ground arith
get-remove k k' ((x, v) ∷ m) =
    ground (arith, get-remove k k' m, =?_iff x k, =?_iff x k', =?_iff k' k)

-- Every live token is the text of a number that was given out already.
pub record IsValid (r : SubscriptionRegistry) : Type 0 where
  pub next_bound : r.next_id < 2 ^ 64
  pub minted :
      (token : Str)
      → (lookup token r ≡ none) ⊎ ((id : ℕ) × (id < r.next_id) × (token ≡ format_token id))

fresh_token : (r : SubscriptionRegistry) → IsValid r → lookup (format_token r.next_id) r ≡ none
fresh_token r v = elim (v.minted (format_token r.next_id)) [
  | inl e ↦ e
  | inr (id, h, e) ↦ absurd (
      omega (
        arith,
        h,
        format_token-Injective r.next_id id v.next_bound (omega (arith, h, v.next_bound)) e,
      ))
]

-- What `mint` promises of its token.
pub record Minted (mission_name : Str) (r : SubscriptionRegistry) : Type 0 where
  pub was_free : lookup (mint mission_name r).0 r ≡ none
  pub looks_up :
      (token : Str)
      → lookup token (mint mission_name r).1 ≡ (
          if (mint mission_name r).0 =? token
          then some (record { mission_name = mission_name })
          else lookup token r)
  pub stays_valid : IsValid (mint mission_name r).1

-- On a valid registry that has given out fewer than 2^64 - 1 tokens: `mint` gives a token that no
-- live subscription has, it looks up the mission, every other token finds what it found before, and
-- the registry is valid.
pub mint-Minted :
    (mission_name : Str) (r : SubscriptionRegistry)
    → IsValid r
    → r.next_id + 1 < 2 ^ 64
    → Minted mission_name r
unfolding mint lookup
mint-Minted mission_name r v h = record {
  was_free = fresh_token r v;
  looks_up = looks_up;
  stays_valid = record {
    next_bound = omega (arith, h);
    minted = λ token. elim (Bool-cases (format_token r.next_id =? token)) [
      | inl same ↦
          inr (r.next_id, omega (arith, h), sym ((=?_iff (format_token r.next_id) token).0 same))
      | inr other ↦ elim (v.minted token) [
        | inl e ↦ inl (ground (arith, looks_up token, other, e))
        | inr (id, k, e) ↦ inr (id, omega (arith, h, k), e)
      ]
    ];
  };
}
  where
    looks_up :
        (token : Str)
        → lookup token (mint mission_name r).1 ≡ (
            if format_token r.next_id =? token
            then some (record { mission_name = mission_name })
            else lookup token r)
    looks_up token =
        get-insert (format_token r.next_id) token (record { mission_name = mission_name })
          r.by_token

-- On a valid registry: after `release` a token finds nothing, every other token finds what it found
-- before, and the registry is valid.
pub release-lookup :
    (token : Str) (r : SubscriptionRegistry)
    → IsValid r
    → ((other : Str)
        → lookup other (release token r) ≡ (if token =? other then none else lookup other r))
      × IsValid (release token r)
unfolding release lookup
release-lookup token r v = (
  λ other. get-remove other token r.by_token,
  record {
    next_bound = v.next_bound;
    minted = λ other. elim (v.minted other) [
      | inl e ↦ inl (ground (arith, get-remove other token r.by_token, e))
      | inr old ↦ inr old
    ];
  },
)
