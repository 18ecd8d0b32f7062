-- ===== src/Mission.antt =====
-- The registry of subscription tokens of crates/tak-mission/src/lib.rs, one operation at a time.
pub mod Tokens
mod Tests
use tak_rs.Common.{
  ℕ, zero, suc, ◌+◌, ◌-◌, ◌/◌, ◌%◌, ◌^◌, ltb, Option, List, [], ◌∷◌, ◌++◌, ◌=?◌, if◌then◌else◌, Str,
  str, list_eq, nat_eq,
}
use tak_rs.Net.Auth.{StrMap, get, insert}

pub record SubscriptionInfo : Type 0 where
  pub mission_name : Str

pub record SubscriptionRegistry : Type 0 where
  pub next_id : ℕ
  pub by_token : StrMap SubscriptionInfo

abbrev pub empty_registry : SubscriptionRegistry
empty_registry = record { next_id = 0; by_token = [] }

abbrev pub lower_hex_digit : ℕ → ℕ
lower_hex_digit d = if ltb d 10 then b'0' + d else b'a' + (d - 10)

-- The last `places` digits of a number in hexadecimal, in front of `out`.
unfoldable pub hex : ℕ → ℕ → Str → Str
hex zero n out = out
hex (suc places) n out = hex places (n / 16) (lower_hex_digit (n % 16) ∷ out)

-- `format!("sub-{id:016x}")` of a `u64`
unfoldable pub format_token : ℕ → Str
format_token id = str "sub-" ++ hex 16 id []

unfoldable pub remove {ℓ} : {V : Type ℓ} → Str → StrMap V → StrMap V
remove k [] = []
remove k ((k', v) ∷ m) = let rest = remove k m in if k' =? k then rest else (k', v) ∷ rest

unfoldable pub mint : Str → SubscriptionRegistry → Str × SubscriptionRegistry
mint mission_name r =
    let token = format_token r.next_id in
    (
      token,
      record {
        next_id = (r.next_id + 1) % 2 ^ 64;
        by_token = insert token (record { mission_name = mission_name }) r.by_token;
      },
    )

unfoldable pub lookup : Str → SubscriptionRegistry → Option SubscriptionInfo
lookup token r = get token r.by_token

unfoldable pub release : Str → SubscriptionRegistry → SubscriptionRegistry
release token r = record r { by_token = remove token r.by_token }
