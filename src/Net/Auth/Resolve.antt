-- ===== src/Net/Auth/Resolve.antt =====
-- `Authenticator::resolve` of crates/tak-net/src/auth.rs, and the lookups of the user store.
use tak_rs.Common.{
  ℕ, ◌+◌, ◌/◌, ◌%◌, Option, none, some, List, [], ◌∷◌, ◌++◌, ltb, if◌then◌else◌, is_empty, Str,
  list_eq, nat_eq,
}
use mathlib.Core.Option
use tak_rs.Bus.Groups.{GroupBitvector}
use tak_rs.Net.Auth.{
  User, UserStore, StrMap, get, insert, by_identifier, by_fingerprint, GroupRegistry, bitvector_for,
  all_inbound_groups,
}

pub data Error : Type 0 where
  empty_cert_chain : Error
  x509_parse : Error
  unknown_user : Str → Option Str → Error

pub data Answer {ℓ} (A : Type ℓ) : Type ℓ where
  ok : A → Answer A
  err : Error → Answer A

pub record ResolvedIdentity : Type 0 where
  pub user_id : Str
  pub bitvector : GroupBitvector

pub record Authenticator : Type 0 where
  pub users : UserStore
  pub groups : GroupRegistry
  pub cache : StrMap ResolvedIdentity

-- A digit of `{:02X}`.
abbrev pub hex_digit : ℕ → ℕ
hex_digit d = if ltb d 10 then d + 48 else d + 55

abbrev pub hex_byte : ℕ → Str
hex_byte b = hex_digit (b / 16) ∷ hex_digit (b % 16) ∷ []

abbrev pub more_bytes : List ℕ → Str
more_bytes [] = []
more_bytes (b ∷ bytes) = b':' ∷ (hex_byte b ++ more_bytes bytes)

unfoldable pub format_fingerprint : List ℕ → Str
format_fingerprint [] = []
format_fingerprint (b ∷ bytes) = hex_byte b ++ more_bytes bytes

-- The first common name that is text.
abbrev pub first_name : List (Option Str) → Option Str
first_name [] = none
first_name (none ∷ names) = first_name names
first_name (some cn ∷ names) = some cn

module _
    -- `Sha256::digest`
    (sha256 : List ℕ → List ℕ)
    -- `parse_x509_certificate`, with the common names of the subject
    (common_names : List ℕ → Option (List (Option Str))) where
  unfoldable pub parse_leaf_cn : List ℕ → Answer (Option Str)
  parse_leaf_cn der = elim (common_names der) [
    | none ↦ err x509_parse
    | some names ↦ ok (first_name names)
  ]

  -- The end of `resolve`, for the user that was found.
  unfoldable pub admit :
      List ℕ → User → Authenticator → Answer (Str × GroupBitvector) × Authenticator
  admit key user auth =
      let (bv, groups) = bitvector_for (all_inbound_groups user) auth.groups in
      (
        ok (user.identifier, bv),
        record auth {
          groups = groups;
          cache = insert key (record { user_id = user.identifier; bitvector = bv }) auth.cache;
        },
      )

  unfoldable pub resolve_name :
      List ℕ
      → Str
      → Answer (Option Str)
      → Authenticator
      → Answer (Str × GroupBitvector) × Authenticator
  unfolding admit
  resolve_name key fingerprint (err e) auth = (err e, auth)
  resolve_name key fingerprint (ok cn) auth = elim (Option.bind cn (by_identifier auth.users)) [
    | none ↦ (err (unknown_user fingerprint cn), auth)
    | some user ↦ admit key user auth
  ]

  unfoldable pub resolve_uncached :
      List ℕ → Authenticator → Answer (Str × GroupBitvector) × Authenticator
  unfolding admit resolve_name parse_leaf_cn
  resolve_uncached der auth = elim (by_fingerprint auth.users (format_fingerprint (sha256 der))) [
    | some user ↦ admit (sha256 der) user auth
    | none ↦ resolve_name (sha256 der) (format_fingerprint (sha256 der)) (parse_leaf_cn der) auth
  ]

  unfoldable pub resolve : List ℕ → Authenticator → Answer (Str × GroupBitvector) × Authenticator
  unfolding resolve_uncached
  resolve der auth =
      if is_empty der then (err empty_cert_chain, auth) else elim (get (sha256 der) auth.cache) [
        | some entry ↦ (ok (entry.user_id, entry.bitvector), auth)
        | none ↦ resolve_uncached der auth
      ]
