-- ===== src/Server/GroupPolicy.antt =====
-- crates/tak-server/src/group_policy.rs: the groups of a peer, by the organizational units of its
-- certificate.
pub mod Resolved
mod Tests
use tak_rs.Common.{ℕ, Bool, true, false, Option, none, some, List, [], ◌∷◌, leb, if◌then◌else◌, Str}
use tak_rs.Bus.Groups.{GroupBitvector, empty, with_bit}
use tak_rs.Net.Auth.{StrMap, get}

-- `ou_to_bit`, a `HashMap<String, u16>`
pub record GroupPolicy : Type 0 where
  pub ou_to_bit : StrMap ℕ

abbrev pub default_policy : GroupPolicy
default_policy = record { ou_to_bit = [] }

pub data GroupPolicyError : Type 0 where
  read parse : GroupPolicyError
  bit_out_of_range : Str → ℕ → GroupPolicyError

pub data Loaded : Type 0 where
  ok : GroupPolicy → Loaded
  err : GroupPolicyError → Loaded

-- The loop of `load_from_path`: the first bit that is out of range.
unfoldable pub out_of_range : StrMap ℕ → Option (Str × ℕ)
out_of_range [] = none
out_of_range ((ou, bit) ∷ m) =
    let rest = out_of_range m in if leb 256 bit then some (ou, bit) else rest

-- What `load_from_path` makes of the policy that was read and parsed.
unfoldable pub check_policy : GroupPolicy → Loaded
unfolding out_of_range
check_policy policy = elim (out_of_range policy.ou_to_bit) [
  | none ↦ ok policy
  | some (ou, bit) ↦ err (bit_out_of_range ou bit)
]

abbrev pub add_bit : Option ℕ → GroupBitvector → GroupBitvector
add_bit none groups = groups
add_bit (some bit) groups = with_bit groups bit

-- The loop over the units; one that is not text is skipped.
unfoldable pub add_units : GroupPolicy → List (Option Str) → GroupBitvector → GroupBitvector
add_units policy [] groups = groups
add_units policy (none ∷ ous) groups = add_units policy ous groups
add_units policy (some ou ∷ ous) groups =
    add_units policy ous (add_bit (get ou policy.ou_to_bit) groups)

module _ {Cert : Type 0}
    -- `parse_x509_certificate`, with the organizational units of the subject
    (units : Cert → Option (List (Option Str))) where
  unfoldable pub resolve_groups : List Cert → GroupPolicy → GroupBitvector
  unfolding add_units
  resolve_groups [] policy = empty
  resolve_groups (leaf ∷ certs) policy = elim (units leaf) [
    | none ↦ empty
    | some ous ↦ add_units policy ous empty
  ]
