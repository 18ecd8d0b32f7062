-- ===== src/Server/GroupPolicy/Resolved.antt =====
-- The groups that a checked policy gives a peer.
use tak_rs.Common.{
  ℕ, ◌<◌, Bool, false, ◌||◌, Option, none, some, List, [], ◌∷◌, Str, list_eq, nat_eq, ◌≡◌, refl,
  arith, Option-cases, inl, inr,
}
use tak_rs.Bus.Groups.{GroupBitvector, empty}
use tak_rs.Bus.Groups.Members.{member, member-with_bit, member-empty}
use tak_rs.Net.Auth.{StrMap, get}
use tak_rs.Net.Auth.Bits.{has_bit}
use tak_rs.Server.GroupPolicy.{
  GroupPolicy, ok, out_of_range, check_policy, add_bit, add_units, resolve_groups,
}

-- Whether the policy maps one of the units to the group.
abbrev pub granted : GroupPolicy → List (Option Str) → ℕ → Bool
granted policy [] n = false
granted policy (none ∷ ous) n = granted policy ous n
granted policy (some ou ∷ ous) n = has_bit (get ou policy.ou_to_bit) n || granted policy ous n

abbrev pub granted_by : GroupPolicy → Option (List (Option Str)) → ℕ → Bool
granted_by policy none n = false
granted_by policy (some ous) n = granted policy ous n

-- The units of the first certificate, if there is one that can be parsed.
abbrev pub leaf_units :
    {Cert : Type 0} → (Cert → Option (List (Option Str))) → List Cert → Option (List (Option Str))
leaf_units units [] = none
leaf_units units (leaf ∷ certs) = units leaf

in_range :
    (ou : Str) (bit : ℕ) (m : StrMap ℕ) → out_of_range m ≡ none → get ou m ≡ some bit → bit < 256
unfolding out_of_range get
in_range ou bit [] h e = cc
in_range ou bit ((k, b) ∷ m) h e = ground (arith, h, e, in_range ou bit m)

member-add_bit :
    (o : Option ℕ) (g : GroupBitvector) (n : ℕ)
    → ((bit : ℕ) → o ≡ some bit → bit < 256)
    → member (add_bit o g) n ≡ (has_bit o n || member g n)
member-add_bit none g n h = refl
member-add_bit (some bit) g n h = ground (arith, h bit refl, member-with_bit g bit n)

member-add_units :
    (policy : GroupPolicy) (ous : List (Option Str)) (g : GroupBitvector) (n : ℕ)
    → out_of_range policy.ou_to_bit ≡ none
    → member (add_units policy ous g) n ≡ (granted policy ous n || member g n)
unfolding add_units
member-add_units policy [] g n h = refl
member-add_units policy (none ∷ ous) g n h = member-add_units policy ous g n h
member-add_units policy (some ou ∷ ous) g n h = ground (
  arith,
  member-add_units policy ous (add_bit (get ou policy.ou_to_bit) g) n h,
  member-add_bit (get ou policy.ou_to_bit) g n (λ bit e. in_range ou bit policy.ou_to_bit h e),
)

-- Under a policy that the loader accepted, a peer has exactly the groups that the policy gives to a
-- unit of its first certificate; without a certificate that can be parsed it has none.
pub member-resolve_groups :
    {Cert : Type 0} (units : Cert → Option (List (Option Str))) (certs : List Cert)
    (policy : GroupPolicy) (n : ℕ)
    → check_policy policy ≡ ok policy
    → member (resolve_groups units certs policy) n ≡ granted_by policy (leaf_units units certs) n
unfolding resolve_groups check_policy
member-resolve_groups units [] policy n h = member-empty n
member-resolve_groups units (leaf ∷ certs) policy n h = elim (Option-cases (units leaf)) [
  | inl e ↦ rw (resolve_groups, e) (member-empty n)
  | inr (ous, e) ↦
      rw (resolve_groups, e)
        (ground (arith, member-empty n, member-add_units policy ous empty n accepted))
]
  where
    accepted : out_of_range policy.ou_to_bit ≡ none
    accepted = elim (Option-cases (out_of_range policy.ou_to_bit)) [
      | inl e ↦ e
      | inr ((ou, bit), e) ↦ absurd (cc (rw (check_policy, e) at h))
    ]
