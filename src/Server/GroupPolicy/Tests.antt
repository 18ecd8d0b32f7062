-- ===== src/Server/GroupPolicy/Tests.antt =====
-- The theorem of the group policy at a policy with two units.
use tak_rs.Common.{Option, none, some, List, [], ◌∷◌, Str, str, ◌≡◌, refl}
use tak_rs.Bus.Groups.Members.{member}
use tak_rs.Server.GroupPolicy.{GroupPolicy, check_policy, resolve_groups, ok, out_of_range}
use tak_rs.Server.GroupPolicy.Resolved.{granted_by, leaf_units, member-resolve_groups}

abbrev policy : GroupPolicy
policy = record { ou_to_bit = (str "Cyan", 3) ∷ (str "Blue", 70) ∷ [] }

-- A certificate is its list of units.
abbrev units_of : List (Option Str) → Option (List (Option Str))
units_of = some

policy_accepted : check_policy policy ≡ ok policy
unfolding check_policy out_of_range
policy_accepted = refl

abbrev certs : List (List (Option Str))
certs = (none ∷ some (str "Blue") ∷ []) ∷ []

member-resolve_groups_example :
    member (resolve_groups units_of certs policy) 70
    ≡ granted_by policy (leaf_units units_of certs) 70
member-resolve_groups_example = member-resolve_groups units_of certs policy 70 policy_accepted
