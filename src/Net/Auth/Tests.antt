-- ===== src/Net/Auth/Tests.antt =====
-- The theorems of the users and of the group registry at two users and two groups.
use tak_rs.Common.{ℕ, false, Option, none, some, List, [], ◌∷◌, Str, str, ◌≡◌, arith}
use tak_rs.Bus.Groups.Members.{member}
use tak_rs.Net.Auth.{
  User, anonymous, from_users, by_identifier, by_fingerprint, no_groups, bitvector_for,
}
use tak_rs.Net.Auth.Bits.{covers, no_groups-IsValid, member-bitvector_for}
use tak_rs.Net.Auth.Users.{last_with, lookup-from_users}
use tak_rs.Net.Auth.Resolve.{Authenticator, resolve}
use tak_rs.Net.Auth.Cached.{resolve_again}

abbrev viper : User
viper = record {
  identifier = str "VIPER01";
  fingerprint = some (str "AB");
  password = none;
  password_hashed = false;
  role = anonymous;
  group_list = str "Cyan" ∷ str "Blue" ∷ [];
  group_list_in = str "Spectator" ∷ [];
  group_list_out = [];
}

abbrev two_groups : List Str
two_groups = str "Cyan" ∷ str "Blue" ∷ []

member-bitvector_for_example :
    member (bitvector_for two_groups no_groups).0 1
    ≡ covers (bitvector_for two_groups no_groups).1 two_groups 1
member-bitvector_for_example =
    member-bitvector_for two_groups no_groups 1 no_groups-IsValid (omega arith)

lookup-from_users_example :
    (by_identifier (from_users (viper ∷ [])) (str "VIPER01")
      ≡ last_with (λ u. some u.identifier) (str "VIPER01") (viper ∷ []))
    × (by_fingerprint (from_users (viper ∷ [])) (str "VIPER01")
        ≡ last_with (λ u. u.fingerprint) (str "VIPER01") (viper ∷ []))
lookup-from_users_example = lookup-from_users (viper ∷ []) (str "VIPER01")

-- A digest that is the certificate, and a subject named like the user.
abbrev digest : List ℕ → List ℕ
digest der = der

abbrev subject : List ℕ → Option (List (Option Str))
subject der = some (none ∷ some (str "VIPER01") ∷ [])

abbrev auth : Authenticator
auth = record { users = from_users (viper ∷ []); groups = no_groups; cache = [] }

resolve_again_example :
    resolve digest subject (1 ∷ 2 ∷ []) (resolve digest subject (1 ∷ 2 ∷ []) auth).1
    ≡ ((resolve digest subject (1 ∷ 2 ∷ []) auth).0, (resolve digest subject (1 ∷ 2 ∷ []) auth).1)
resolve_again_example = resolve_again digest subject (1 ∷ 2 ∷ []) auth
