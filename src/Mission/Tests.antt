-- ===== src/Mission/Tests.antt =====
-- Two tokens of the registry of crates/tak-mission/src/lib.rs.
use tak_rs.Common.{none, str, ◌≡◌, refl, arith, inl, list_eqb}
use tak_rs.Net.Auth.{get, insert}
use tak_rs.Mission.{
  SubscriptionRegistry, empty_registry, hex, format_token, remove, mint, lookup, release,
}
use tak_rs.Mission.Tokens.{IsValid, Minted, mint-Minted}

one_token : (mint (str "alpha") empty_registry).0 ≡ str "sub-0000000000000000"
unfolding mint format_token hex
one_token = refl

large_token : format_token 43981 ≡ str "sub-000000000000abcd"
unfolding format_token hex
large_token = refl

released_token :
    lookup
      (str "sub-0000000000000000")
      (release (str "sub-0000000000000000") (mint (str "alpha") empty_registry).1)
    ≡ none
unfolding lookup release mint format_token hex get insert remove list_eqb
released_token = refl

empty_registry-IsValid : IsValid empty_registry
unfolding lookup get
empty_registry-IsValid = record { next_bound = omega arith; minted = λ token. inl refl }

abbrev one_live : SubscriptionRegistry
one_live = (mint (str "alpha") empty_registry).1

one_live-IsValid : IsValid one_live
one_live-IsValid =
    (mint-Minted (str "alpha") empty_registry empty_registry-IsValid (omega arith)).stays_valid

next_id-one_live : one_live.next_id ≡ 1
unfolding mint
next_id-one_live = refl

mint-Minted_example : Minted (str "bravo") one_live
mint-Minted_example =
    mint-Minted (str "bravo") one_live one_live-IsValid (rw next_id-one_live (omega arith))
