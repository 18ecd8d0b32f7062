-- ===== src/Net/Auth/Cached.antt =====
-- What `resolve` leaves behind: a certificate that was resolved is answered from the cache.
use tak_rs.Common.{
  ℕ, Option, some, List, =?_iff, is_empty, Str, list_eq, nat_eq, ◌≡◌, refl, arith, Option-cases,
  Bool-cases, inl, inr,
}
use mathlib.Core.Option
use mathlib.Core.Path.{ap}
use tak_rs.Bus.Groups.{GroupBitvector}
use tak_rs.Net.Auth.{User, get, bitvector_for, all_inbound_groups, by_identifier, by_fingerprint}
use tak_rs.Net.Auth.Bits.{get-insert}
use tak_rs.Net.Auth.Resolve.{
  Answer, ok, err, Authenticator, admit, resolve_name, resolve_uncached, resolve, parse_leaf_cn,
  format_fingerprint,
}

module _ (sha256 : List ℕ → List ℕ) (common_names : List ℕ → Option (List (Option Str))) where
  -- After an answer, either it is an error and nothing changed, or the cache has it.
  Kept : List ℕ → Authenticator → Answer (Str × GroupBitvector) × Authenticator → Type 0
  Kept key auth (err e, after) = after ≡ auth
  Kept key auth (ok (user_id, bv), after) =
      get key after.cache ≡ some (record { user_id = user_id; bitvector = bv })

  admit-Kept :
      (key : List ℕ) (user : User) (auth : Authenticator)
      → Kept key auth (admit sha256 common_names key user auth)
  unfolding Kept admit
  admit-Kept key user auth = ground (
    arith,
    =?_iff key key,
    get-insert key key
        (record {
          user_id = user.identifier;
          bitvector = (bitvector_for (all_inbound_groups user) auth.groups).0;
        })
        auth.cache,
  )

  resolve_name-Kept :
      (key : List ℕ) (fingerprint : Str) (cn : Answer (Option Str)) (auth : Authenticator)
      → Kept key auth (resolve_name sha256 common_names key fingerprint cn auth)
  unfolding Kept resolve_name
  resolve_name-Kept key fingerprint (err e) auth = refl
  resolve_name-Kept key fingerprint (ok cn) auth =
      elim (Option-cases (Option.bind cn (by_identifier auth.users))) [
        | inl e ↦ rw (Kept, resolve_name, e) refl
        | inr (user, e) ↦ rw (resolve_name, e) (admit-Kept key user auth)
      ]

  resolve_uncached-Kept :
      (der : List ℕ) (auth : Authenticator)
      → Kept (sha256 der) auth (resolve_uncached sha256 common_names der auth)
  unfolding resolve_uncached
  resolve_uncached-Kept der auth =
      elim (Option-cases (by_fingerprint auth.users (format_fingerprint (sha256 der)))) [
        | inl e ↦
            rw (resolve_uncached, e)
              (resolve_name-Kept (sha256 der) (format_fingerprint (sha256 der))
                (parse_leaf_cn sha256 common_names der) auth)
        | inr (user, e) ↦ rw (resolve_uncached, e) (admit-Kept (sha256 der) user auth)
      ]

  resolve-Kept :
      (der : List ℕ) (auth : Authenticator)
      → Kept (sha256 der) auth (resolve sha256 common_names der auth)
  unfolding resolve Kept
  resolve-Kept der auth = elim (Bool-cases (is_empty der)) [
    | inl e ↦ rw e refl
    | inr ne ↦ elim (Option-cases (get (sha256 der) auth.cache)) [
      | inl e ↦ rw (ne, e) (resolve_uncached-Kept der auth)
      | inr (entry, e) ↦ rw (ne, e) e
    ]
  ]

  -- Resolving a certificate again gives the same answer, an error included, and changes nothing.
  pub resolve_again :
      (der : List ℕ) (auth : Authenticator)
      → (let (answer, after) = resolve sha256 common_names der auth in
          resolve sha256 common_names der after ≡ (answer, after))
  unfolding Kept resolve
  resolve_again der auth = go (resolve sha256 common_names der auth) refl (resolve-Kept der auth)
    where
      go :
          (r : Answer (Str × GroupBitvector) × Authenticator)
          → resolve sha256 common_names der auth ≡ r
          → Kept (sha256 der) auth r
          → resolve sha256 common_names der r.1 ≡ r
      go (err e, after) h k = cc (h, k)
      go (ok (user_id, bv), after) h k = elim (Bool-cases (is_empty der)) [
        | inl nothing ↦ absurd (
            cc (
              ap (λ (x : Answer (Str × GroupBitvector) × Authenticator). x.0)
                (rw (resolve, nothing) at h)))
        | inr ne ↦ rw (resolve, ne, k) refl
      ]
