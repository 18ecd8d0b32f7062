-- ===== src/Net/Auth/Users.antt =====
-- The lookups of `UserStore` in crates/tak-net/src/auth.rs, after `from_users`.
use tak_rs.Common.{
  ℕ, zero, suc, ◌<◌, Bool, false, Option, none, some, List, [], ◌∷◌, ◌++◌, ◌=?◌, if◌then◌else◌,
  length, length-append, get_elem?, Str, list_eq, nat_eq, ◌≡◌, refl, arith, Option-cases,
  Bool-cases, inl, inr,
}
use mathlib.Core.Option
use mathlib.Core.Path.{ap, ◌∙◌}
use mathlib.Core.List.{append_assoc, append-nil}
use tak_rs.Net.Auth.{
  User, UserStore, StrMap, get, add_user, add_users, from_users, no_users, index_fingerprint,
  by_identifier, by_fingerprint,
}
use tak_rs.Net.Auth.Bits.{get-insert}

abbrev pub or_else : Option User → Option User → Option User
or_else none o = o
or_else (some u) o = some u

abbrev pub has_key : Option Str → Str → Bool
has_key none k = false
has_key (some k') k = k' =? k

module _ (key : User → Option Str) where
  -- The last user with the key.
  abbrev pub last_with : Str → List User → Option User
  last_with k [] = none
  last_with k (u ∷ users) = or_else (last_with k users) (if has_key (key u) k then some u else none)

  last_with-append :
      (k : Str) (users : List User) (u : User)
      → last_with k (users ++ (u ∷ [])) ≡ (if has_key (key u) k then some u else last_with k users)
  last_with-append k [] u = ground arith
  last_with-append k (x ∷ users) u = ground (arith, last_with-append k users u)

  Indexed : List User → StrMap ℕ → Type 0
  Indexed users m =
      (k : Str)
      → (Option.bind (get k m) (λ i. get_elem? users i) ≡ last_with k users)
        × ((i : ℕ) → get k m ≡ some i → i < length users)

  get_elem?-append :
      (users : List User) (u : User) (i : ℕ)
      → i < length users
      → get_elem? (users ++ (u ∷ [])) i ≡ get_elem? users i
  get_elem?-append [] u i h = absurd (omega arith)
  get_elem?-append (x ∷ users) u zero h = refl
  get_elem?-append (x ∷ users) u (suc i) h = get_elem?-append users u i (omega arith)

  get_elem?-last :
      (users : List User) (u : User) → get_elem? (users ++ (u ∷ [])) (length users) ≡ some u
  get_elem?-last [] u = refl
  get_elem?-last (x ∷ users) u = get_elem?-last users u

  get-index :
      (o : Option Str) (k : Str) (i : ℕ) (m : StrMap ℕ)
      → get k (index_fingerprint o i m) ≡ (if has_key o k then some i else get k m)
  get-index none k i m = refl
  get-index (some k') k i m = get-insert k' k i m

  Indexed-append :
      (users : List User) (u : User) (m : StrMap ℕ)
      → Indexed users m
      → Indexed (users ++ (u ∷ [])) (index_fingerprint (key u) (length users) m)
  unfolding Indexed Option.bind
  Indexed-append users u m x k = elim (Bool-cases (has_key (key u) k)) [
    | inl same ↦ (
      rw (get-index (key u) k (length users) m, last_with-append k users u, same)
          (get_elem?-last users u),
      λ i h.
          ground
            (arith, h, same, get-index (key u) k (length users) m, length-append users (u ∷ [])),
    )
    | inr other ↦ (
      rw (get-index (key u) k (length users) m, last_with-append k users u, other)
          (elim (Option-cases (get k m)) [
            | inl e ↦ rw e (rw e at (x k).0)
            | inr (i, e) ↦ rw (e, get_elem?-append users u i ((x k).1 i e)) (rw e at (x k).0)
          ]),
      λ i h. ground (
        arith,
        h,
        other,
        (x k).1 i,
        get-index (key u) k (length users) m,
        length-append users (u ∷ []),
      ),
    )
  ]

Indexes : UserStore → Type 0
Indexes store =
    Indexed (λ u. some u.identifier) store.users store.by_identifier
    × Indexed (λ u. u.fingerprint) store.users store.by_fingerprint

add_users-Indexes :
    (users : List User) (store : UserStore) → Indexes store → Indexes (add_users users store)
unfolding Indexes add_users add_user
add_users-Indexes [] store x = x
add_users-Indexes (u ∷ users) store x = add_users-Indexes users (add_user u store) (
  Indexed-append (λ u. some u.identifier) store.users u store.by_identifier x.0,
  Indexed-append (λ u. u.fingerprint) store.users u store.by_fingerprint x.1,
)

users-add_users :
    (users : List User) (store : UserStore) → (add_users users store).users ≡ store.users ++ users
unfolding add_users add_user
users-add_users [] store = rw append-nil refl
users-add_users (u ∷ users) store = rw (users-add_users users (add_user u store), append_assoc) refl

no_users-Indexes : Indexes no_users
unfolding Indexes Indexed get Option.bind
no_users-Indexes = (λ k. (refl, λ i h. cc), λ k. (refl, λ i h. cc))

-- In the store of a list of users, an identifier finds the last user of the list that has it, and
-- a fingerprint the last user that has that.
pub lookup-from_users :
    (users : List User) (k : Str)
    → (by_identifier (from_users users) k ≡ last_with (λ u. some u.identifier) k users)
      × (by_fingerprint (from_users users) k ≡ last_with (λ u. u.fingerprint) k users)
unfolding by_identifier by_fingerprint from_users Indexes Indexed
lookup-from_users users k =
    let x = add_users-Indexes users no_users no_users-Indexes in
    (
      (x.0 k).0 ∙ ap (last_with (λ u. some u.identifier) k) (users-add_users users no_users),
      (x.1 k).0 ∙ ap (last_with (λ u. u.fingerprint) k) (users-add_users users no_users),
    )
