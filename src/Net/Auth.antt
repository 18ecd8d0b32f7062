-- ===== src/Net/Auth.antt =====
-- crates/tak-net/src/auth.rs: users, groups, and the resolution of a certificate. A hash map is an
-- association list; a concurrent one is taken one operation at a time.
pub mod Bits
pub mod Users
pub mod Resolve
pub mod Cached
mod Tests
use tak_rs.Common.{
  ℕ, ◌+◌, ◌%◌, ◌^◌, Bool, true, false, Option, none, some, List, [], ◌∷◌, ◌++◌, leb, ◌=?◌,
  if◌then◌else◌, length, get_elem?, is_empty, Str, list_eq, nat_eq,
}
use mathlib.Core.Option
use tak_rs.Bus.Groups.{GroupBitvector, empty, with_bit}

pub data Role : Type 0 where
  admin read_only anonymous non_admin_ui web_tak nonexistent : Role

pub record User : Type 0 where
  pub identifier : Str
  pub fingerprint : Option Str
  pub password : Option Str
  pub password_hashed : Bool
  pub role : Role
  pub group_list : List Str
  pub group_list_in : List Str
  pub group_list_out : List Str

abbrev pub all_inbound_groups : User → List Str
all_inbound_groups u = u.group_list ++ u.group_list_in

abbrev pub all_outbound_groups : User → List Str
all_outbound_groups u = u.group_list ++ u.group_list_out

-- `HashMap<String, V>` with `get` and `insert`.
abbrev pub StrMap {ℓ} : Type ℓ → Type ℓ
StrMap V = List (Str × V)

unfoldable pub get {ℓ} : {V : Type ℓ} → Str → StrMap V → Option V
get k [] = none
get k ((k', v) ∷ m) = if k' =? k then some v else get k m

unfoldable pub insert {ℓ} : {V : Type ℓ} → Str → V → StrMap V → StrMap V
insert k v [] = (k, v) ∷ []
insert k v ((k', v') ∷ m) = if k' =? k then (k, v) ∷ m else (k', v') ∷ insert k v m

pub record UserStore : Type 0 where
  pub users : List User
  pub by_identifier : StrMap ℕ
  pub by_fingerprint : StrMap ℕ

abbrev pub no_users : UserStore
no_users = record { users = []; by_identifier = []; by_fingerprint = [] }

abbrev pub index_fingerprint : Option Str → ℕ → StrMap ℕ → StrMap ℕ
index_fingerprint none idx m = m
index_fingerprint (some fp) idx m = insert fp idx m

unfoldable pub add_user : User → UserStore → UserStore
add_user user store =
    let idx = length store.users in
    record {
      users = store.users ++ (user ∷ []);
      by_identifier = insert user.identifier idx store.by_identifier;
      by_fingerprint = index_fingerprint user.fingerprint idx store.by_fingerprint;
    }

-- The loop of `from_users`.
unfoldable pub add_users : List User → UserStore → UserStore
unfolding add_user
add_users [] store = store
add_users (user ∷ users) store = add_users users (add_user user store)

unfoldable pub from_users : List User → UserStore
from_users users = add_users users no_users

unfoldable pub by_identifier : UserStore → Str → Option User
by_identifier store identifier =
    Option.bind (get identifier store.by_identifier) (λ i. get_elem? store.users i)

unfoldable pub by_fingerprint : UserStore → Str → Option User
by_fingerprint store fingerprint =
    Option.bind (get fingerprint store.by_fingerprint) (λ i. get_elem? store.users i)

pub record GroupRegistry : Type 0 where
  pub bits : StrMap ℕ
  pub next : ℕ

abbrev pub no_groups : GroupRegistry
no_groups = record { bits = []; next = 0 }

-- The counter is 16 bits wide, and `fetch_add` wraps.
unfoldable pub assign : Str → Option ℕ → GroupRegistry → ℕ × GroupRegistry
assign name (some bit) reg = (bit, reg)
assign name none reg =
    let bit = if leb 256 reg.next then 255 else reg.next in
    (bit, record { bits = insert name bit reg.bits; next = (reg.next + 1) % 2 ^ 16 })

unfoldable pub intern : Str → GroupRegistry → ℕ × GroupRegistry
unfolding assign
intern name reg = assign name (get name reg.bits) reg

-- The loop of `bitvector_for`.
unfoldable pub add_groups :
    List Str → GroupBitvector → GroupRegistry → GroupBitvector × GroupRegistry
unfolding intern
add_groups [] bv reg = (bv, reg)
add_groups (name ∷ names) bv reg =
    let (bit, after) = intern name reg in add_groups names (with_bit bv bit) after

unfoldable pub bitvector_for : List Str → GroupRegistry → GroupBitvector × GroupRegistry
bitvector_for names reg = add_groups names empty reg
