-- ===== src/Net/Auth/Bits.antt =====
-- The group registry: a name keeps its bit, and a bit vector has the bits of its names.
use tak_rs.Common.{
  ℕ, ◌+◌, ◌^◌, ◌<◌, ◌≤◌, Bool, false, ◌||◌, Option, none, some, List, [], ◌∷◌, leb, ◌==◌, ◌=?◌,
  =?_iff, if◌then◌else◌, length, Str, list_eq, nat_eq, ◌≡◌, refl, arith, Option-cases, inl, inr,
}
use tak_rs.Bus.Groups.{GroupBitvector, empty, with_bit}
use tak_rs.Bus.Groups.Members.{member, member-with_bit, member-empty}
use tak_rs.Net.Auth.{
  StrMap, get, insert, GroupRegistry, no_groups, assign, intern, add_groups, bitvector_for,
}

pub get-insert {ℓ} :
    {V : Type ℓ} (k j : Str) (v : V) (m : StrMap V)
    → get j (insert k v m) ≡ (if k =? j then some v else get j m)
unfolding get insert
get-insert k j v [] = ground arith
get-insert k j v ((k', v') ∷ m) =
    ground (arith, =?_iff k' k, =?_iff k' j, =?_iff k j, get-insert k j v m)

-- Until the 16 bit counter wraps: each bit was handed out, and the first 256 names have bits of
-- their own.
pub record IsValid (reg : GroupRegistry) : Type 0 where
  pub small : (name : Str) (bit : ℕ) → get name reg.bits ≡ some bit → (bit < 256) × (bit < reg.next)
  pub distinct :
      (a b : Str) (bit : ℕ)
      → reg.next ≤ 256
      → get a reg.bits ≡ some bit
      → get b reg.bits ≡ some bit
      → a ≡ b

pub no_groups-IsValid : IsValid no_groups
unfolding get
no_groups-IsValid = record { small = λ name bit h. cc; distinct = λ a b bit h ha hb. cc }

pub intern-IsValid :
    (name : Str) (reg : GroupRegistry)
    → IsValid reg
    → reg.next + 1 < 2 ^ 16
    → IsValid (intern name reg).1
unfolding intern assign
intern-IsValid name reg v room = elim (Option-cases (get name reg.bits)) [
  | inr (bit, e) ↦ rw e v
  | inl e ↦ rw e (record {
    small = λ other bit h. ground (
      arith,
      room,
      h,
      v.small other bit,
      get-insert name other (if leb 256 reg.next then 255 else reg.next) reg.bits,
    );
    distinct = λ a b bit few ha hb. ground (
      arith,
      room,
      few,
      ha,
      hb,
      v.small a bit,
      v.small b bit,
      v.distinct a b bit,
      =?_iff name a,
      =?_iff name b,
      get-insert name a (if leb 256 reg.next then 255 else reg.next) reg.bits,
      get-insert name b (if leb 256 reg.next then 255 else reg.next) reg.bits,
    );
  })
]

-- The bit that `intern` returns is the name's from then on, and every other name keeps its own.
pub intern-get :
    (name other : Str) (reg : GroupRegistry)
    → get other (intern name reg).1.bits
      ≡ (if name =? other then some (intern name reg).0 else get other reg.bits)
unfolding intern assign
intern-get name other reg = elim (Option-cases (get name reg.bits)) [
  | inr (bit, e) ↦ rw e (ground (arith, e, =?_iff name other))
  | inl e ↦ rw e (get-insert name other (if leb 256 reg.next then 255 else reg.next) reg.bits)
]

pub intern-bit : (name : Str) (reg : GroupRegistry) → IsValid reg → (intern name reg).0 < 256
unfolding intern assign
intern-bit name reg v = elim (Option-cases (get name reg.bits)) [
  | inr (bit, e) ↦ rw e (v.small name bit e).0
  | inl e ↦ rw e (ground arith)
]

-- A name with a bit is not given another one.
intern_kept :
    (name other : Str) (bit : ℕ) (reg : GroupRegistry)
    → get other reg.bits ≡ some bit
    → get other (intern name reg).1.bits ≡ some bit
unfolding intern assign
intern_kept name other bit reg h = elim (Option-cases (get name reg.bits)) [
  | inr (b, e) ↦ rw e h
  | inl e ↦ rw e (
      ground (
        arith,
        h,
        e,
        =?_iff name other,
        get-insert name other (if leb 256 reg.next then 255 else reg.next) reg.bits,
      ))
]

add_groups_kept :
    (names : List Str) (other : Str) (bit : ℕ) (bv : GroupBitvector) (reg : GroupRegistry)
    → get other reg.bits ≡ some bit
    → get other (add_groups names bv reg).1.bits ≡ some bit
unfolding add_groups
add_groups_kept [] other bit bv reg h = h
add_groups_kept (name ∷ names) other bit bv reg h =
    add_groups_kept names other bit (with_bit bv (intern name reg).0) (intern name reg).1
      (intern_kept name other bit reg h)

-- Whether the bit is that of one of the names.
abbrev pub has_bit : Option ℕ → ℕ → Bool
has_bit none n = false
has_bit (some bit) n = bit == n

abbrev pub covers : GroupRegistry → List Str → ℕ → Bool
covers reg [] n = false
covers reg (name ∷ names) n = has_bit (get name reg.bits) n || covers reg names n

intern-next : (name : Str) (reg : GroupRegistry) → (intern name reg).1.next ≤ reg.next + 1
unfolding intern assign
intern-next name reg = elim (Option-cases (get name reg.bits)) [
  | inr (bit, e) ↦ rw e (omega arith)
  | inl e ↦ rw e (omega arith)
]

add_groups-IsValid :
    (names : List Str) (bv : GroupBitvector) (reg : GroupRegistry)
    → IsValid reg
    → reg.next + length names < 2 ^ 16
    → IsValid (add_groups names bv reg).1
unfolding add_groups
add_groups-IsValid [] bv reg v room = v
add_groups-IsValid (name ∷ names) bv reg v room =
    add_groups-IsValid names (with_bit bv (intern name reg).0) (intern name reg).1
      (intern-IsValid name reg v (omega arith)) (ground (arith, room, intern-next name reg))

member-add_groups :
    (names : List Str) (bv : GroupBitvector) (reg : GroupRegistry) (n : ℕ)
    → IsValid reg
    → reg.next + length names < 2 ^ 16
    → member (add_groups names bv reg).0 n
      ≡ (covers (add_groups names bv reg).1 names n || member bv n)
unfolding add_groups
member-add_groups [] bv reg n v room = refl
member-add_groups (name ∷ names) bv reg n v room = ground (
  arith,
  member-add_groups names (with_bit bv (intern name reg).0) (intern name reg).1 n
      (intern-IsValid name reg v (omega arith)) (ground (arith, room, intern-next name reg)),
  add_groups_kept names name (intern name reg).0 (with_bit bv (intern name reg).0)
      (intern name reg).1 (ground (arith, intern-get name name reg, =?_iff name name)),
  member-with_bit bv (intern name reg).0 n,
  intern-bit name reg v,
)

-- From a valid registry whose 16 bit counter does not wrap on the way: in the vector of a list of
-- names a group is set exactly if it is the bit that the registry then has for one of the names.
pub member-bitvector_for :
    (names : List Str) (reg : GroupRegistry) (n : ℕ)
    → IsValid reg
    → reg.next + length names < 2 ^ 16
    → member (bitvector_for names reg).0 n ≡ covers (bitvector_for names reg).1 names n
unfolding bitvector_for
member-bitvector_for names reg n v room =
    ground (arith, member-add_groups names empty reg n v room, member-empty n)

-- `bitvector_for` keeps a registry valid whose 16 bit counter does not wrap on the way: every bit
-- is below 256, and as long as there are at most 256 names no two share one.
pub bitvector_for-IsValid :
    (names : List Str) (reg : GroupRegistry)
    → IsValid reg
    → reg.next + length names < 2 ^ 16
    → IsValid (bitvector_for names reg).1
unfolding bitvector_for
bitvector_for-IsValid names reg = add_groups-IsValid names empty reg
