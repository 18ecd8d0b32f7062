-- ===== src/Bus/Registry/Invariant.antt =====
-- The invariant of the bus: the type index, the id table and the counter agree with the slab.
use tak_rs.Common.{
  ℕ, ◌+◌, ◌^◌, ◌≤◌, ◌<◌, Bool, Option, none, some, List, [], ◌∷◌, length, ◌=?◌, if◌then◌else◌, Str,
  count, ◌≡◌, arith, =?_iff, refl,
}
use tak_rs.Bus.Identity.{SubscriptionId, id_eq}
use tak_rs.Bus.TypeIndex.{Ids}
use tak_rs.Bus.TypeIndex.Slots.{stored, pattern_tokens, stored-default}
use tak_rs.Bus.TypeIndex.Total.{hit}
use tak_rs.Bus.Platform.{Platform, SlabLaws}
use tak_rs.Bus.State.{Entry, Bus, entry_of, new}
use tak_rs.Bus.Registry.{pattern_of, swap_remove_first, swap_remove_head, last_of, but_last}

-- `swap_remove` at the place of an id takes one occurrence of it out, and nothing else.
count-but_last :
    (y x : SubscriptionId) (xs : Ids) → count y (last_of x xs ∷ but_last x xs) ≡ count y (x ∷ xs)
unfolding last_of but_last
count-but_last y x [] = refl
count-but_last y x (z ∷ zs) = omega (arith, count-but_last y z zs)

length-but_last : (x : SubscriptionId) (xs : Ids) → length (but_last x xs) ≡ length xs
unfolding but_last
length-but_last x [] = refl
length-but_last x (z ∷ zs) = omega (arith, length-but_last z zs)

swap_remove_head_counts :
    (y x : SubscriptionId) (xs : Ids)
    → (count y (swap_remove_head (x ∷ xs)) ≡ count y xs)
      × (length (swap_remove_head (x ∷ xs)) ≡ length xs)
unfolding swap_remove_head
swap_remove_head_counts y x [] = (refl, refl)
swap_remove_head_counts y x (z ∷ zs) = (count-but_last y z zs, omega (arith, length-but_last z zs))

pub swap_remove_first_counts :
    (id y : SubscriptionId) (xs : Ids)
    → 0 < count id xs
    → (count y (swap_remove_first id xs) + (if y =? id then 1 else 0) ≡ count y xs)
      × (length (swap_remove_first id xs) + 1 ≡ length xs)
unfolding swap_remove_first
swap_remove_first_counts id y [] h = absurd (omega arith)
swap_remove_first_counts id y (x ∷ xs) h = ground (
  arith,
  =?_iff x id,
  =?_iff id x,
  =?_iff y id,
  =?_iff y x,
  swap_remove_head_counts y x xs,
  swap_remove_first_counts id y xs,
)

module _ (p : Platform) where
  -- How often an entry's id is in a slot of the type index.
  abbrev pub indicator : Option (Entry p) → List Str → Bool → ℕ
  indicator none path wild = 0
  indicator (some e) path wild = hit (pattern_tokens (pattern_of p e.filter)) path wild

  abbrev pub present : Option (Entry p) → ℕ
  present none = 0
  present (some e) = 1

  pub record IsValid (bus : Bus p) : Type 0 where
    pub fresh :
        (k : ℕ) (e : Entry p)
        → p.slab_get (Entry p) bus.subs k ≡ some e
        → e.generation < bus.next_generation
    pub indexed :
        (id : SubscriptionId) (path : List Str) (wild : Bool)
        → count id (stored path wild bus.type_index) ≡ indicator (entry_of p bus.subs id) path wild
    pub listed : (id : SubscriptionId) → count id bus.live_ids ≡ present (entry_of p bus.subs id)
    pub counted : bus.live ≡ length bus.live_ids
    pub bounded : bus.live ≤ bus.next_generation
    pub wide : bus.next_generation < 2 ^ 64

  module _ (laws : SlabLaws p) where
    pub new-IsValid : IsValid (new p)
    unfolding entry_of
    new-IsValid = record {
      fresh = λ k e h. cc (laws.get-new (Entry p) k);
      indexed = λ id path wild.
          ground (arith, laws.get-new (Entry p) id.slab_key, stored-default path wild);
      listed = λ id. ground (arith, laws.get-new (Entry p) id.slab_key);
      counted = refl;
      bounded = omega arith;
      wide = omega arith;
    }
