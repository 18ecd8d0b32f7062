-- ===== src/Bus/Registry.antt =====
-- `subscribe`, `unsubscribe` and the handle of crates/tak-bus/src/lib.rs. The locks make each index
-- update one step.
pub mod Invariant
pub mod Preserved
pub mod Update
pub mod Removal
use tak_rs.Common.{
  ℕ, zero, suc, ◌+◌, ◌-◌, ◌%◌, ◌^◌, min, Bool, true, false, not, ◌&&◌, Option, none, some, List, [],
  ◌∷◌, ◌++◌, map, length, ◌==◌, ◌=?◌, if◌then◌else◌, Str, str,
}
use mathlib.Core.Option
use tak_rs.Bus.Groups.{GroupBitvector, intersects}
use tak_rs.Bus.Identity.{SubscriptionId, id_eq}
use tak_rs.Bus.TypeIndex
use tak_rs.Bus.TypeIndex.{Ids, TypeNode}
use tak_rs.Bus.Platform.{Platform, Sent, sent, full, closed}
use tak_rs.Bus.Filter.{Filter, GeoBbox, Inbound, contains}
use tak_rs.Bus.State.{
  Entry, GeoEntry, Bus, SubscriptionHandle, SubscriptionStats, DispatchStats, entry_of, new,
}

-- The last of `x` and the list behind it, and all but the last.
unfoldable pub last_of : SubscriptionId → Ids → SubscriptionId
last_of x [] = x
last_of x (y ∷ ys) = last_of y ys

unfoldable pub but_last : SubscriptionId → Ids → Ids
but_last x [] = []
but_last x (y ∷ ys) = x ∷ but_last y ys

-- `v.swap_remove(0)`: the last element takes the place of the first.
unfoldable pub swap_remove_head : Ids → Ids
unfolding last_of but_last
swap_remove_head [] = []
swap_remove_head (x ∷ []) = []
swap_remove_head (x ∷ y ∷ rest) = last_of y rest ∷ but_last y rest

-- `v.swap_remove(pos)` at the first position of `id`, if there is one.
unfoldable pub swap_remove_first : SubscriptionId → Ids → Ids
unfolding swap_remove_head
swap_remove_first id [] = []
swap_remove_first id (x ∷ rest) =
    let kept = swap_remove_first id rest in
    if x =? id then swap_remove_head (x ∷ rest) else x ∷ kept

module _ (p : Platform) where
  open p use {
    Float, le_float, Bytes, Sender, channel, try_send, Slab, slab_new, slab_insert, slab_get,
    slab_remove, slab_update, Tree, tree_new, tree_insert, tree_remove, tree_locate,
  }

  abbrev pub default_subscriber_capacity : ℕ
  default_subscriber_capacity = 1024

  abbrev pub usize_max : ℕ
  usize_max = 2 ^ 64 - 1

  -- `GeoIndex::insert`, for the filters that have a box
  unfoldable pub geo_insert :
      Option (GeoBbox p) → SubscriptionId → Tree (GeoEntry p) → Tree (GeoEntry p)
  geo_insert none id tree = tree
  geo_insert (some bbox) id tree = tree_insert (GeoEntry p) (record { bbox = bbox; id = id }) tree

  -- `type_prefix.as_deref().unwrap_or("*")`
  abbrev pub pattern_of : Filter p → Str
  pattern_of filter = Option.get_or filter.type_prefix (str "*")

  unfoldable pub fresh_entry : Filter p → ℕ → ℕ → Entry p
  fresh_entry filter generation capacity = record {
    filter = filter;
    generation = generation;
    sender = channel capacity;
    delivered = 0;
    dropped_full = 0;
  }

  -- `subscribe_with_capacity` after the insertion into the slab, which may be full.
  unfoldable pub register :
      Filter p → ℕ → Option (ℕ × Slab (Entry p)) → Bus p → SubscriptionHandle p × Bus p
  register filter generation none bus = (
    record { id = record { slab_key = usize_max; generation = generation }; attached = false },
    bus,
  )
  register filter generation (some (key, subs)) bus =
      let id : SubscriptionId = record { slab_key = key; generation = generation } in
      (
        record { id = id; attached = true },
        record bus {
          subs = subs;
          type_index = TypeIndex.insert (pattern_of filter) id bus.type_index;
          geo_index = geo_insert filter.geo_bbox id bus.geo_index;
          live = (bus.live + 1) % 2 ^ 64;
          live_ids = bus.live_ids ++ (id ∷ []);
        },
      )

  unfoldable pub subscribe_with_capacity : Filter p → ℕ → Bus p → SubscriptionHandle p × Bus p
  unfolding register fresh_entry geo_insert
  subscribe_with_capacity filter capacity bus =
      let generation = bus.next_generation in
      register filter generation
        (slab_insert (Entry p) (fresh_entry filter generation capacity) bus.subs)
        (record bus { next_generation = (generation + 1) % 2 ^ 64 })

  unfoldable pub subscribe : Filter p → Bus p → SubscriptionHandle p × Bus p
  unfolding subscribe_with_capacity
  subscribe filter bus = subscribe_with_capacity filter default_subscriber_capacity bus

  unfoldable pub geo_remove :
      Option (GeoBbox p) → SubscriptionId → Tree (GeoEntry p) → Tree (GeoEntry p)
  geo_remove none id tree = tree
  geo_remove (some bbox) id tree = tree_remove (GeoEntry p) (record { bbox = bbox; id = id }) tree

  -- The end of `unsubscribe`, if `subs.remove` found the slot taken.
  unfoldable pub forget : SubscriptionId → Bool → Bus p → Bus p
  forget id false bus = bus
  forget id true bus = record bus {
    live = (bus.live + 2 ^ 64 - 1) % 2 ^ 64;
    live_ids = swap_remove_first id bus.live_ids;
  }

  unfoldable pub unsubscribe_entry : SubscriptionId → Option (Entry p) → Bus p → Bus p
  unfolding geo_remove forget
  unsubscribe_entry id none bus = bus
  unsubscribe_entry id (some e) bus =
      let (removed, subs) = slab_remove (Entry p) id.slab_key bus.subs in
      forget id removed (record bus {
        subs = subs;
        type_index = TypeIndex.remove (pattern_of e.filter) id bus.type_index;
        geo_index = geo_remove e.filter.geo_bbox id bus.geo_index;
      })

  unfoldable pub unsubscribe : SubscriptionId → Bus p → Bus p
  unfolding unsubscribe_entry entry_of
  unsubscribe id bus = unsubscribe_entry id (entry_of p bus.subs id) bus

  -- `Drop for SubscriptionHandle p`: the bus is there while something else holds it.
  unfoldable pub drop_handle : SubscriptionHandle p → Option (Bus p) → Option (Bus p)
  unfolding unsubscribe
  drop_handle h none = none
  drop_handle h (some bus) = if h.attached then some (unsubscribe h.id bus) else some bus
