-- ===== src/Bus/State.antt =====
-- The state of `Bus` in crates/tak-bus/src/lib.rs, and what is read from it. The counters are
-- 64 bits wide.
pub mod Entries
use tak_rs.Common.{
  ℕ, zero, suc, ◌+◌, ◌-◌, ◌%◌, ◌^◌, min, Bool, true, false, not, ◌&&◌, Option, none, some, List, [],
  ◌∷◌, ◌++◌, map, length, ◌==◌, ◌=?◌, if◌then◌else◌, Str, str,
}
use mathlib.Core.Option
use tak_rs.Bus.Groups.{GroupBitvector, intersects}
use tak_rs.Bus.Identity.{SubscriptionId, id_eq}
use tak_rs.Bus.TypeIndex
use tak_rs.Bus.TypeIndex.{Ids, TypeNode}
use tak_rs.Bus.Platform.{Platform, Sent, sent, full, closed}
use tak_rs.Bus.Filter.{Filter, GeoBbox, Inbound, contains}

module _ (p : Platform) where
  open p use {
    Float, le_float, Bytes, Sender, channel, try_send, Slab, slab_new, slab_insert, slab_get,
    slab_remove, slab_update, Tree, tree_new, tree_insert, tree_remove, tree_locate,
  }

  pub record Entry : Type 0 where
    pub filter : Filter p
    pub generation : ℕ
    pub sender : Sender
    pub delivered : ℕ
    pub dropped_full : ℕ

  pub record GeoEntry : Type 0 where
    pub bbox : GeoBbox p
    pub id : SubscriptionId

  pub record Bus : Type 0 where
    pub subs : Slab Entry
    pub type_index : TypeNode
    pub geo_index : Tree GeoEntry
    pub next_generation : ℕ
    pub live : ℕ
    pub live_ids : Ids

  -- `attached`: whether the `Weak` was made from the bus.
  pub record SubscriptionHandle : Type 0 where
    pub id : SubscriptionId
    pub attached : Bool

  pub record SubscriptionStats : Type 0 where
    pub id : SubscriptionId
    pub delivered : ℕ
    pub dropped_full : ℕ

  pub record DispatchStats : Type 0 where
    pub delivered : ℕ
    pub filtered_groups : ℕ
    pub filtered_geo : ℕ
    pub dropped_full : ℕ
    pub dropped_closed : ℕ

  abbrev pub new : Bus
  new = record {
    subs = slab_new Entry;
    type_index = TypeIndex.default;
    geo_index = tree_new GeoEntry;
    next_generation = 0;
    live = 0;
    live_ids = [];
  }

  -- The entry, unless its slot was taken by a newer subscription.
  abbrev pub check_generation : ℕ → Option Entry → Option Entry
  check_generation generation none = none
  check_generation generation (some e) = if e.generation == generation then some e else none

  unfoldable pub entry_of : Slab Entry → SubscriptionId → Option Entry
  entry_of subs id = check_generation id.generation (slab_get Entry subs id.slab_key)

  unfoldable pub get_filter : Bus → SubscriptionId → Option (Filter p)
  unfolding entry_of
  get_filter bus id = Option.map (λ (e : Entry). e.filter) (entry_of bus.subs id)

  unfoldable pub len : Bus → ℕ
  len bus = bus.live

  unfoldable pub stats_of : Slab Entry → Ids → List SubscriptionStats
  stats_of subs [] = []
  stats_of subs (id ∷ ids) = elim (entry_of subs id) [
    | none ↦ stats_of subs ids
    | some e ↦
        record { id = id; delivered = e.delivered; dropped_full = e.dropped_full }
        ∷ stats_of subs ids
  ]

  unfoldable pub subscription_stats : Bus → List SubscriptionStats
  unfolding stats_of entry_of
  subscription_stats bus = stats_of bus.subs bus.live_ids
