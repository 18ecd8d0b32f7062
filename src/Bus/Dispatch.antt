-- ===== src/Bus/Dispatch.antt =====
-- `try_send_to` of crates/tak-bus/src/lib.rs and `dispatch` of src/dispatch.rs.
pub mod Candidates
pub mod Delivery
pub mod Stats
pub mod Counters
pub mod Sends
use tak_rs.Common.{
  ℕ, zero, suc, ◌+◌, ◌-◌, ◌%◌, ◌^◌, min, Bool, true, false, not, ◌&&◌, Option, none, some, List, [],
  ◌∷◌, ◌++◌, map, length, ◌==◌, ◌=?◌, if◌then◌else◌, Str, str,
}
use mathlib.Core.Option
use tak_rs.Bus.Groups.{GroupBitvector, intersects}
use tak_rs.Bus.Identity.{SubscriptionId, id_eq}
use tak_rs.Bus.TypeIndex
use tak_rs.Bus.TypeIndex.{Ids, TypeNode}
use tak_rs.Bus.Platform.{Platform, Sent, sent, full, closed}
use tak_rs.Bus.Filter.{Filter, GeoBbox, Inbound, bbox_accepts}
use tak_rs.Bus.State.{
  Entry, GeoEntry, Bus, SubscriptionHandle, SubscriptionStats, DispatchStats, entry_of, new,
}

-- `saturating_add(1)` on a `u32`
abbrev pub saturating_inc : ℕ → ℕ
saturating_inc n = min (n + 1) (2 ^ 32 - 1)

module _ (p : Platform) where
  open p use {
    Float, le_float, Bytes, Sender, channel, try_send, Slab, slab_new, slab_insert, slab_get,
    slab_remove, slab_update, Tree, tree_new, tree_insert, tree_remove, tree_locate,
  }

  unfoldable pub extend_candidates : Bus p → Str → Float → Float → Ids → Ids
  extend_candidates bus cot_type lat lon out = TypeIndex.extend_matches cot_type bus.type_index out

  unfoldable pub extend_geo_candidates : Bus p → Float → Float → Ids → Ids
  extend_geo_candidates bus lat lon out =
      out ++ map (λ (e : GeoEntry p). e.id) (tree_locate (GeoEntry p) (lon, lat) bus.geo_index)

  -- What a `try_send` leaves in the entry.
  unfoldable pub after_send : Sent → Sender → Entry p → Entry p
  after_send sent s e = record e { sender = s; delivered = (e.delivered + 1) % 2 ^ 64 }
  after_send full s e = record e { sender = s; dropped_full = (e.dropped_full + 1) % 2 ^ 64 }
  after_send closed s e = record e { sender = s }

  unfoldable pub offer : Bytes → Entry p → Entry p
  unfolding after_send
  offer payload e = let (r, s) = try_send e.sender payload in after_send r s e

  unfoldable pub accepted : Sent → Bool
  accepted sent = true
  accepted full = false
  accepted closed = false

  unfoldable pub send_entry : SubscriptionId → Bytes → Option (Entry p) → Bus p → Bool × Bus p
  send_entry id payload none bus = (false, bus)
  send_entry id payload (some e) bus = (
    accepted (try_send e.sender payload).0,
    record bus { subs = slab_update (Entry p) id.slab_key (offer payload) bus.subs },
  )

  unfoldable pub try_send_to : SubscriptionId → Bytes → Bus p → Bool × Bus p
  unfolding send_entry accepted offer entry_of
  try_send_to id payload bus = send_entry id payload (entry_of p bus.subs id) bus

  unfoldable pub count_send : Sent → DispatchStats p → DispatchStats p
  count_send sent st = record st { delivered = saturating_inc st.delivered }
  count_send full st = record st { dropped_full = saturating_inc st.dropped_full }
  count_send closed st = record st { dropped_closed = saturating_inc st.dropped_closed }

  -- One round of the loop of `dispatch`, at the entry that the candidate has, if any.
  unfoldable pub dispatch_entry :
      Inbound p
      → SubscriptionId
      → Option (Entry p)
      → Bus p × DispatchStats p
      → Bus p × DispatchStats p
  unfolding count_send offer
  dispatch_entry msg id none (bus, st) = (bus, st)
  dispatch_entry msg id (some e) (bus, st) =
      if not (intersects e.filter.group_mask msg.sender_groups)
      then (bus, record st { filtered_groups = saturating_inc st.filtered_groups })
      else if not (bbox_accepts p e.filter.geo_bbox msg.lat msg.lon)
      then (bus, record st { filtered_geo = saturating_inc st.filtered_geo })
      else (
        record bus { subs = slab_update (Entry p) id.slab_key (offer msg.payload) bus.subs },
        count_send (try_send e.sender msg.payload).0 st,
      )

  unfoldable pub dispatch_loop : Inbound p → Ids → Bus p × DispatchStats p → Bus p × DispatchStats p
  unfolding dispatch_entry entry_of
  dispatch_loop msg [] acc = acc
  dispatch_loop msg (id ∷ ids) (bus, st) =
      dispatch_loop msg ids (dispatch_entry msg id (entry_of p bus.subs id) (bus, st))

  abbrev pub no_stats : DispatchStats p
  no_stats = record {
    delivered = 0;
    filtered_groups = 0;
    filtered_geo = 0;
    dropped_full = 0;
    dropped_closed = 0;
  }

  -- `scratch` is `scratch.candidates`: what was in it is cleared.
  unfoldable pub dispatch : Inbound p → Ids → Bus p → Ids × Bus p × DispatchStats p
  unfolding dispatch_loop extend_candidates
  dispatch msg scratch bus =
      let candidates = extend_candidates bus msg.cot_type msg.lat msg.lon [] in
      let (bus', st) = dispatch_loop msg candidates (bus, no_stats) in (candidates, bus', st)

  unfoldable pub total : DispatchStats p → ℕ
  total st =
      st.delivered + st.filtered_groups + st.filtered_geo + st.dropped_full + st.dropped_closed
