-- ===== src/Server/Connection.antt =====
-- `drive_connection` of crates/tak-server/src/firehose.rs up to its read loop: the subscription of a
-- connection, and the replay of stored frames to it.
pub mod Groups
pub mod Replay
mod Tests
use tak_rs.Common.{
  ℕ, suc, ◌+◌, ◌%◌, ◌^◌, ltb, Bool, true, false, Option, none, some, List, [], ◌∷◌, if◌then◌else◌,
  Str, ◌⊎◌, inl, inr,
}
use tak_rs.Bus.Groups.{GroupBitvector}
use tak_rs.Bus.Identity.{SubscriptionId}
use tak_rs.Bus.Platform.{Platform}
use tak_rs.Bus.Filter.{Filter}
use tak_rs.Bus.State.{Bus, SubscriptionHandle}
use tak_rs.Bus.Registry.{subscribe}
use tak_rs.Bus.Dispatch.{try_send_to}

module _ (p : Platform) where
  open p use {Bytes}

  -- The filter of every connection: its groups, any type, anywhere.
  abbrev pub connection_filter : GroupBitvector → Filter p
  connection_filter sender_groups = record {
    interest_uid = none;
    interest_callsign = none;
    group_mask = sender_groups;
    type_prefix = none;
    geo_bbox = none;
  }

  pub record Replayed : Type 0 where
    pub sent : ℕ
    pub dropped : ℕ
    pub bus : Bus p

  abbrev pub count_replay : Bool × Bus p → Replayed → Replayed
  count_replay (true, bus) r = record {
    sent = (r.sent + 1) % 2 ^ 64;
    dropped = r.dropped;
    bus = bus;
  }
  count_replay (false, bus) r = record {
    sent = r.sent;
    dropped = (r.dropped + 1) % 2 ^ 64;
    bus = bus;
  }

  unfoldable pub replay_loop : SubscriptionId → List Bytes → Replayed → Replayed
  replay_loop sub_id [] r = r
  replay_loop sub_id (frame ∷ frames) r =
      replay_loop sub_id frames (count_replay (try_send_to p sub_id frame r.bus) r)

  -- The rows of the window, or the error of the query.
  unfoldable pub replay_rows : SubscriptionId → Str ⊎ List Bytes → Bus p → Replayed
  unfolding replay_loop
  replay_rows sub_id (inl e) bus = record { sent = 0; dropped = 0; bus = bus }
  replay_rows sub_id (inr frames) bus =
      replay_loop sub_id frames (record { sent = 0; dropped = 0; bus = bus })

  -- `replay_window` is in seconds.
  unfoldable pub replay : Option ℕ → (ℕ → Str ⊎ List Bytes) → SubscriptionId → Bus p → Replayed
  unfolding replay_rows
  replay none recent_wire_bytes sub_id bus = record { sent = 0; dropped = 0; bus = bus }
  replay (some window) recent_wire_bytes sub_id bus =
      if ltb 0 window
      then replay_rows sub_id (recent_wire_bytes window) bus
      else record { sent = 0; dropped = 0; bus = bus }

  unfoldable pub open_connection :
      GroupBitvector → Option ℕ → (ℕ → Str ⊎ List Bytes) → Bus p → SubscriptionHandle p × Replayed
  unfolding replay
  open_connection sender_groups replay_window recent_wire_bytes bus =
      let (handle, bus') = subscribe p (connection_filter sender_groups) bus in
      (handle, replay replay_window recent_wire_bytes handle.id bus')
