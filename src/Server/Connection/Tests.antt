-- ===== src/Server/Connection/Tests.antt =====
-- A connection of crates/tak-server/src/firehose.rs on the small platform: two of three frames fit.
use tak_rs.Common.{some, [], ◌∷◌, ◌≡◌, refl, arith}
use tak_rs.Bus.Platform.Small.{small, small_laws, small_channel_laws}
use tak_rs.Bus.State.{entry_of}
use tak_rs.Bus.Registry.{fresh_entry, subscribe_with_capacity, register}
use tak_rs.Server.Connection.{Replayed, replay_loop}
use tak_rs.Server.Connection.Replay.{Delivered, replay_loop-Delivered}
use tak_rs.Vopr.Model.{add_sub}
use tak_rs.Vopr.Model.Tests.{filter, tracked, bus1}

abbrev before : Replayed small
before = record { sent = 0; dropped = 0; bus = bus1 }

subscribed : entry_of small bus1.subs tracked.id ≡ some (fresh_entry small filter 0 2)
unfolding entry_of add_sub subscribe_with_capacity register fresh_entry
subscribed = refl

replay_loop-Delivered_example :
    Delivered small small_laws small_channel_laws tracked.id
      ((1 ∷ []) ∷ (2 ∷ []) ∷ (3 ∷ []) ∷ [])
      (fresh_entry small filter 0 2)
      before
      (replay_loop small tracked.id ((1 ∷ []) ∷ (2 ∷ []) ∷ (3 ∷ []) ∷ []) before)
unfolding fresh_entry
replay_loop-Delivered_example =
    replay_loop-Delivered small small_laws small_channel_laws tracked.id
      ((1 ∷ []) ∷ (2 ∷ []) ∷ (3 ∷ []) ∷ []) (fresh_entry small filter 0 2) before subscribed refl
      (omega arith) (omega arith)
