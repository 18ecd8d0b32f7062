-- ===== src/Vopr/Model/Tests.antt =====
-- The refinement at a bus with one subscription, on the small platform.
use tak_rs.Common.{if◌then◌else◌, ◌=?◌, true, none, some, [], ◌∷◌, str, ◌≡◌, refl, arith}
use tak_rs.Bus.Groups.{all}
use tak_rs.Bus.Identity.{SubscriptionId, id_eq}
use tak_rs.Bus.Platform.Small.{small, small_laws, small_channel_laws}
use tak_rs.Bus.Filter.{Filter, Inbound}
use tak_rs.Bus.State.{Bus, entry_of, new}
use tak_rs.Bus.Registry.{fresh_entry, subscribe_with_capacity, register}
use tak_rs.Bus.Registry.Invariant.{IsValid, new-IsValid}
use tak_rs.Bus.Registry.Preserved.{subscribe-IsValid, subscribe-entry_of}
use tak_rs.Bus.Dispatch.{dispatch}
use tak_rs.Vopr.Model.{ModelSub, add_sub, predict, apply_prediction}
use tak_rs.Vopr.Model.Tracks.{Tracks, add_sub-Tracks, dispatch-Tracks}

abbrev pub filter : Filter small
filter = record {
  interest_uid = none;
  interest_callsign = none;
  group_mask = all;
  type_prefix = some (str "a-f");
  geo_bbox = none;
}

abbrev pub message : Inbound small
message = record {
  payload = 1 ∷ [];
  sender_groups = all;
  cot_type = str "a-f";
  lat = 0;
  lon = 0;
  uid = none;
  callsign = none;
}

abbrev pub tracked : ModelSub small
tracked = (add_sub small filter 2 (new small)).0

abbrev pub bus1 : Bus small
bus1 = (add_sub small filter 2 (new small)).1

pub empty-IsValid : IsValid small (new small)
empty-IsValid = new-IsValid small small_laws

pub bus1-IsValid : IsValid small bus1
unfolding add_sub
bus1-IsValid = subscribe-IsValid small small_laws (new small) empty-IsValid filter 2 (omega arith)

pub bus1-entry_of :
    (id : SubscriptionId)
    → entry_of small bus1.subs id
      ≡ (if id =? tracked.id then some (fresh_entry small filter 0 2) else none)
unfolding add_sub entry_of subscribe_with_capacity register
bus1-entry_of id = subscribe-entry_of small small_laws (new small) empty-IsValid filter 2 id

attached : (subscribe_with_capacity small filter 2 (new small)).0.attached ≡ true
unfolding subscribe_with_capacity
attached = refl

tracked-Tracks :
    Tracks small small_laws small_channel_laws tracked (entry_of small bus1.subs tracked.id)
tracked-Tracks =
    add_sub-Tracks small small_laws small_channel_laws filter 2 (new small) empty-IsValid
      (omega arith) attached

dispatch-Tracks_example :
    Tracks small small_laws small_channel_laws
      (apply_prediction small (predict small tracked message) tracked)
      (entry_of small (dispatch small message [] bus1).1.subs tracked.id)
dispatch-Tracks_example =
    dispatch-Tracks small small_laws small_channel_laws message [] bus1 tracked bus1-IsValid
      tracked-Tracks
