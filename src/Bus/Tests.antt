-- ===== src/Bus/Tests.antt =====
-- The theorems of the bus at a bus with two subscriptions, on the small platform.
use tak_rs.Common.{
  ◌+◌, false, ◌&&◌, none, some, [], ◌∷◌, ◌++◌, length, ◌=?◌, if◌then◌else◌, str, count, ◌≡◌, refl,
  arith, list_eqb,
}
use mathlib.Core.Option
use tak_rs.Bus.Groups.{GroupBitvector, all}
use tak_rs.Bus.Identity.{SubscriptionId, id_eq}
use tak_rs.Bus.TypeIndex
use tak_rs.Bus.TypeIndex.{TypeNode, extend_matches}
use tak_rs.Bus.TypeIndex.Pattern.{type_prefix_matches}
use tak_rs.Bus.TypeIndex.Slots.{
  stored, at_slot, slot_path, slot_wild, pattern_tokens, stored-insert,
}
use tak_rs.Bus.TypeIndex.Matches.{count-extend_matches-insert, extend_matches-remove-insert}
use tak_rs.Bus.Platform.Small.{small, small_laws, small_channel_laws}
use tak_rs.Bus.Filter.{Filter, Inbound, filter_matches}
use tak_rs.Bus.State.{Entry, Bus, entry_of, new}
use tak_rs.Bus.Registry.{subscribe_with_capacity, unsubscribe, fresh_entry}
use tak_rs.Bus.Registry.Invariant.{IsValid, new-IsValid}
use tak_rs.Bus.Registry.Preserved.{subscribe-IsValid, subscribe-entry_of}
use tak_rs.Bus.Registry.Removal.{unsubscribe-IsValid, unsubscribe-entry_of}
use tak_rs.Bus.Dispatch.{dispatch, extend_candidates, offer}
use tak_rs.Bus.Dispatch.Candidates.{count-extend_candidates, is_candidate}
use tak_rs.Bus.Dispatch.Delivery.{dispatch-entry_of}
use tak_rs.Bus.Dispatch.Sends.{dispatch-queued, has_room}

abbrev some_groups : GroupBitvector
some_groups = record { w0 = 5; w1 = 0; w2 = 0; w3 = 1 }

abbrev ground_filter : Filter small
ground_filter = record {
  interest_uid = none;
  interest_callsign = none;
  group_mask = some_groups;
  type_prefix = some (str "a-f-*");
  geo_bbox = some (record { min_lat = 10; min_lon = 20; max_lat = 30; max_lon = 40 });
}

abbrev any_filter : Filter small
any_filter = record {
  interest_uid = none;
  interest_callsign = none;
  group_mask = all;
  type_prefix = none;
  geo_bbox = none;
}

abbrev message : Inbound small
message = record {
  payload = 191 ∷ 0 ∷ [];
  sender_groups = record { w0 = 1; w1 = 0; w2 = 0; w3 = 0 };
  cot_type = str "a-f-G";
  lat = 15;
  lon = 25;
  uid = none;
  callsign = none;
}

abbrev bus0 : Bus small
bus0 = new small

abbrev bus1 : Bus small
bus1 = (subscribe_with_capacity small ground_filter 1 bus0).1

abbrev bus2 : Bus small
bus2 = (subscribe_with_capacity small any_filter 2 bus1).1

bus0-IsValid : IsValid small bus0
bus0-IsValid = new-IsValid small small_laws

bus1-IsValid : IsValid small bus1
bus1-IsValid = subscribe-IsValid small small_laws bus0 bus0-IsValid ground_filter 1 (omega arith)

one_taken : bus1.next_generation ≡ 1
unfolding subscribe_with_capacity
one_taken = refl

bus2-IsValid : IsValid small bus2
bus2-IsValid =
    subscribe-IsValid small small_laws bus1 bus1-IsValid any_filter 2 (ground (arith, one_taken))

abbrev first_id : SubscriptionId
first_id = record { slab_key = 0; generation = 0 }

abbrev second_id : SubscriptionId
second_id = record { slab_key = 1; generation = 1 }

subscribe-IsValid_example : IsValid small (subscribe_with_capacity small any_filter 2 bus0).1
subscribe-IsValid_example =
    subscribe-IsValid small small_laws bus0 bus0-IsValid any_filter 2 (omega arith)

subscribe-entry_of_example :
    entry_of small (subscribe_with_capacity small any_filter 2 bus1).1.subs second_id ≡ (
      let (h, after) = subscribe_with_capacity small any_filter 2 bus1 in
      if h.attached && (second_id =? h.id)
      then some (fresh_entry small any_filter bus1.next_generation 2)
      else entry_of small bus1.subs second_id)
subscribe-entry_of_example =
    subscribe-entry_of small small_laws bus1 bus1-IsValid any_filter 2 second_id

unsubscribe-IsValid_example : IsValid small (unsubscribe small first_id bus2)
unsubscribe-IsValid_example = unsubscribe-IsValid small small_laws bus2 bus2-IsValid first_id

unsubscribe-entry_of_example :
    entry_of small (unsubscribe small first_id bus2).subs second_id
    ≡ entry_of small bus2.subs second_id
unsubscribe-entry_of_example =
    unsubscribe-entry_of small small_laws bus2 bus2-IsValid first_id second_id

count-extend_candidates_example :
    count first_id (extend_candidates small bus2 (str "a-f-G") 15 25 [])
    ≡ (if is_candidate small (str "a-f-G") (entry_of small bus2.subs first_id) then 1 else 0)
count-extend_candidates_example =
    count-extend_candidates small bus2 bus2-IsValid first_id (str "a-f-G") 15 25

dispatch-entry_of_example :
    entry_of small (dispatch small message [] bus2).1.subs first_id
    ≡ Option.map
        (λ (e : Entry small).
          if filter_matches small e.filter message then offer small message.payload e else e)
        (entry_of small bus2.subs first_id)
dispatch-entry_of_example = dispatch-entry_of small small_laws message [] bus2 bus2-IsValid first_id

two_candidates : length (extend_candidates small bus2 message.cot_type 15 25 []) ≡ 2
unfolding extend_candidates TypeIndex.extend_matches TypeIndex.walk TypeIndex.split
    subscribe_with_capacity TypeIndex.insert TypeIndex.insert_tokens TypeIndex.with_entry
    TypeIndex.get TypeIndex.trim list_eqb
two_candidates = refl

dispatch-queued_example :
    Option.map
      (λ (e : Entry small). e.sender.queued)
      (entry_of small (dispatch small message [] bus2).1.subs first_id)
    ≡ Option.map
        (λ (e : Entry small).
          if filter_matches small e.filter message
            && has_room small small_laws small_channel_laws e.sender
          then e.sender.queued ++ (message.payload ∷ [])
          else e.sender.queued)
        (entry_of small bus2.subs first_id)
dispatch-queued_example =
    dispatch-queued small small_laws small_channel_laws message [] bus2 first_id bus2-IsValid

abbrev one_pattern : TypeNode
one_pattern = TypeIndex.insert (str "a-f-*") first_id TypeIndex.default

stored-insert_example :
    stored (str "b" ∷ []) false (TypeIndex.insert (str "b") second_id one_pattern) ≡ (
      if at_slot (pattern_tokens (str "b")) (str "b" ∷ []) false
      then stored (str "b" ∷ []) false one_pattern ++ (second_id ∷ [])
      else stored (str "b" ∷ []) false one_pattern)
stored-insert_example = stored-insert (str "b") second_id (str "b" ∷ []) false one_pattern

count-extend_matches-insert_example :
    count second_id (extend_matches (str "b") (TypeIndex.insert (str "b") second_id one_pattern) [])
    ≡ count second_id (extend_matches (str "b") one_pattern [])
      + (if (second_id =? second_id) && type_prefix_matches (some (str "b")) (str "b")
          then 1
          else 0)
count-extend_matches-insert_example =
    count-extend_matches-insert (str "b") (str "b") second_id second_id one_pattern

free_slot :
    count second_id (
      stored
        (slot_path (pattern_tokens (str "b")))
        (slot_wild (pattern_tokens (str "b")))
        one_pattern)
    ≡ 0
unfolding stored TypeIndex.trim list_eqb TypeIndex.split TypeIndex.get TypeIndex.insert
    TypeIndex.insert_tokens TypeIndex.with_entry
free_slot = refl

extend_matches-remove-insert_example :
    count second_id (
      extend_matches
        (str "b")
        (TypeIndex.remove (str "b") second_id (TypeIndex.insert (str "b") second_id one_pattern))
        [])
    ≡ count second_id (extend_matches (str "b") one_pattern [])
extend_matches-remove-insert_example =
    extend_matches-remove-insert (str "b") (str "b") second_id second_id one_pattern free_slot
