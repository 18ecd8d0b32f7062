-- ===== src/Vopr/Runner/Foretold.antt =====
-- What the model foretells of a dispatch in crates/tak-bus-vopr/src/runner.rs: as many deliveries
-- and full channels as the bus reports, and a new state for each slot.
use tak_rs.Common.{
  ℕ, suc, ◌+◌, ◌-◌, ◌^◌, ◌≤◌, min, Bool, true, false, not, Option, none, some, List, [], ◌∷◌, ◌++◌,
  map, append-nil, append_assoc, All, ◌=?◌, =?_iff, ltb, if◌then◌else◌, length, count, ◌≡◌, refl,
  arith, Bool-cases, inl, inr,
}
use mathlib.Core.Path.{ap, sym, ◌∙◌}
use tak_rs.Bus.Identity.{SubscriptionId, id_eq}
use tak_rs.Bus.TypeIndex.{Ids}
use tak_rs.Bus.Platform.{Platform, SlabLaws, ChannelLaws, Sent, sent, full, closed}
use tak_rs.Bus.Filter.{Inbound, filter_matches}
use tak_rs.Bus.State.{Entry, Bus, entry_of}
use tak_rs.Bus.Dispatch.{saturating_inc}
use tak_rs.Bus.Dispatch.Counters.{answers, same_sent}
use tak_rs.Vopr.Model.{ModelSub, handle_alive, predict, apply_prediction}
use tak_rs.Vopr.Model.Tracks.{Tracks, predict-Agrees, predict_missed, predict_dropped}
use tak_rs.Vopr.Runner.{Expected, expect, predict_all, no_expectation, change_slot, apply_changes}
use tak_rs.Vopr.Runner.Slots.{ids_of, alive_ids}

-- The prediction and the outcome that it is about.
abbrev pub foretells : Bool → Option Bool → Bool
foretells b none = false
foretells true (some d) = d
foretells false (some d) = not d

abbrev pub outcome_of : Bool → Sent
outcome_of true = sent
outcome_of false = full

module _ (p : Platform) (msg : Inbound p) where
  abbrev pub foretold_ids : Bool → List (ModelSub p) → Ids
  foretold_ids b [] = []
  foretold_ids b (s ∷ subs) =
      let rest = foretold_ids b subs in if foretells b (predict p s msg) then s.id ∷ rest else rest

  abbrev pub expected_of : Bool → Expected p → ℕ
  expected_of true x = x.delivered
  expected_of false x = x.dropped_full

  expect-expected_of :
      (b : Bool) (i : ℕ) (o : Option Bool) (x : Expected p)
      → expected_of b (expect p i o x)
        ≡ (if foretells b o then saturating_inc (expected_of b x) else expected_of b x)
  unfolding expect
  expect-expected_of true i none x = refl
  expect-expected_of true i (some true) x = refl
  expect-expected_of true i (some false) x = refl
  expect-expected_of false i none x = refl
  expect-expected_of false i (some true) x = refl
  expect-expected_of false i (some false) x = refl

  pub predict_all-expected_of :
      (b : Bool) (i : ℕ) (subs : List (ModelSub p)) (x : Expected p)
      → expected_of b x ≤ 2 ^ 32 - 1
      → expected_of b (predict_all p msg i subs x)
        ≡ min (expected_of b x + length (foretold_ids b subs)) (2 ^ 32 - 1)
  unfolding predict_all
  predict_all-expected_of b i [] x h = ground (arith, h)
  predict_all-expected_of b i (s ∷ subs) x h = ground (
    arith,
    h,
    expect-expected_of b i (predict p s msg) x,
    predict_all-expected_of b (suc i) subs (expect p i (predict p s msg) x)
        (ground (arith, h, expect-expected_of b i (predict p s msg) x)),
  )

  -- The changes by slot, from a first slot.
  abbrev change_at : ℕ → Option Bool → List (ℕ × Bool) → List (ℕ × Bool)
  change_at i none rest = rest
  change_at i (some d) rest = (i, d) ∷ rest

  abbrev changes_of : ℕ → List (ModelSub p) → List (ℕ × Bool)
  changes_of i [] = []
  changes_of i (s ∷ subs) = change_at i (predict p s msg) (changes_of (suc i) subs)

  expect-changes :
      (i : ℕ) (o : Option Bool) (x : Expected p) (rest : List (ℕ × Bool))
      → (expect p i o x).per_sub_changes ++ rest ≡ x.per_sub_changes ++ change_at i o rest
  unfolding expect
  expect-changes i none x rest = refl
  expect-changes i (some true) x rest = append_assoc x.per_sub_changes ((i, true) ∷ []) rest
  expect-changes i (some false) x rest = append_assoc x.per_sub_changes ((i, false) ∷ []) rest

  predict_all-changes :
      (i : ℕ) (subs : List (ModelSub p)) (x : Expected p)
      → (predict_all p msg i subs x).per_sub_changes ≡ x.per_sub_changes ++ changes_of i subs
  unfolding predict_all
  predict_all-changes i [] x = sym (append-nil x.per_sub_changes)
  predict_all-changes i (s ∷ subs) x =
      predict_all-changes (suc i) subs (expect p i (predict p s msg) x)
      ∙ expect-changes i (predict p s msg) x (changes_of (suc i) subs)

  -- Changes behind the first slot leave it.
  change_at-shift :
      (i : ℕ) (o : Option Bool) (rest : List (ℕ × Bool)) (rest' : List (ℕ × Bool))
      → ((t : ModelSub p) (xs : List (ModelSub p))
          → apply_changes p rest (t ∷ xs) ≡ t ∷ apply_changes p rest' xs)
      → (t : ModelSub p) (xs : List (ModelSub p))
      → apply_changes p (change_at (suc i) o rest) (t ∷ xs)
        ≡ t ∷ apply_changes p (change_at i o rest') xs
  unfolding apply_changes
  change_at-shift i none rest rest' h t xs = h t xs
  change_at-shift i (some d) rest rest' h t xs =
      h t (change_slot p i (apply_prediction p (some d)) xs)

  changes_of-shift :
      (i : ℕ) (subs : List (ModelSub p)) (t : ModelSub p) (xs : List (ModelSub p))
      → apply_changes p (changes_of (suc i) subs) (t ∷ xs)
        ≡ t ∷ apply_changes p (changes_of i subs) xs
  unfolding apply_changes
  changes_of-shift i [] t xs = refl
  changes_of-shift i (s ∷ subs) t xs =
      change_at-shift i (predict p s msg) (changes_of (suc (suc i)) subs) (changes_of (suc i) subs)
        (changes_of-shift (suc i) subs) t xs

  abbrev pub foretold : ModelSub p → ModelSub p
  foretold s = apply_prediction p (predict p s msg) s

  first_change :
      (o : Option Bool) (rest : List (ℕ × Bool)) (s : ModelSub p) (subs : List (ModelSub p))
      → apply_changes p (change_at 0 o rest) (s ∷ subs)
        ≡ apply_changes p rest (apply_prediction p o s ∷ subs)
  unfolding apply_changes apply_prediction
  first_change none rest s subs = refl
  first_change (some d) rest s subs = refl

  changes_of-all :
      (subs : List (ModelSub p)) → apply_changes p (changes_of 0 subs) subs ≡ map foretold subs
  unfolding apply_changes
  changes_of-all [] = refl
  changes_of-all (s ∷ subs) =
      first_change (predict p s msg) (changes_of 1 subs) s subs
      ∙ changes_of-shift 0 subs (foretold s) subs
      ∙ ap (λ t. foretold s ∷ t) (changes_of-all subs)

  -- The recorded changes, applied, give each slot the state that was foretold for it.
  pub apply_changes-foretold :
      (subs : List (ModelSub p))
      → apply_changes p (predict_all p msg 0 subs (no_expectation p)).per_sub_changes subs
        ≡ map foretold subs
  apply_changes-foretold subs =
      ap (λ changes. apply_changes p changes subs) (predict_all-changes 0 subs (no_expectation p))
      ∙ changes_of-all subs

  -- A prediction changes neither the id nor the handle.
  foretold-fields :
      (s : ModelSub p) (o : Option Bool)
      → ((apply_prediction p o s).id ≡ s.id)
        × ((apply_prediction p o s).handle_dropped ≡ s.handle_dropped)
  unfolding apply_prediction
  foretold-fields s none = (refl, refl)
  foretold-fields s (some true) = (refl, refl)
  foretold-fields s (some false) = (refl, refl)

  pub foretold-id : (s : ModelSub p) → (foretold s).id ≡ s.id
  foretold-id s = (foretold-fields s (predict p s msg)).0

  pub ids_of-foretold : (subs : List (ModelSub p)) → ids_of p (map foretold subs) ≡ ids_of p subs
  ids_of-foretold [] = refl
  ids_of-foretold (s ∷ subs) = rw (foretold-id s, ids_of-foretold subs) refl

  pub alive_ids-foretold :
      (subs : List (ModelSub p)) → alive_ids p (map foretold subs) ≡ alive_ids p subs
  alive_ids-foretold [] = refl
  alive_ids-foretold (s ∷ subs) =
      rw (foretold-id s, (foretold-fields s (predict p s msg)).1, alive_ids-foretold subs) refl

  same_answer :
      (b closed_now room : Bool)
      → foretells b (if closed_now then none else some room)
        ≡ same_sent (outcome_of b) (if closed_now then closed else if room then sent else full)
  same_answer true true room = refl
  same_answer false true room = refl
  same_answer true false true = refl
  same_answer true false false = refl
  same_answer false false true = refl
  same_answer false false false = refl

  module _ (laws : SlabLaws p) (c : ChannelLaws p) (b : Bool) where
    -- A subscription that follows its entry foretells what the channel answers.
    Tracks-answers :
        (s : ModelSub p) (o : Option (Entry p))
        → Tracks p laws c s o
        → foretells b (predict p s msg) ≡ answers p laws msg (outcome_of b) o
    unfolding Tracks
    Tracks-answers s none t = rw (predict_dropped p laws c msg s t) refl
    Tracks-answers s (some x) a = elim (Bool-cases (filter_matches p x.filter msg)) [
      | inr m ↦ rw (predict_missed p laws c msg s x a m, m) refl
      | inl m ↦
          rw (predict-Agrees p laws c msg s x a m, m, c.send-result x.sender msg.payload)
            (same_answer b (c.is_closed x.sender)
              (ltb (length (c.queued x.sender)) (c.capacity x.sender)))
    ]

    dead_answers :
        (s : ModelSub p) (o : Option (Entry p))
        → Tracks p laws c s o
        → handle_alive p s ≡ false
        → answers p laws msg (outcome_of b) o ≡ false
    unfolding Tracks
    dead_answers s none t d = refl
    dead_answers s (some x) a d = absurd (ground (arith, a.alive, d))

    pub count-foretold_ids :
        (bus : Bus p) (a : SubscriptionId) (subs : List (ModelSub p))
        → All (λ (s : ModelSub p). Tracks p laws c s (entry_of p bus.subs s.id)) subs
        → count a (foretold_ids b subs) ≡ (
            if answers p laws msg (outcome_of b) (entry_of p bus.subs a)
            then count a (alive_ids p subs)
            else 0)
    count-foretold_ids bus a [] t = ground arith
    count-foretold_ids bus a (s ∷ subs) t = elim (Bool-cases (a =? s.id)) [
      | inl same ↦ ground (
        arith,
        same,
        =?_iff a s.id,
        Tracks-answers s (entry_of p bus.subs s.id) t.0,
        dead_answers s (entry_of p bus.subs s.id) t.0,
        count-foretold_ids bus a subs t.1,
      )
      | inr differ ↦ ground (arith, differ, count-foretold_ids bus a subs t.1)
    ]
