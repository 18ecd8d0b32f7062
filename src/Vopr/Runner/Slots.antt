-- ===== src/Vopr/Runner/Slots.antt =====
-- The slots of the model: a list of subscriptions with distinct ids, changed at one place.
use tak_rs.Common.{
  ℕ, zero, suc, ◌+◌, ◌<◌, ◌≤◌, false, ◌&&◌, some, List, [], ◌∷◌, ◌++◌, All, ◌=?◌, =?_iff,
  if◌then◌else◌, length, count, get_elem?, ◌≡◌, refl, arith,
}
use mathlib.Core.Path.{ap, sym, ◌∙◌, subst}
use tak_rs.Bus.Identity.{SubscriptionId, id_eq}
use tak_rs.Bus.TypeIndex.{Ids}
use tak_rs.Bus.Platform.{Platform}
use tak_rs.Vopr.Model.{ModelSub, handle_alive}
use tak_rs.Vopr.Runner.{change_slot, count_live}

module _ (p : Platform) where
  abbrev pub ids_of : List (ModelSub p) → Ids
  ids_of [] = []
  ids_of (s ∷ subs) = s.id ∷ ids_of subs

  abbrev pub alive_ids : List (ModelSub p) → Ids
  alive_ids [] = []
  alive_ids (s ∷ subs) = let rest = alive_ids subs in if handle_alive p s then s.id ∷ rest else rest

  pub length-alive_ids : (subs : List (ModelSub p)) → length (alive_ids subs) ≡ count_live p subs
  length-alive_ids [] = refl
  length-alive_ids (s ∷ subs) = ground (arith, length-alive_ids subs)

  pub ids_of-append : (xs ys : List (ModelSub p)) → ids_of (xs ++ ys) ≡ ids_of xs ++ ids_of ys
  ids_of-append [] ys = refl
  ids_of-append (s ∷ xs) ys = ap (λ t. s.id ∷ t) (ids_of-append xs ys)

  pub count-alive_append :
      (a : SubscriptionId) (xs ys : List (ModelSub p))
      → count a (alive_ids (xs ++ ys)) ≡ count a (alive_ids xs) + count a (alive_ids ys)
  count-alive_append a [] ys = omega arith
  count-alive_append a (s ∷ xs) ys = ground (arith, count-alive_append a xs ys)

  module _ (P Q : ModelSub p → Type 0) where
    pub found-All :
        (subs : List (ModelSub p)) (i : ℕ) (s : ModelSub p)
        → get_elem? subs i ≡ some s
        → All P subs
        → P s
    found-All [] i s h a = absurd (cc (h))
    found-All (t ∷ subs) zero s h a = subst P (cc (h)) a.0
    found-All (t ∷ subs) (suc i) s h a = found-All subs i s h a.1

    pub map-All :
        (subs : List (ModelSub p)) → ((t : ModelSub p) → P t → Q t) → All P subs → All Q subs
    map-All [] f a = tt
    map-All (t ∷ subs) f a = (f t a.0, map-All subs f a.1)

    -- What holds of the subscriptions that do not have an id.
    pub absent-All :
        (subs : List (ModelSub p)) (id : SubscriptionId)
        → count id (ids_of subs) ≡ 0
        → ((t : ModelSub p) → (t.id =? id) ≡ false → P t → Q t)
        → All P subs
        → All Q subs
    absent-All [] id h f a = tt
    absent-All (t ∷ subs) id h f a = (
      f t (ground (arith, h, =?_iff id t.id, =?_iff t.id id)) a.0,
      absent-All subs id (ground (arith, h)) f a.1,
    )

  of_some : (x y : ModelSub p) → some x ≡ some y → x ≡ y
  of_some x y e = cc (e)

  pub found-count :
      (subs : List (ModelSub p)) (i : ℕ) (s : ModelSub p)
      → get_elem? subs i ≡ some s
      → 0 < count s.id (ids_of subs)
  found-count [] i s h = absurd (cc (h))
  found-count (t ∷ subs) zero s h =
      ground (arith, ap (λ (x : ModelSub p). x.id) (of_some t s h), =?_iff s.id t.id)
  found-count (t ∷ subs) (suc i) s h = omega (arith, found-count subs i s h)

  module _ (P Q : ModelSub p → Type 0) where
    -- One slot is changed, with a property for it and one for the slots with another id.
    pub change-All :
        (subs : List (ModelSub p)) (i : ℕ) (s s' : ModelSub p)
        → get_elem? subs i ≡ some s
        → count s.id (ids_of subs) ≤ 1
        → ((t : ModelSub p) → (t.id =? s.id) ≡ false → P t → Q t)
        → Q s'
        → All P subs
        → All Q (change_slot p i (λ t. s') subs)
    change-All [] i s s' h d f q a = tt
    change-All (t ∷ subs) zero s s' h d f q a = (
      q,
      absent-All P Q subs s.id
          (ground (arith, d, ap (λ (x : ModelSub p). x.id) (of_some t s h), =?_iff s.id t.id)) f
          a.1,
    )
    change-All (t ∷ subs) (suc i) s s' h d f q a = (
      f t (ground (arith, d, found-count subs i s h, =?_iff s.id t.id, =?_iff t.id s.id)) a.0,
      change-All subs i s s' h (ground (arith, d)) f q a.1,
    )

  module _ (s s' : ModelSub p) (same : s'.id ≡ s.id) where
    pub change-ids_of :
        (subs : List (ModelSub p)) (i : ℕ)
        → get_elem? subs i ≡ some s
        → ids_of (change_slot p i (λ t. s') subs) ≡ ids_of subs
    change-ids_of [] i h = refl
    change-ids_of (t ∷ subs) zero h =
        ap (λ x. x ∷ ids_of subs) (same ∙ sym (ap (λ (x : ModelSub p). x.id) (of_some t s h)))
    change-ids_of (t ∷ subs) (suc i) h = ap (λ x. t.id ∷ x) (change-ids_of subs i h)

    pub change-alive :
        (a : SubscriptionId) (subs : List (ModelSub p)) (i : ℕ)
        → get_elem? subs i ≡ some s
        → count a (alive_ids (change_slot p i (λ t. s') subs))
            + (if handle_alive p s && (a =? s.id) then 1 else 0)
          ≡ count a (alive_ids subs) + (if handle_alive p s' && (a =? s.id) then 1 else 0)
    change-alive a [] i h = absurd (cc (h))
    change-alive a (t ∷ subs) zero h = ground (
      arith,
      same,
      ap (λ (x : ModelSub p). x.id) (of_some t s h),
      ap (λ (x : ModelSub p). handle_alive p x) (of_some t s h),
    )
    change-alive a (t ∷ subs) (suc i) h = ground (arith, change-alive a subs i h)

  pub alive-ids :
      (a : SubscriptionId) (subs : List (ModelSub p))
      → count a (alive_ids subs) ≤ count a (ids_of subs)
  alive-ids a [] = omega arith
  alive-ids a (s ∷ subs) = ground (arith, alive-ids a subs)

  -- An id of a later generation is not there yet.
  pub count-later :
      (a : SubscriptionId) (g : ℕ) (subs : List (ModelSub p))
      → All (λ (s : ModelSub p). s.id.generation < g) subs
      → g ≤ a.generation
      → count a (ids_of subs) ≡ 0
  count-later a g [] h l = refl
  count-later a g (s ∷ subs) h l = ground (arith, h.0, l, =?_iff a s.id, count-later a g subs h.1 l)
