-- ===== src/Bus/Dispatch/Candidates.antt =====
-- The candidates that the type index gives `dispatch`: the subscriptions whose pattern matches the
-- CoT type, each once.
use tak_rs.Common.{
  Bool, true, false, Option, none, some, [], ◌∷◌, if◌then◌else◌, count, Str, ◌≡◌, arith, refl,
  Option-cases, inl, inr, str, list_eqb,
}
use mathlib.Core.Option
use tak_rs.Bus.Identity.{SubscriptionId, id_eq}
use tak_rs.Bus.TypeIndex.{split, trim}
use tak_rs.Bus.TypeIndex.Pattern.{type_prefix_matches}
use tak_rs.Bus.TypeIndex.Slots.{stored, pattern_tokens}
use tak_rs.Bus.TypeIndex.Total.{total-ext, total-zero, hit, visits}
use tak_rs.Bus.TypeIndex.Matches.{count-extend_matches}
use tak_rs.Bus.Platform.{Platform}
use tak_rs.Bus.Filter.{Filter}
use tak_rs.Bus.State.{Entry, Bus, entry_of}
use tak_rs.Bus.Registry.{pattern_of}
use tak_rs.Bus.Registry.Invariant.{IsValid}
use tak_rs.Bus.Dispatch.{extend_candidates}

module _ (p : Platform) where
  -- Whether an id with this entry is a candidate for the CoT type.
  abbrev pub is_candidate : Str → Option (Entry p) → Bool
  is_candidate cot_type none = false
  is_candidate cot_type (some e) = type_prefix_matches e.filter.type_prefix cot_type

  matches-pattern_of :
      (filter : Filter p) (cot_type : Str)
      → type_prefix_matches (some (pattern_of p filter)) cot_type
        ≡ type_prefix_matches filter.type_prefix cot_type
  unfolding type_prefix_matches trim list_eqb
  matches-pattern_of filter cot_type = go filter.type_prefix
    where
      go :
          (o : Option Str)
          → type_prefix_matches (some (Option.get_or o (str "*"))) cot_type
            ≡ type_prefix_matches o cot_type
      go none = refl
      go (some s) = refl

  module _ (bus : Bus p) (v : IsValid p bus) where
    -- In a valid bus, an id is among the candidates for a CoT type once if it has an entry whose
    -- pattern matches the type, and else never.
    pub count-extend_candidates :
        (id : SubscriptionId) (cot_type : Str) (lat lon : p.Float)
        → count id (extend_candidates p bus cot_type lat lon [])
          ≡ (if is_candidate cot_type (entry_of p bus.subs id) then 1 else 0)
    unfolding extend_candidates
    count-extend_candidates id cot_type lat lon = elim (Option-cases (entry_of p bus.subs id)) [
      | inl none_there ↦ rw none_there (
          ground (
            arith,
            none_there,
            count-extend_matches id cot_type bus.type_index [],
            v.indexed id [] true,
            total-ext (split cot_type) (λ path wild. count id (stored path wild bus.type_index))
                (λ path wild. 0)
                (λ t path wild. ground (arith, none_there, v.indexed id (t ∷ path) wild)),
            total-zero (split cot_type),
          ))
      | inr (e, there) ↦ rw there (
          ground (
            arith,
            there,
            count-extend_matches id cot_type bus.type_index [],
            v.indexed id [] true,
            total-ext (split cot_type) (λ path wild. count id (stored path wild bus.type_index))
                (hit (pattern_tokens (pattern_of p e.filter)))
                (λ t path wild. ground (arith, there, v.indexed id (t ∷ path) wild)),
            visits (pattern_of p e.filter) cot_type,
            matches-pattern_of e.filter cot_type,
          ))
    ]
