-- ===== src/Bus/TypeIndex/Pattern.antt =====
-- When a CoT type matches a subscriber's pattern: `type_prefix_matches` of
-- crates/tak-bus-vopr/src/model.rs, the reference that the simulator checks the bus against.
use tak_rs.Common.{
  ◌-◌, Bool, true, false, ◌&&◌, Option, none, some, List, [], ◌∷◌, leb, ◌=?◌, if◌then◌else◌, length,
  take, Str, list_eq, nat_eq,
}
use tak_rs.Bus.TypeIndex.{trim, split, star, matches_all}

-- `tokens.last() == Some(&"*")`
abbrev pub ends_in_star : List Str → Bool
ends_in_star [] = false
ends_in_star (tok ∷ []) = tok =? star
ends_in_star (tok ∷ next ∷ rest) = ends_in_star (next ∷ rest)

-- `cot_tokens.starts_with(prefix)`
abbrev pub starts_with : List Str → List Str → Bool
starts_with toks [] = true
starts_with [] (p ∷ prefix) = false
starts_with (t ∷ toks) (p ∷ prefix) = (t =? p) && starts_with toks prefix

abbrev pub tokens_match : List Str → List Str → Bool
tokens_match pat_tokens cot_tokens =
    let prefix = take (length pat_tokens - 1) pat_tokens in
    if ends_in_star pat_tokens
    then leb (length prefix) (length cot_tokens) && starts_with cot_tokens prefix
    else cot_tokens =? pat_tokens

unfoldable pub type_prefix_matches : Option Str → Str → Bool
type_prefix_matches none cot_type = true
type_prefix_matches (some pattern) cot_type =
    let p = trim pattern in if matches_all p then true else tokens_match (split p) (split cot_type)
