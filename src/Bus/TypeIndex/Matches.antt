-- ===== src/Bus/TypeIndex/Matches.antt =====
-- What `extend_matches` collects: each slot on the path of the CoT type once.
use tak_rs.Common.{
  ℕ, ◌+◌, Bool, true, false, ◌&&◌, none, some, List, [], ◌∷◌, ◌++◌, ◌=?◌, if◌then◌else◌, is_empty,
  count, count-append, count-without, Str, list_eq, nat_eq, ◌≡◌, arith, =?_iff, refl, Bool-cases,
  Option-cases, inl, inr,
}
use mathlib.Core.Path.{subst}
use tak_rs.Bus.Identity.{SubscriptionId, id_eq}
use tak_rs.Bus.TypeIndex.{
  Ids, TypeNode, children, exact, wildcard, get, walk, extend_matches, insert, remove, split,
}
use tak_rs.Bus.TypeIndex.Pattern.{type_prefix_matches}
use tak_rs.Bus.TypeIndex.Slots.{
  stored, pattern_tokens, slot_path, slot_wild, same_bool, at_slot, stored-insert, stored-remove,
}
use tak_rs.Bus.TypeIndex.Total.{total, total-ext, total-zero, total-add, hit, visits}

module _ (id : SubscriptionId) where
  abbrev held : TypeNode → List Str → Bool → ℕ
  held n path wild = count id (stored path wild n)

  held-none :
      (tok : Str) (n : TypeNode)
      → get tok (children n) ≡ none
      → (path : List Str) (wild : Bool) → held n (tok ∷ path) wild ≡ 0
  unfolding stored
  held-none tok n e path wild = ground (arith, e)

  held-some :
      (tok : Str) (n c : TypeNode)
      → get tok (children n) ≡ some c
      → (path : List Str) (wild : Bool) → held n (tok ∷ path) wild ≡ held c path wild
  unfolding stored
  held-some tok n c e path wild = ground (arith, e)

  root_slots :
      (n : TypeNode)
      → (held n [] true ≡ count id (wildcard n)) × (held n [] false ≡ count id (exact n))
  unfolding stored
  root_slots n = (refl, refl)

  count-walk :
      (toks : List Str) (n : TypeNode) (out : Ids)
      → count id (walk toks n out) ≡ count id out + total toks (held n)
  unfolding walk total
  count-walk [] n out = omega arith
  count-walk (tok ∷ rest) n out = elim (Option-cases (get tok (children n))) [
    | inl e ↦ ground (
      arith,
      e,
      held-none tok n e [] true,
      held-none tok n e [] false,
      total-ext rest (λ path wild. held n (tok ∷ path) wild) (λ path wild. 0)
          (λ u path wild. held-none tok n e (u ∷ path) wild),
      total-zero rest,
    )
    | inr (c, e) ↦ ground (
      arith,
      e,
      root_slots c,
      held-some tok n c e [] true,
      held-some tok n c e [] false,
      total-ext rest (λ path wild. held n (tok ∷ path) wild) (held c)
          (λ u path wild. held-some tok n c e (u ∷ path) wild),
      count-walk rest c
          (if is_empty rest then (out ++ wildcard c) ++ exact c else out ++ wildcard c),
      count-append id (out ++ wildcard c) (exact c),
      count-append id out (wildcard c),
    )
  ]

  -- How often `extend_matches` appends an id is the sum of how often it is in the slots on the way.
  pub count-extend_matches :
      (cot_type : Str) (root : TypeNode) (out : Ids)
      → count id (extend_matches cot_type root out)
        ≡ count id out + count id (stored [] true root) + total (split cot_type) (held root)
  unfolding extend_matches stored
  count-extend_matches cot_type root out = ground (
    arith,
    count-walk (split cot_type) root (out ++ wildcard root),
    count-append id out (wildcard root),
  )

module _ (pattern cot_type : Str) (x y : SubscriptionId) (root : TypeNode) where
  abbrev slot_hit : List Str → Bool → ℕ
  slot_hit = hit (pattern_tokens pattern)

  held-insert :
      (path : List Str) (wild : Bool)
      → held y (insert pattern x root) path wild
        ≡ held y root path wild + (if y =? x then slot_hit path wild else 0)
  held-insert path wild = ground (
    arith,
    stored-insert pattern x path wild root,
    count-append y (stored path wild root) (x ∷ []),
  )

  -- After `insert pattern x`, `extend_matches` finds `x` once more for a CoT type that the pattern
  -- matches. It finds every other id, and `x` for a CoT type that the pattern does not match, as
  -- often as before.
  pub count-extend_matches-insert :
      count y (extend_matches cot_type (insert pattern x root) [])
      ≡ count y (extend_matches cot_type root [])
        + (if (y =? x) && type_prefix_matches (some pattern) cot_type then 1 else 0)
  count-extend_matches-insert = elim (Bool-cases (y =? x)) [
    | inl same ↦ ground (
      arith,
      same,
      count-extend_matches y cot_type root [],
      count-extend_matches y cot_type (insert pattern x root) [],
      held-insert [] true,
      total-ext (split cot_type) (held y (insert pattern x root))
          (λ path wild. held y root path wild + slot_hit path wild)
          (λ t path wild. ground (arith, same, held-insert (t ∷ path) wild)),
      total-add (split cot_type) (held y root) slot_hit,
      visits pattern cot_type,
    )
    | inr other ↦ ground (
      arith,
      other,
      count-extend_matches y cot_type root [],
      count-extend_matches y cot_type (insert pattern x root) [],
      held-insert [] true,
      total-ext (split cot_type) (held y (insert pattern x root)) (held y root)
          (λ t path wild. ground (arith, other, held-insert (t ∷ path) wild)),
    )
  ]

at_slot-same :
    (toks path : List Str) (wild : Bool)
    → at_slot toks path wild ≡ true
    → (slot_path toks ≡ path) × (slot_wild toks ≡ wild)
at_slot-same toks path wild h = (
  ground (arith, h, =?_iff (slot_path toks) path),
  same (slot_wild toks) wild (ground (arith, h)),
)
  where
    same : (a b : Bool) → same_bool a b ≡ true → a ≡ b
    same true true h = refl
    same false false h = refl
    same true false h = absurd (cc (h))
    same false true h = absurd (cc (h))

-- `remove` takes back what `insert` of the same pattern and id did: from a trie whose slot of the
-- pattern does not hold the id, every CoT type finds every id as often as before the two.
pub extend_matches-remove-insert :
    (pattern cot_type : Str) (x y : SubscriptionId) (root : TypeNode)
    → count x
        (stored (slot_path (pattern_tokens pattern)) (slot_wild (pattern_tokens pattern)) root)
      ≡ 0
    → count y (extend_matches cot_type (remove pattern x (insert pattern x root)) [])
      ≡ count y (extend_matches cot_type root [])
extend_matches-remove-insert pattern cot_type x y root fresh = ground (
  arith,
  count-extend_matches y cot_type root [],
  count-extend_matches y cot_type (remove pattern x (insert pattern x root)) [],
  restored [] true,
  total-ext (split cot_type) (held y (remove pattern x (insert pattern x root))) (held y root)
      (λ t path wild. restored (t ∷ path) wild),
)
  where
    fresh_at :
        (path : List Str) (wild : Bool)
        → at_slot (pattern_tokens pattern) path wild ≡ true
        → count x (stored path wild root) ≡ 0
    fresh_at path wild here =
        let (p, w) = at_slot-same (pattern_tokens pattern) path wild here in
        subst (λ p. count x (stored p wild root) ≡ 0) p
          (subst (λ w. count x (stored (slot_path (pattern_tokens pattern)) w root) ≡ 0) w fresh)

    restored :
        (path : List Str) (wild : Bool)
        → held y (remove pattern x (insert pattern x root)) path wild ≡ held y root path wild
    restored path wild = elim (Bool-cases (at_slot (pattern_tokens pattern) path wild)) [
      | inl here ↦ ground (
        arith,
        here,
        fresh_at path wild here,
        stored-insert pattern x path wild root,
        stored-remove pattern x path wild (insert pattern x root),
        count-append y (stored path wild root) (x ∷ []),
        count-without x y (stored path wild root ++ (x ∷ [])),
        =?_iff x y,
        =?_iff y x,
      )
      | inr elsewhere ↦ ground (
        arith,
        elsewhere,
        stored-insert pattern x path wild root,
        stored-remove pattern x path wild (insert pattern x root),
      )
    ]
