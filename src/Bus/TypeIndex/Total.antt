-- ===== src/Bus/TypeIndex/Total.antt =====
-- The slots on the way along a CoT type, and when the slot of a pattern is among them.
use tak_rs.Common.{
  ℕ, suc, ◌+◌, ◌-◌, Bool, true, false, ◌&&◌, some, List, [], ◌∷◌, ◌=?◌, if◌then◌else◌, length,
  is_empty, Str, list_eq, nat_eq, ◌≡◌, arith, =?_iff, list_eqb-nil, list_eqb-cons_nil,
  list_eqb-nil_cons, list_eqb-cons, list_eqb, refl, Bool-cases, inl, inr,
}
use tak_rs.Bus.Identity.{id_eq}
use tak_rs.Bus.TypeIndex.{trim, split, split_first, star, matches_all}
use tak_rs.Bus.TypeIndex.Pattern.{type_prefix_matches, tokens_match}
use tak_rs.Bus.TypeIndex.Slots.{at_slot, slot_path, pattern_tokens}

-- The sum of `f` over the slots on the way along `toks`, that of the root left out.
unfoldable pub total : List Str → (List Str → Bool → ℕ) → ℕ
total [] f = 0
total (t ∷ rest) f =
    f (t ∷ []) true
    + (if is_empty rest then f (t ∷ []) false else 0)
    + total rest (λ path wild. f (t ∷ path) wild)

pub total-ext :
    (toks : List Str) (f g : List Str → Bool → ℕ)
    → ((t : Str) (path : List Str) (wild : Bool) → f (t ∷ path) wild ≡ g (t ∷ path) wild)
    → total toks f ≡ total toks g
unfolding total
total-ext [] f g h = refl
total-ext (t ∷ rest) f g h = ground (
  arith,
  h t [] true,
  h t [] false,
  total-ext rest (λ path wild. f (t ∷ path) wild) (λ path wild. g (t ∷ path) wild)
      (λ u path wild. h t (u ∷ path) wild),
)

pub total-zero : (toks : List Str) → total toks (λ path wild. 0) ≡ 0
unfolding total
total-zero [] = refl
total-zero (t ∷ rest) = ground (arith, total-zero rest)

tokens_match-cons :
    (tok next : Str) (rest : List Str) (c : Str) (cs : List Str)
    → tokens_match (tok ∷ next ∷ rest) (c ∷ cs) ≡ ((tok =? c) && tokens_match (next ∷ rest) cs)
tokens_match-cons tok next rest c cs =
    rw one_less (ground (arith, list_eqb-cons c tok cs (next ∷ rest), =?_iff c tok, =?_iff tok c))
  where
    one_less : suc (suc (length rest)) - 1 ≡ suc (suc (length rest) - 1)
    one_less = omega arith

tokens_match-nil : (tok next : Str) (rest : List Str) → tokens_match (tok ∷ next ∷ rest) [] ≡ false
tokens_match-nil tok next rest = rw one_less (ground (arith, list_eqb-nil_cons tok (next ∷ rest)))
  where
    one_less : suc (suc (length rest)) - 1 ≡ suc (suc (length rest) - 1)
    one_less = omega arith

abbrev pub hit : List Str → List Str → Bool → ℕ
hit toks path wild = if at_slot toks path wild then 1 else 0

same_end : ◌=?◌ {A = List Str} [] [] ≡ true
same_end = list_eqb-nil Str

hit-cons :
    (tok next : Str) (rest : List Str) (c : Str) (path : List Str) (wild : Bool)
    → hit (tok ∷ next ∷ rest) (c ∷ path) wild
      ≡ (if tok =? c then hit (next ∷ rest) path wild else 0)
hit-cons tok next rest c path wild =
    ground (arith, list_eqb-cons tok c (slot_path (next ∷ rest)) path)

no_exact_root : (tok : Str) (rest : List Str) → hit (tok ∷ rest) [] false ≡ 0
no_exact_root tok [] = ground (arith, list_eqb-cons_nil tok [])
no_exact_root tok (next ∷ rest) = ground (arith, list_eqb-cons_nil tok (slot_path (next ∷ rest)))

-- A pattern of one token: its slot is at the root or right below it.
module _ (tok c : Str) where
  hit-single : hit (tok ∷ []) (c ∷ []) true ≡ 0
  hit-single = ground (arith, list_eqb-cons tok c [] [], list_eqb-nil_cons c [])

  hit-exact : hit (tok ∷ []) (c ∷ []) false ≡ (if tok =? star then 0 else if c =? tok then 1 else 0)
  hit-exact = ground (
    arith,
    list_eqb-cons tok c [] [],
    list_eqb-nil_cons c [],
    same_end,
    =?_iff tok c,
    =?_iff c tok,
  )

  hit-deeper : (t : Str) (path : List Str) (wild : Bool) → hit (tok ∷ []) (c ∷ t ∷ path) wild ≡ 0
  hit-deeper t path wild = ground (
    arith,
    list_eqb-cons tok c [] (t ∷ path),
    list_eqb-nil_cons t path,
    list_eqb-nil_cons c (t ∷ path),
  )

hit-root : (tok : Str) → hit (tok ∷ []) [] true ≡ (if tok =? star then 1 else 0)
hit-root tok = ground (arith, same_end, list_eqb-cons_nil tok [])

hit-no_root : (tok next : Str) (rest : List Str) (wild : Bool) → hit (tok ∷ next ∷ rest) [] wild ≡ 0
hit-no_root tok next rest wild = ground (arith, list_eqb-cons_nil tok (slot_path (next ∷ rest)))

tokens_match-single :
    (tok c : Str) (cs : List Str)
    → tokens_match (tok ∷ []) (c ∷ cs) ≡ (if tok =? star then true else ((c =? tok) && is_empty cs))
tokens_match-single tok c [] = ground (arith, list_eqb-cons c tok [] [], same_end)
tokens_match-single tok c (d ∷ ds) =
    ground (arith, list_eqb-cons c tok (d ∷ ds) [], list_eqb-cons_nil d ds)

total-below :
    (tok next : Str) (rest : List Str) (c : Str) (cs : List Str)
    → total cs (λ path wild. hit (tok ∷ next ∷ rest) (c ∷ path) wild)
      ≡ (if tok =? c then total cs (hit (next ∷ rest)) else 0)
total-below tok next rest c cs = elim (Bool-cases (tok =? c)) [
  | inl same ↦ ground (
    arith,
    same,
    total-ext cs (λ path wild. hit (tok ∷ next ∷ rest) (c ∷ path) wild) (hit (next ∷ rest))
        (λ t path wild. ground (arith, same, hit-cons tok next rest c (t ∷ path) wild)),
  )
  | inr other ↦ ground (
    arith,
    other,
    total-ext cs (λ path wild. hit (tok ∷ next ∷ rest) (c ∷ path) wild) (λ path wild. 0)
        (λ t path wild. ground (arith, other, hit-cons tok next rest c (t ∷ path) wild)),
    total-zero cs,
  )
]

-- The slot of a pattern is on the way along a CoT type once if they match, and else never.
total-hit :
    (tok : Str) (rest cot : List Str)
    → hit (tok ∷ rest) [] true + total cot (hit (tok ∷ rest))
      ≡ (if tokens_match (tok ∷ rest) cot then 1 else 0)
unfolding total
total-hit tok [] [] = ground (arith, hit-root tok, list_eqb-nil_cons tok [])
total-hit tok [] (c ∷ cs) = ground (
  arith,
  hit-root tok,
  hit-single tok c,
  hit-exact tok c,
  tokens_match-single tok c cs,
  total-ext cs (λ path wild. hit (tok ∷ []) (c ∷ path) wild) (λ path wild. 0) (hit-deeper tok c),
  total-zero cs,
)
total-hit tok (next ∷ rest) [] =
    ground (arith, hit-no_root tok next rest true, tokens_match-nil tok next rest)
total-hit tok (next ∷ rest) (c ∷ cs) = ground (
  arith,
  hit-no_root tok next rest true,
  hit-cons tok next rest c [] true,
  hit-cons tok next rest c [] false,
  no_exact_root next rest,
  total-below tok next rest c cs,
  tokens_match-cons tok next rest c cs,
  total-hit next rest cs,
)

tokens_match-star : (cot : List Str) → tokens_match (star ∷ []) cot ≡ true
unfolding list_eqb
tokens_match-star [] = refl
tokens_match-star (c ∷ cs) = ground arith

pub type_prefix_matches-tokens :
    (pattern cot_type : Str)
    → type_prefix_matches (some pattern) cot_type
      ≡ tokens_match (pattern_tokens pattern) (split cot_type)
unfolding type_prefix_matches
type_prefix_matches-tokens pattern cot_type = ground (arith, tokens_match-star (split cot_type))

-- The slot of a pattern is visited for a CoT type once if they match, and else never.
pub visits :
    (pattern cot_type : Str)
    → hit (pattern_tokens pattern) [] true + total (split cot_type) (hit (pattern_tokens pattern))
      ≡ (if type_prefix_matches (some pattern) cot_type then 1 else 0)
unfolding split
visits pattern cot_type =
    rw (type_prefix_matches-tokens pattern cot_type)
      (elim (Bool-cases (matches_all (trim pattern))) [
        | inl all ↦ rw all (total-hit star [] (split cot_type))
        | inr other ↦ rw other (
            total-hit (split_first (trim pattern)).0 (split_first (trim pattern)).1
              (split cot_type))
      ])

pub total-add :
    (toks : List Str) (f g : List Str → Bool → ℕ)
    → total toks (λ path wild. f path wild + g path wild) ≡ total toks f + total toks g
unfolding total
total-add [] f g = refl
total-add (t ∷ rest) f g =
    ground (arith, total-add rest (λ path wild. f (t ∷ path) wild) (λ path wild. g (t ∷ path) wild))
