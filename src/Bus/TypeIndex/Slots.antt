-- ===== src/Bus/TypeIndex/Slots.antt =====
-- The trie as a table: a slot is the path of a node and which of its two lists is meant. `insert`
-- and `remove` change the one slot that the pattern names.
use tak_rs.Common.{
  Bool, true, false, not, ◌&&◌, Option, none, some, List, [], ◌∷◌, ◌++◌, ◌=?◌, if◌then◌else◌,
  without, Str, list_eq, nat_eq, ◌≡◌, arith, =?_iff, list_eqb-nil, list_eqb-cons_nil,
  list_eqb-nil_cons, list_eqb-cons, list_eqb, refl, Bool-cases, inl, inr,
}
use mathlib.Core.Option
use tak_rs.Bus.Identity.{SubscriptionId, id_eq}
use tak_rs.Bus.TypeIndex.{
  Ids, TypeNode, Children, node, nil, child, children, exact, wildcard, default, get, with_entry,
  with_existing, insert_tokens, remove_tokens, insert, remove, trim, split, split_first, star,
  matches_all,
}

-- The list in a slot.
unfoldable pub stored : List Str → Bool → TypeNode → Ids
stored [] wild n = if wild then wildcard n else exact n
stored (tok ∷ path) wild n = elim (get tok (children n)) [ none ↦ [] | some c ↦ stored path wild c ]

-- The slot of a pattern's tokens.
abbrev pub slot_path : List Str → List Str
slot_path [] = []
slot_path (tok ∷ []) = if tok =? star then [] else tok ∷ []
slot_path (tok ∷ next ∷ rest) = tok ∷ slot_path (next ∷ rest)

abbrev pub slot_wild : List Str → Bool
slot_wild [] = true
slot_wild (tok ∷ []) = tok =? star
slot_wild (tok ∷ next ∷ rest) = slot_wild (next ∷ rest)

abbrev pub same_bool : Bool → Bool → Bool
same_bool true b = b
same_bool false b = not b

abbrev pub at_slot : List Str → List Str → Bool → Bool
at_slot toks path wild = (slot_path toks =? path) && same_bool (slot_wild toks) wild

-- The tokens of a pattern; `["*"]` stands for the patterns that match everything.
abbrev pub pattern_tokens : Str → List Str
pattern_tokens pattern = let pat = trim pattern in if matches_all pat then star ∷ [] else split pat

abbrev or_default : Option TypeNode → TypeNode
or_default none = default
or_default (some n) = n

get-with_entry :
    (tok u : Str) (f : TypeNode → TypeNode) (c : Children)
    → get u (with_entry tok f c) ≡ (if tok =? u then some (f (or_default (get tok c))) else get u c)
unfolding get with_entry
get-with_entry tok u f nil = refl
get-with_entry tok u f (child t n rest) =
    ground (arith, =?_iff t tok, =?_iff t u, =?_iff tok u, get-with_entry tok u f rest)

get-with_existing :
    (tok u : Str) (f : TypeNode → TypeNode) (c : Children)
    → get u (with_existing tok f c) ≡ (if tok =? u then Option.map f (get tok c) else get u c)
unfolding get with_existing
get-with_existing tok u f nil = ground arith
get-with_existing tok u f (child t n rest) =
    ground (arith, =?_iff t tok, =?_iff t u, =?_iff tok u, get-with_existing tok u f rest)

same_end : ◌=?◌ {A = List Str} [] [] ≡ true
same_end = list_eqb-nil Str

-- What `insert` adds goes to the end of the slot.
abbrev push_at : SubscriptionId → List Str → List Str → Bool → TypeNode → Ids
push_at id toks path wild n =
    if at_slot toks path wild then stored path wild n ++ (id ∷ []) else stored path wild n

pub stored-default : (path : List Str) (wild : Bool) → stored path wild default ≡ []
unfolding stored get
stored-default [] true = refl
stored-default [] false = refl
stored-default (t ∷ path) wild = refl

stored-insert_tokens :
    (id : SubscriptionId) (tok : Str) (rest path : List Str) (wild : Bool) (n : TypeNode)
    → stored path wild (insert_tokens id (tok ∷ rest) n) ≡ push_at id (tok ∷ rest) path wild n
unfolding stored insert_tokens
stored-insert_tokens id tok [] [] wild (node c e w) =
    ground (arith, same_end, list_eqb-cons_nil tok [])
stored-insert_tokens id tok [] (t ∷ []) wild (node c e w) = ground (
  arith,
  get-with_entry tok t (λ n. node (children n) (exact n ++ (id ∷ [])) (wildcard n)) c,
  list_eqb-cons tok t [] [],
  list_eqb-nil_cons t [],
  same_end,
  =?_iff tok t,
)
stored-insert_tokens id tok [] (t ∷ next ∷ path) wild (node c e w) = ground (
  arith,
  get-with_entry tok t (λ n. node (children n) (exact n ++ (id ∷ [])) (wildcard n)) c,
  list_eqb-cons tok t [] (next ∷ path),
  list_eqb-nil_cons next path,
  list_eqb-nil_cons t (next ∷ path),
  =?_iff tok t,
  stored-default (next ∷ path) wild,
)
stored-insert_tokens id tok (next ∷ rest) [] wild (node c e w) =
    ground (arith, list_eqb-cons_nil tok (slot_path (next ∷ rest)))
stored-insert_tokens id tok (next ∷ rest) (t ∷ path) wild (node c e w) = ground (
  arith,
  get-with_entry tok t (insert_tokens id (next ∷ rest)) c,
  list_eqb-cons tok t (slot_path (next ∷ rest)) path,
  =?_iff tok t,
  stored-insert_tokens id next rest path wild (or_default (get tok c)),
  stored-default path wild,
)

-- What `remove` leaves of a slot.
abbrev drop_at : SubscriptionId → List Str → List Str → Bool → TypeNode → Ids
drop_at id toks path wild n =
    if at_slot toks path wild then without id (stored path wild n) else stored path wild n

stored-remove_tokens :
    (id : SubscriptionId) (tok : Str) (rest path : List Str) (wild : Bool) (n : TypeNode)
    → stored path wild (remove_tokens id (tok ∷ rest) n) ≡ drop_at id (tok ∷ rest) path wild n
unfolding stored remove_tokens
stored-remove_tokens id tok [] [] wild (node c e w) =
    ground (arith, same_end, list_eqb-cons_nil tok [])
stored-remove_tokens id tok [] (t ∷ []) wild (node c e w) = ground (
  arith,
  get-with_existing tok t (λ n. node (children n) (without id (exact n)) (wildcard n)) c,
  list_eqb-cons tok t [] [],
  list_eqb-nil_cons t [],
  same_end,
  =?_iff tok t,
)
stored-remove_tokens id tok [] (t ∷ next ∷ path) wild (node c e w) = ground (
  arith,
  get-with_existing tok t (λ n. node (children n) (without id (exact n)) (wildcard n)) c,
  list_eqb-cons tok t [] (next ∷ path),
  list_eqb-nil_cons next path,
  list_eqb-nil_cons t (next ∷ path),
  =?_iff tok t,
)
stored-remove_tokens id tok (next ∷ rest) [] wild (node c e w) =
    ground (arith, list_eqb-cons_nil tok (slot_path (next ∷ rest)))
stored-remove_tokens id tok (next ∷ rest) (t ∷ path) wild (node c e w) = ground (
  arith,
  get-with_existing tok t (remove_tokens id (next ∷ rest)) c,
  list_eqb-cons tok t (slot_path (next ∷ rest)) path,
  =?_iff tok t,
  stored-remove_tokens id next rest path wild (or_default (get tok c)),
)

-- The early return of `insert` and of `remove` is their loop at the token `*`.
insert_star :
    (id : SubscriptionId) (root : TypeNode)
    → node (children root) (exact root) (wildcard root ++ (id ∷ []))
      ≡ insert_tokens id (star ∷ []) root
unfolding insert_tokens list_eqb
insert_star id (node c e w) = refl

remove_star :
    (id : SubscriptionId) (root : TypeNode)
    → node (children root) (exact root) (without id (wildcard root))
      ≡ remove_tokens id (star ∷ []) root
unfolding remove_tokens list_eqb
remove_star id (node c e w) = refl

-- `insert` appends the id to the slot of its pattern, and changes no other slot.
pub stored-insert :
    (pattern : Str) (id : SubscriptionId) (path : List Str) (wild : Bool) (root : TypeNode)
    → stored path wild (insert pattern id root) ≡ (
        if at_slot (pattern_tokens pattern) path wild
        then stored path wild root ++ (id ∷ [])
        else stored path wild root)
unfolding insert split
stored-insert pattern id path wild root = elim (Bool-cases (matches_all (trim pattern))) [
  | inl all ↦ rw (all, insert_star id root) (stored-insert_tokens id star [] path wild root)
  | inr other ↦ rw other (
      stored-insert_tokens id (split_first (trim pattern)).0 (split_first (trim pattern)).1 path
        wild root)
]

-- `remove` takes the id out of the slot of its pattern, and changes no other slot.
pub stored-remove :
    (pattern : Str) (id : SubscriptionId) (path : List Str) (wild : Bool) (root : TypeNode)
    → stored path wild (remove pattern id root) ≡ (
        if at_slot (pattern_tokens pattern) path wild
        then without id (stored path wild root)
        else stored path wild root)
unfolding remove split
stored-remove pattern id path wild root = elim (Bool-cases (matches_all (trim pattern))) [
  | inl all ↦ rw (all, remove_star id root) (stored-remove_tokens id star [] path wild root)
  | inr other ↦ rw other (
      stored-remove_tokens id (split_first (trim pattern)).0 (split_first (trim pattern)).1 path
        wild root)
]
