-- ===== src/Bus/TypeIndex.antt =====
-- The type-prefix trie of crates/tak-bus/src/index.rs. A `HashMap` of children is an association
-- list without an order that anything depends on.
pub mod Pattern
pub mod Slots
pub mod Total
pub mod Matches
use tak_rs.Common.{
  ℕ, zero, suc, ◌+◌, Bool, true, false, ◌&&◌, ◌||◌, Option, none, some, List, [], ◌∷◌, ◌++◌, leb,
  ◌==◌, ◌=?◌, if◌then◌else◌, length, is_empty, without, Str, str, list_eq, nat_eq,
}
use mathlib.Core.List.{reverse}
use tak_rs.Bus.Identity.{SubscriptionId, id_eq}

abbrev pub Ids : Type 0
Ids = List SubscriptionId

mutual
  pub data TypeNode : Type 0 where
    node : Children → Ids → Ids → TypeNode

  pub data Children : Type 0 where
    nil : Children
    child : Str → TypeNode → Children → Children

abbrev pub children : TypeNode → Children
children (node c e w) = c

abbrev pub exact : TypeNode → Ids
exact (node c e w) = e

abbrev pub wildcard : TypeNode → Ids
wildcard (node c e w) = w

-- `TypeNode::default()`, and so `TypeIndex::default()`
abbrev pub default : TypeNode
default = node nil [] []

-- `children.get(tok)`
unfoldable pub get : Str → Children → Option TypeNode
get tok nil = none
get tok (child t n rest) = if t =? tok then some n else get tok rest

-- `f` at `children.entry(tok).or_default()`
unfoldable pub with_entry : Str → (TypeNode → TypeNode) → Children → Children
with_entry tok f nil = child tok (f default) nil
with_entry tok f (child t n rest) =
    if t =? tok then child t (f n) rest else child t n (with_entry tok f rest)

-- `f` at `children.get_mut(tok)`, if it is there
unfoldable pub with_existing : Str → (TypeNode → TypeNode) → Children → Children
with_existing tok f nil = nil
with_existing tok f (child t n rest) =
    if t =? tok then child t (f n) rest else child t n (with_existing tok f rest)

-- `char::is_whitespace`
abbrev pub is_whitespace : ℕ → Bool
is_whitespace c =
    (leb 9 c && leb c 13)
    || (c == 0x20)
    || (c == 0x85)
    || (c == 0xA0)
    || (c == 0x1680)
    || (leb 0x2000 c && leb c 0x200A)
    || (c == 0x2028)
    || (c == 0x2029)
    || (c == 0x202F)
    || (c == 0x205F)
    || (c == 0x3000)

trim_start : Str → Str
trim_start [] = []
trim_start (c ∷ s) = let rest = trim_start s in if is_whitespace c then rest else c ∷ s

unfoldable pub trim : Str → Str
unfolding trim_start
trim s = reverse (trim_start (reverse (trim_start s)))

-- `s.split('-')`: the token before the first hyphen, and the tokens behind it.
pub split_first : Str → Str × List Str
split_first [] = ([], [])
split_first (c ∷ s) =
    let (tok, rest) = split_first s in if c == b'-' then ([], tok ∷ rest) else (c ∷ tok, rest)

unfoldable pub split : Str → List Str
unfolding split_first
split s = let (tok, rest) = split_first s in tok ∷ rest

abbrev pub star : Str
star = str "*"

-- The test `pat.is_empty() || pat == "*"`.
abbrev pub matches_all : Str → Bool
matches_all pat = is_empty pat || (pat =? star)

-- The loops of `insert` and `remove` over the tokens, from the node that they have reached.
unfoldable pub insert_tokens : SubscriptionId → List Str → TypeNode → TypeNode
insert_tokens id [] (node c e w) = node c e w
insert_tokens id (tok ∷ []) (node c e w) =
    if tok =? star
    then node c e (w ++ (id ∷ []))
    else node (with_entry tok (λ n. node (children n) (exact n ++ (id ∷ [])) (wildcard n)) c) e w
insert_tokens id (tok ∷ next ∷ rest) (node c e w) =
    node (with_entry tok (insert_tokens id (next ∷ rest)) c) e w

unfoldable pub remove_tokens : SubscriptionId → List Str → TypeNode → TypeNode
remove_tokens id [] (node c e w) = node c e w
remove_tokens id (tok ∷ []) (node c e w) =
    if tok =? star
    then node c e (without id w)
    else node (with_existing tok (λ n. node (children n) (without id (exact n)) (wildcard n)) c) e w
remove_tokens id (tok ∷ next ∷ rest) (node c e w) =
    node (with_existing tok (remove_tokens id (next ∷ rest)) c) e w

unfoldable pub insert : Str → SubscriptionId → TypeNode → TypeNode
insert pattern id root =
    let pat = trim pattern in
    if matches_all pat
    then node (children root) (exact root) (wildcard root ++ (id ∷ []))
    else insert_tokens id (split pat) root

unfoldable pub remove : Str → SubscriptionId → TypeNode → TypeNode
remove pattern id root =
    let pat = trim pattern in
    if matches_all pat
    then node (children root) (exact root) (without id (wildcard root))
    else remove_tokens id (split pat) root

-- The loop of `extend_matches` over the tokens that are left.
unfoldable pub walk : List Str → TypeNode → Ids → Ids
walk [] n out = out
walk (tok ∷ rest) n out = elim (get tok (children n)) [
  | none ↦ out
  | some c ↦
      walk rest c (if is_empty rest then (out ++ wildcard c) ++ exact c else out ++ wildcard c)
]

unfoldable pub extend_matches : Str → TypeNode → Ids → Ids
extend_matches cot_type root out = walk (split cot_type) root (out ++ wildcard root)

-- The `walk` of `len`.
unfoldable mutual
  pub walk_len : TypeNode → ℕ
  walk_len (node c e w) = length e + length w + walk_len_children c

  pub walk_len_children : Children → ℕ
  walk_len_children nil = 0
  walk_len_children (child t n rest) = walk_len n + walk_len_children rest
