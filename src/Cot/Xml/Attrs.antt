-- ===== src/Cot/Xml/Attrs.antt =====
-- The walk over attributes as the encoder writes them: one call of the closure for each, in order.
use tak_rs.Common.{
  ℕ, zero, suc, ◌≤◌, true, false, not, ◌||◌, none, List, [], ◌∷◌, ◌++◌, ◌==◌, length, is_empty, All,
  Str, ◌≡◌, refl, arith, append_assoc, length-append,
}
use mathlib.Core.Path.{ap, ◌∙◌, fun_ext}
use tak_rs.Cot.{Result, ok, ◌>>=◌}
use tak_rs.Cot.Xml.{
  is_ws, is_name_break, is_key_byte, is_special, take_while, drop_while, read_value, walk_value,
  walk_loop, walk_attrs, find_special,
}

-- Text that needs no escape.
abbrev pub IsPlain : Str → Type 0
IsPlain s = All (λ c. is_special c ≡ false) s

abbrev pub IsKey : Str → Type 0
IsKey k = (is_empty k ≡ false) × All (λ c. is_key_byte c ≡ true) k

abbrev pub IsName : Str → Type 0
IsName s = All (λ c. is_name_break c ≡ false) s

abbrev pub rendered : Str → Str → Str
rendered key value = b' ' ∷ (key ++ (b'=' ∷ b'"' ∷ (value ++ (b'"' ∷ []))))

rendered-append :
    (key value rest : Str)
    → rendered key value ++ rest ≡ b' ' ∷ (key ++ (b'=' ∷ b'"' ∷ (value ++ (b'"' ∷ rest))))
rendered-append key value rest = simp append_assoc

abbrev pub render_all : List (Str × Str) → Str
render_all [] = []
render_all ((key, value) ∷ attrs) = rendered key value ++ render_all attrs

abbrev pub AllRendered : List (Str × Str) → Type 0
AllRendered [] = Unit {0}
AllRendered ((key, value) ∷ attrs) = IsKey key × (IsPlain value × AllRendered attrs)

pub find_special-IsPlain : (s : Str) → find_special s ≡ none → IsPlain s
unfolding find_special
find_special-IsPlain [] h = tt
find_special-IsPlain (c ∷ s) h = ground (arith, find_special-IsPlain s)

read_value-plain :
    (value rest : Str) → IsPlain value → read_value b'"' (value ++ (b'"' ∷ rest)) ≡ ok (value, rest)
unfolding read_value
read_value-plain [] rest h = refl
read_value-plain (c ∷ value) rest h = rw (read_value-plain value rest h.1) (ground (arith, h.0))

take_key :
    (key : Str) (c : ℕ) (rest : Str)
    → All (λ c. is_key_byte c ≡ true) key
    → is_key_byte c ≡ false
    → take_while is_key_byte (key ++ (c ∷ rest)) ≡ key
take_key [] c rest h e = rw e refl
take_key (k ∷ key) c rest h e = rw (h.0, take_key key c rest h.1 e) refl

drop_key :
    (key : Str) (c : ℕ) (rest : Str)
    → All (λ c. is_key_byte c ≡ true) key
    → is_key_byte c ≡ false
    → drop_while is_key_byte (key ++ (c ∷ rest)) ≡ c ∷ rest
drop_key [] c rest h e = rw e refl
drop_key (k ∷ key) c rest h e = rw (h.0, drop_key key c rest h.1 e) refl

drop_name :
    (name : Str) (c : ℕ) (rest : Str)
    → IsName name
    → is_name_break c ≡ true
    → drop_while (λ b. not (is_name_break b)) (name ++ (c ∷ rest)) ≡ c ∷ rest
drop_name [] c rest h e = rw e refl
drop_name (k ∷ name) c rest h e = rw (h.0, drop_name name c rest h.1 e) refl

-- A key begins where the blank ends.
start_of_key : (key rest : Str) → IsKey key → drop_while is_ws (b' ' ∷ (key ++ rest)) ≡ key ++ rest
start_of_key [] rest h = absurd (cc (h.0))
start_of_key (k ∷ key) rest h = ground (arith, h)

module _ {S : Type 0} (f : Str → Str → S → Result S) where
  abbrev pub fold_attrs : List (Str × Str) → S → Result S
  fold_attrs [] st = ok st
  fold_attrs ((key, value) ∷ attrs) st = f key value st >>= fold_attrs attrs

  walk_loop-rendered :
      (n : ℕ) (key value rest : Str) (st : S)
      → IsKey key
      → IsPlain value
      → walk_loop f (suc n) (b' ' ∷ (key ++ (b'=' ∷ b'"' ∷ (value ++ (b'"' ∷ rest))))) st
        ≡ (f key value st >>= walk_loop f n rest)
  unfolding walk_loop walk_value
  walk_loop-rendered n key value rest st k v =
      rw
        (
          walk_loop,
          start_of_key key (b'=' ∷ b'"' ∷ (value ++ (b'"' ∷ rest))) k,
          take_key key b'=' (b'"' ∷ (value ++ (b'"' ∷ rest))) k.1 refl,
          drop_key key b'=' (b'"' ∷ (value ++ (b'"' ∷ rest))) k.1 refl,
          k.0,
          read_value-plain value rest v,
        )
        refl

  walk_loop_end :
      (n c : ℕ) (rest : Str) (st : S)
      → (c == b'>' || c == b'/') ≡ true
      → walk_loop f n (c ∷ rest) st ≡ ok st
  unfolding walk_loop
  walk_loop_end zero c rest st e = refl
  walk_loop_end (suc n) c rest st e = ground (arith, e)

  walk_loop-render_all :
      (attrs : List (Str × Str)) (n c : ℕ) (rest : Str) (st : S)
      → AllRendered attrs
      → (c == b'>' || c == b'/') ≡ true
      → length attrs ≤ n
      → walk_loop f n (render_all attrs ++ (c ∷ rest)) st ≡ fold_attrs attrs st
  walk_loop-render_all [] n c rest st a e h = walk_loop_end n c rest st e
  walk_loop-render_all ((key, value) ∷ attrs) zero c rest st a e h = absurd (omega arith)
  walk_loop-render_all ((key, value) ∷ attrs) (suc n) c rest st a e h =
      ap (λ s. walk_loop f (suc n) s st)
        (append_assoc (rendered key value) (render_all attrs) (c ∷ rest)
          ∙ rendered-append key value (render_all attrs ++ (c ∷ rest)))
      ∙ walk_loop-rendered n key value (render_all attrs ++ (c ∷ rest)) st a.0 a.1.0
      ∙ ap (λ k. f key value st >>= k)
          (fun_ext λ st'. walk_loop-render_all attrs n c rest st' a.1.1 e (omega arith))

  length-render_all : (attrs : List (Str × Str)) → length attrs ≤ length (render_all attrs)
  length-render_all [] = omega arith
  length-render_all ((key, value) ∷ attrs) = omega (
    arith,
    length-render_all attrs,
    length-append (key ++ (b'=' ∷ b'"' ∷ (value ++ (b'"' ∷ [])))) (render_all attrs),
  )

  -- For an element header as the encoder writes it, `walk_attrs` calls the closure with each key and
  -- value in order, and stops at the first error.
  pub walk_attrs-render_all :
      (name : Str) (attrs : List (Str × Str)) (c : ℕ) (rest : Str) (st : S)
      → IsName name
      → AllRendered attrs
      → (c == b'>' || c == b'/') ≡ true
      → walk_attrs f (b'<' ∷ (name ++ (render_all attrs ++ (c ∷ rest)))) st ≡ fold_attrs attrs st
  unfolding walk_attrs
  walk_attrs-render_all name attrs c rest st n a e =
      ap (λ s. walk_loop f (length (b'<' ∷ (name ++ (render_all attrs ++ (c ∷ rest))))) s st)
        (drop_header attrs a)
      ∙ (walk_loop-render_all attrs (length (b'<' ∷ (name ++ (render_all attrs ++ (c ∷ rest))))) c
          rest st a e
          (omega (
            arith,
            length-render_all attrs,
            length-append name (render_all attrs ++ (c ∷ rest)),
            length-append (render_all attrs) (c ∷ rest),
          )))
    where
      drop_header :
          (attrs : List (Str × Str))
          → AllRendered attrs
          → drop_while (λ b. not (is_name_break b)) (name ++ (render_all attrs ++ (c ∷ rest)))
            ≡ render_all attrs ++ (c ∷ rest)
      drop_header [] a = drop_name name c rest n (ground (arith, e))
      drop_header ((key, value) ∷ attrs) a = drop_name name b' ' _ n refl
