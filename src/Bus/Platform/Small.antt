-- ===== src/Bus/Platform/Small.antt =====
-- A platform to run the model on: the slab is a list of slots whose first free one is taken, a
-- channel is its queue, the tree is a list, and a float is a natural number.
use tak_rs.Common.{
  ℕ, zero, suc, Bool, true, false, Option, none, some, List, [], ◌∷◌, ◌++◌, ltb, leb, ◌==◌,
  if◌then◌else◌, length, ◌≡◌, refl, arith,
}
use mathlib.Core.Option
use tak_rs.Bus.Platform.{Platform, SlabLaws, ChannelLaws, Sent, sent, full, closed, is_some}

pub record SmallChannel : Type 0 where
  pub shut : Bool
  pub capacity : ℕ
  pub queued : List (List ℕ)

abbrev pub small_send : SmallChannel → List ℕ → Sent × SmallChannel
small_send s b =
    if s.shut
    then (closed, s)
    else if ltb (length s.queued) s.capacity
    then (sent, record s { queued = s.queued ++ (b ∷ []) })
    else (full, s)

abbrev small_take : SmallChannel → List (List ℕ) → Option (List ℕ) × SmallChannel
small_take s [] = (none, record s { queued = [] })
small_take s (b ∷ bs) = (some b, record s { queued = bs })

abbrev pub small_recv : SmallChannel → Option (List ℕ) × SmallChannel
small_recv s = small_take s s.queued

abbrev slot : {E : Type 0} → List (Option E) → ℕ → Option E
slot [] i = none
slot (x ∷ s) zero = x
slot (x ∷ s) (suc i) = slot s i

abbrev put_first : {E : Type 0} → E → List (Option E) → ℕ × List (Option E)
put_first e [] = (0, some e ∷ [])
put_first e (none ∷ s) = (0, some e ∷ s)
put_first e (some x ∷ s) = let (k, s') = put_first e s in (suc k, some x ∷ s')

abbrev clear : {E : Type 0} → ℕ → List (Option E) → List (Option E)
clear i [] = []
clear zero (x ∷ s) = none ∷ s
clear (suc i) (x ∷ s) = x ∷ clear i s

abbrev change : {E : Type 0} → ℕ → (E → E) → List (Option E) → List (Option E)
change i f [] = []
change zero f (x ∷ s) = Option.map f x ∷ s
change (suc i) f (x ∷ s) = x ∷ change i f s

abbrev pub small : Platform
small = record {
  Float = ℕ;
  le_float = leb;
  Bytes = List ℕ;
  Sender = SmallChannel;
  channel = λ n. record { shut = false; capacity = n; queued = [] };
  try_send = small_send;
  try_recv = small_recv;
  close = λ s. record s { shut = true };
  Slab = λ E. List (Option E);
  slab_new = λ E. [];
  slab_insert = λ E e s. some (put_first e s);
  slab_get = λ E. slot;
  slab_remove = λ E k s. (is_some (slot s k), clear k s);
  slab_update = λ E. change;
  Tree = λ E. List E;
  tree_new = λ E. [];
  tree_insert = λ E e t. t ++ (e ∷ []);
  tree_remove = λ E e t. t;
  tree_size = λ E. length;
  tree_locate = λ E point t. t;
}

slot-put_first :
    {E : Type 0} (e : E) (s : List (Option E)) (j : ℕ)
    → (slot s (put_first e s).0 ≡ none)
      × (slot (put_first e s).1 j ≡ (if (put_first e s).0 == j then some e else slot s j))
slot-put_first e [] zero = (refl, refl)
slot-put_first e [] (suc j) = (refl, ground arith)
slot-put_first e (none ∷ s) zero = (refl, refl)
slot-put_first e (none ∷ s) (suc j) = (refl, ground arith)
slot-put_first e (some x ∷ s) zero = ((slot-put_first e s 0).0, ground arith)
slot-put_first e (some x ∷ s) (suc j) =
    ((slot-put_first e s j).0, ground (arith, slot-put_first e s j))

slot-clear :
    {E : Type 0} (k j : ℕ) (s : List (Option E))
    → slot (clear k s) j ≡ (if k == j then none else slot s j)
slot-clear k j [] = ground arith
slot-clear zero zero (x ∷ s) = refl
slot-clear zero (suc j) (x ∷ s) = ground arith
slot-clear (suc k) zero (x ∷ s) = ground arith
slot-clear (suc k) (suc j) (x ∷ s) = ground (arith, slot-clear k j s)

slot-change :
    {E : Type 0} (k j : ℕ) (f : E → E) (s : List (Option E))
    → slot (change k f s) j ≡ (if k == j then Option.map f (slot s j) else slot s j)
slot-change k j f [] = ground arith
slot-change zero zero f (x ∷ s) = refl
slot-change zero (suc j) f (x ∷ s) = ground arith
slot-change (suc k) zero f (x ∷ s) = ground arith
slot-change (suc k) (suc j) f (x ∷ s) = ground (arith, slot-change k j f s)

pub small_laws : SlabLaws small
small_laws = record {
  get-new = λ E j. refl;
  insert-free = λ E e s k s' h. ground (arith, h, slot-put_first e s 0);
  get-insert = λ E e s k j s' h. ground (arith, h, slot-put_first e s j);
  remove-result = λ E k s. refl;
  get-remove = λ E k j s. slot-clear k j s;
  get-update = λ E k j f s. slot-change k j f s;
}

pub small_send-lem :
    (s : SmallChannel) (b : List ℕ)
    → ((small_send s b).0
        ≡ (if s.shut then closed else if ltb (length s.queued) s.capacity then sent else full))
      × ((small_send s b).1.queued ≡ (
          if s.shut
          then s.queued
          else if ltb (length s.queued) s.capacity
          then s.queued ++ (b ∷ [])
          else s.queued))
      × ((small_send s b).1.capacity ≡ s.capacity)
      × ((small_send s b).1.shut ≡ s.shut)
small_send-lem s b = ground arith

pub small_take-lem :
    (s : SmallChannel) (q : List (List ℕ))
    → ((small_take s q).0 ≡ elim q [ [] ↦ none | ◌∷◌ b bs ↦ some b ])
      × ((small_take s q).1.queued ≡ elim q [ [] ↦ [] | ◌∷◌ b bs ↦ bs ])
      × ((small_take s q).1.capacity ≡ s.capacity)
      × ((small_take s q).1.shut ≡ s.shut)
small_take-lem s [] = (refl, refl, refl, refl)
small_take-lem s (b ∷ bs) = (refl, refl, refl, refl)

abbrev pub small_channel_laws : ChannelLaws small
small_channel_laws = record {
  queued = λ s. s.queued;
  capacity = λ s. s.capacity;
  is_closed = λ s. s.shut;
  new-queued = λ n. refl;
  new-capacity = λ n. refl;
  new-open = λ n. refl;
  send-result = λ s b. (small_send-lem s b).0;
  send-queued = λ s b. (small_send-lem s b).1;
  send-capacity = λ s b. (small_send-lem s b).2;
  send-is_closed = λ s b. (small_send-lem s b).3;
  recv-result = λ s. (small_take-lem s s.queued).0;
  recv-queued = λ s. (small_take-lem s s.queued).1;
  recv-capacity = λ s. (small_take-lem s s.queued).2;
  recv-is_closed = λ s. (small_take-lem s s.queued).3;
  close-is_closed = λ s. refl;
  close-capacity = λ s. refl;
}
