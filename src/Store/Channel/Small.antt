-- ===== src/Store/Channel/Small.antt =====
-- A channel as a list with a capacity: a model of the interface in crates/tak-store's terms.
use tak_rs.Common.{
  ℕ, zero, suc, ◌-◌, ◌≤◌, ◌<◌, Bool, true, false, not, ◌&&◌, Option, none, some, List, [], ◌∷◌,
  ◌++◌, length, ltb, if◌then◌else◌, take, drop, take-append-drop, ◌≡◌, refl, sym, ap, arith,
}
use mathlib.Core.Path.{subst}
use tak_rs.Store.Channel.{Mpsc, MpscLaws}

pub record SmallChan (Row : Type 0) : Type 0 where
  pub queue : List Row
  pub capacity : ℕ
  pub closed : Bool

unfoldable pub has_room : {Row : Type 0} → SmallChan Row → Bool
has_room c = not c.closed && ltb (length c.queue) c.capacity

unfoldable pub send_if : {Row : Type 0} → Bool → Row → SmallChan Row → Bool × SmallChan Row
send_if true row c = (true, record c { queue = c.queue ++ (row ∷ []) })
send_if false row c = (false, c)

unfoldable pub receive_from :
    {Row : Type 0} → SmallChan Row → ℕ → List Row → Bool → Option (List Row × SmallChan Row)
receive_from c limit [] false = none
receive_from c limit [] true = some ([], c)
receive_from c limit (row ∷ queue) closed =
    some (row ∷ take (limit - 1) queue, record c { queue = drop (limit - 1) queue })

abbrev pub small_mpsc : {Row : Type 0} → Mpsc Row
small_mpsc {Row} = record {
  Chan = SmallChan Row;
  channel = λ n. record { queue = []; capacity = n; closed = false };
  try_send = λ c row. send_if (has_room c) row c;
  recv_many = λ c limit. receive_from c limit c.queue c.closed;
  drop_senders = λ c. record c { closed = true };
}

abbrev pub Received : {Row : Type 0} → ℕ → List Row → Bool → List Row × SmallChan Row → Type 0
Received limit queue closed (rows, c) =
    (queue ≡ rows ++ c.queue)
    × (0 < limit → length rows ≤ limit)
    × (c.closed ≡ closed)
    × (0 < limit → rows ≡ [] → (queue ≡ []) × (closed ≡ true))

take_le : {Row : Type 0} (n : ℕ) (xs : List Row) → length (take n xs) ≤ n
take_le zero xs = omega arith
take_le (suc n) [] = omega arith
take_le (suc n) (x ∷ xs) = omega (arith, take_le n xs)

pub Received-rows :
    {Row : Type 0} (c : SmallChan Row) (limit : ℕ) (queue : List Row) (closed : Bool)
    (r : List Row × SmallChan Row)
    → receive_from c limit queue closed ≡ some r
    → c.queue ≡ queue
    → c.closed ≡ closed
    → Received limit queue closed r
unfolding receive_from
Received-rows c limit [] false r h q k = absurd (cc (h))
Received-rows c limit [] true r h q k =
    subst (Received limit [] true) {x = ([], c)} {y = r} (cc (h))
      (sym q, (λ l. omega arith), k, λ l e. (refl, refl))
Received-rows c limit (row ∷ queue) closed r h q k =
    subst (Received limit (row ∷ queue) closed)
      {x = (row ∷ take (limit - 1) queue, record c { queue = drop (limit - 1) queue })} {y = r}
      (cc (h))
      (
        ap (λ t. row ∷ t) (sym (take-append-drop (limit - 1) queue)),
        (λ l. omega (arith, take_le (limit - 1) queue)),
        k,
        λ l e. absurd (cc (e)),
      )

unfoldable pub mpsc_laws : {Row : Type 0} → MpscLaws (small_mpsc {Row = Row})
unfolding has_room send_if receive_from
mpsc_laws {Row} = record {
  queued = λ c. c.queue;
  is_closed = λ c. c.closed;
  new-queued = λ n. refl;
  new-is_closed = λ n. refl;
  send-queued = λ c row. sent (has_room c) c row;
  send-is_closed = λ c row. same (has_room c) c row;
  send-closed = λ c row h. refused_by (has_room c) c row (ground (arith, h));
  recv-queued =
      λ c c' limit rows h. (Received-rows c limit c.queue c.closed (rows, c') h refl refl).0;
  recv-limit =
      λ c c' limit rows l h. (Received-rows c limit c.queue c.closed (rows, c') h refl refl).1 l;
  recv-is_closed =
      λ c c' limit rows h. (Received-rows c limit c.queue c.closed (rows, c') h refl refl).2;
  recv-none =
      λ c c' limit l h. (Received-rows c limit c.queue c.closed ([], c') h refl refl).3 l refl;
  recv-ready = λ c limit h. ready c limit c.queue c.closed h;
  drop_senders-queued = λ c. refl;
  drop_senders-is_closed = λ c. refl;
}
  where
    sent :
        (b : Bool) (c : SmallChan Row) (row : Row)
        → (send_if b row c).1.queue
          ≡ (if (send_if b row c).0 then c.queue ++ (row ∷ []) else c.queue)
    sent true c row = refl
    sent false c row = refl

    same : (b : Bool) (c : SmallChan Row) (row : Row) → (send_if b row c).1.closed ≡ c.closed
    same true c row = refl
    same false c row = refl

    refused_by :
        (b : Bool) (c : SmallChan Row) (row : Row) → b ≡ false → (send_if b row c).0 ≡ false
    refused_by true c row h = absurd (cc (h))
    refused_by false c row h = refl

    ready :
        (c : SmallChan Row) (limit : ℕ) (queue : List Row) (closed : Bool)
        → closed ≡ true
        → (rows : List Row) × (c' : SmallChan Row) × (receive_from c limit queue closed
            ≡ some (rows, c'))
    ready c limit [] true h = ([], c, refl)
    ready c limit [] false h = absurd (cc (h))
    ready c limit (row ∷ queue) closed h = (_, _, refl)
