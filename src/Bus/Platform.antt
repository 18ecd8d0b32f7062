-- ===== src/Bus/Platform.antt =====
-- What crates/tak-bus uses and does not implement: `f64`, `bytes::Bytes`, tokio's bounded `mpsc`,
-- `sharded_slab::Slab` and `rstar::RTree`. `SlabLaws` and `ChannelLaws` state the documented
-- behaviour that the proofs use.
pub mod Small
use tak_rs.Common.{
  ℕ, ◌<◌, ◌≤◌, Bool, true, false, not, Option, none, some, List, [], ◌∷◌, ◌++◌, ltb, ◌==◌,
  if◌then◌else◌, length, ◌≡◌, inl, inr, ◌⊎◌, refl,
}
use mathlib.Core.Option

-- The outcome of `try_send`: `Ok(())`, `Err(Full(_))`, `Err(Closed(_))`.
pub data Sent : Type 0 where
  sent full closed : Sent

pub Sent-cases : (s : Sent) → (s ≡ sent) ⊎ ((s ≡ full) ⊎ (s ≡ closed))
Sent-cases sent = inl refl
Sent-cases full = inr (inl refl)
Sent-cases closed = inr (inr refl)

pub record Platform : Type 1 where
  -- f64, with `<=`
  pub Float : Type 0
  pub le_float : Float → Float → Bool
  pub Bytes : Type 0
  -- a bounded channel, seen through its sender; an entry mutates it through a shared reference
  pub Sender : Type 0
  pub channel : ℕ → Sender
  pub try_send : Sender → Bytes → Sent × Sender
  -- the other side: `try_recv`, with `none` for an error, and the drop of the receiver
  pub try_recv : Sender → Option Bytes × Sender
  pub close : Sender → Sender
  -- the slab; `slab_update` is a mutation of an entry's own cells through `get`
  pub Slab : Type 0 → Type 0
  pub slab_new : (E : Type 0) → Slab E
  pub slab_insert : (E : Type 0) → E → Slab E → Option (ℕ × Slab E)
  pub slab_get : (E : Type 0) → Slab E → ℕ → Option E
  pub slab_remove : (E : Type 0) → ℕ → Slab E → Bool × Slab E
  pub slab_update : (E : Type 0) → ℕ → (E → E) → Slab E → Slab E
  -- the R-tree over entries with an envelope, given by its corners (x, y)
  pub Tree : Type 0 → Type 0
  pub tree_new : (E : Type 0) → Tree E
  pub tree_insert : (E : Type 0) → E → Tree E → Tree E
  pub tree_remove : (E : Type 0) → E → Tree E → Tree E
  pub tree_size : (E : Type 0) → Tree E → ℕ
  pub tree_locate : (E : Type 0) → Float × Float → Tree E → List E

abbrev pub is_some {ℓ} : {A : Type ℓ} → Option A → Bool
is_some none = false
is_some (some a) = true

module _ (p : Platform) where
  open p use {
    Slab, slab_new, slab_insert, slab_get, slab_remove, slab_update, Bytes, Sender, channel,
    try_send, try_recv, close,
  }

  -- The slab is a map from keys to entries.
  pub record SlabLaws : Type 1 where
    pub get-new : (E : Type 0) (j : ℕ) → slab_get E (slab_new E) j ≡ none
    -- an insertion takes a key that is free
    pub insert-free :
        (E : Type 0) (e : E) (s : Slab E) (k : ℕ) (s' : Slab E)
        → slab_insert E e s ≡ some (k, s')
        → slab_get E s k ≡ none
    pub get-insert :
        (E : Type 0) (e : E) (s : Slab E) (k j : ℕ) (s' : Slab E)
        → slab_insert E e s ≡ some (k, s')
        → slab_get E s' j ≡ (if k == j then some e else slab_get E s j)
    pub remove-result :
        (E : Type 0) (k : ℕ) (s : Slab E) → (slab_remove E k s).0 ≡ is_some (slab_get E s k)
    pub get-remove :
        (E : Type 0) (k j : ℕ) (s : Slab E)
        → slab_get E (slab_remove E k s).1 j ≡ (if k == j then none else slab_get E s j)
    pub get-update :
        (E : Type 0) (k j : ℕ) (f : E → E) (s : Slab E)
        → slab_get E (slab_update E k f s) j
          ≡ (if k == j then Option.map f (slab_get E s j) else slab_get E s j)

  -- A bounded channel is a queue with a capacity, which its receiver may have closed.
  pub record ChannelLaws : Type 0 where
    pub queued : Sender → List Bytes
    pub capacity : Sender → ℕ
    pub is_closed : Sender → Bool
    pub new-queued : (n : ℕ) → queued (channel n) ≡ []
    pub new-capacity : (n : ℕ) → capacity (channel n) ≡ n
    pub new-open : (n : ℕ) → is_closed (channel n) ≡ false
    pub send-result :
        (s : Sender) (b : Bytes)
        → (try_send s b).0 ≡ (
            if is_closed s
            then closed
            else if ltb (length (queued s)) (capacity s)
            then sent
            else full)
    pub send-queued :
        (s : Sender) (b : Bytes)
        → queued (try_send s b).1 ≡ (
            if is_closed s
            then queued s
            else if ltb (length (queued s)) (capacity s)
            then queued s ++ (b ∷ [])
            else queued s)
    pub send-capacity : (s : Sender) (b : Bytes) → capacity (try_send s b).1 ≡ capacity s
    pub send-is_closed : (s : Sender) (b : Bytes) → is_closed (try_send s b).1 ≡ is_closed s
    pub recv-result :
        (s : Sender) → (try_recv s).0 ≡ elim (queued s) [ [] ↦ none | ◌∷◌ b bs ↦ some b ]
    pub recv-queued :
        (s : Sender) → queued (try_recv s).1 ≡ elim (queued s) [ [] ↦ [] | ◌∷◌ b bs ↦ bs ]
    pub recv-capacity : (s : Sender) → capacity (try_recv s).1 ≡ capacity s
    pub recv-is_closed : (s : Sender) → is_closed (try_recv s).1 ≡ is_closed s
    pub close-is_closed : (s : Sender) → is_closed (close s) ≡ true
    pub close-capacity : (s : Sender) → capacity (close s) ≡ capacity s
