-- ===== src/Store/Channel.antt =====
-- What crates/tak-store uses of tokio: a bounded `mpsc` channel of rows. `MpscLaws` states the
-- documented behaviour that the proofs use.
pub mod Small
use tak_rs.Common.{
  ℕ, ◌+◌, ◌-◌, ◌≤◌, ◌<◌, Bool, true, false, not, ◌||◌, Option, none, some, List, [], ◌∷◌, ◌++◌,
  length, ltb, leb, is_empty, take, drop, if◌then◌else◌, ◌≡◌, refl, sym, arith, take-append-drop,
}

-- `try_send` tells `Ok` from an error. `recv_many` yields nothing while it waits. `drop_senders` is
-- the end of the last sender.
pub record Mpsc (Row : Type 0) : Type 1 where
  pub Chan : Type 0
  pub channel : ℕ → Chan
  pub try_send : Chan → Row → Bool × Chan
  pub recv_many : Chan → ℕ → Option (List Row × Chan)
  pub drop_senders : Chan → Chan

module _ {Row : Type 0} (mpsc : Mpsc Row) where
  open mpsc use {Chan, channel, try_send, recv_many, drop_senders}

  pub record MpscLaws : Type 0 where
    pub queued : Chan → List Row
    pub is_closed : Chan → Bool
    pub new-queued : (n : ℕ) → queued (channel n) ≡ []
    pub new-is_closed : (n : ℕ) → is_closed (channel n) ≡ false
    pub send-queued :
        (c : Chan) (row : Row)
        → queued (try_send c row).1
          ≡ (if (try_send c row).0 then queued c ++ (row ∷ []) else queued c)
    pub send-is_closed : (c : Chan) (row : Row) → is_closed (try_send c row).1 ≡ is_closed c
    -- a closed channel takes no row
    pub send-closed : (c : Chan) (row : Row) → is_closed c ≡ true → (try_send c row).0 ≡ false
    -- the rows in front of the queue, as many as the limit allows at most
    pub recv-queued :
        (c c' : Chan) (limit : ℕ) (rows : List Row)
        → recv_many c limit ≡ some (rows, c')
        → queued c ≡ rows ++ queued c'
    pub recv-limit :
        (c c' : Chan) (limit : ℕ) (rows : List Row)
        → 0 < limit
        → recv_many c limit ≡ some (rows, c')
        → length rows ≤ limit
    pub recv-is_closed :
        (c c' : Chan) (limit : ℕ) (rows : List Row)
        → recv_many c limit ≡ some (rows, c')
        → is_closed c' ≡ is_closed c
    -- no row means that the channel is closed and empty
    pub recv-none :
        (c c' : Chan) (limit : ℕ)
        → 0 < limit
        → recv_many c limit ≡ some ([], c')
        → (queued c ≡ []) × (is_closed c ≡ true)
    -- it does not wait on a closed channel
    pub recv-ready :
        (c : Chan) (limit : ℕ)
        → is_closed c ≡ true
        → (rows : List Row) × (c' : Chan) × (recv_many c limit ≡ some (rows, c'))
    pub drop_senders-queued : (c : Chan) → queued (drop_senders c) ≡ queued c
    pub drop_senders-is_closed : (c : Chan) → is_closed (drop_senders c) ≡ true
