-- ===== src/Bus/Identity.antt =====
-- `SubscriptionId` of crates/tak-bus/src/lib.rs.
use tak_rs.Common.{ℕ, ◌==◌, Bool, ◌&&◌, ◌≡◌, ◌↔◌, true, Eq, arith}

pub record SubscriptionId : Type 0 where
  pub slab_key : ℕ
  pub generation : ℕ

-- The derived `PartialEq`.
abbrev pub id_eqb : SubscriptionId → SubscriptionId → Bool
id_eqb a b = (a.slab_key == b.slab_key) && (a.generation == b.generation)

pub id_eqb_iff : (a b : SubscriptionId) → (id_eqb a b ≡ true) ↔ (a ≡ b)
id_eqb_iff a b = ground arith

instance abbrev pub id_eq : Eq SubscriptionId
id_eq = record { eqb = id_eqb; eqb_iff = id_eqb_iff }
