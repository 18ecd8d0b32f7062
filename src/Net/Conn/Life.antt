-- ===== src/Net/Conn/Life.antt =====
-- The identifiers of the connections of crates/tak-net/src/conn.rs.
use tak_rs.Common.{ℕ, ◌<◌, List, [], ◌∷◌, All}
use tak_rs.Net.Conn.{handshaking, ConnectionState, accept}

module _ (Certificate SocketAddr : Type 0) where
  -- The connections of a listener, and the counter behind them.
  unfoldable pub accept_all :
      List SocketAddr → ℕ → List (ConnectionState Certificate SocketAddr handshaking) × ℕ
  unfolding accept
  accept_all [] counter = ([], counter)
  accept_all (addr ∷ addrs) counter =
      let (conn, counter') = accept Certificate SocketAddr addr counter in
      let (conns, last) = accept_all addrs counter' in (conn ∷ conns, last)

  -- Each identifier is different from all later ones.
  abbrev pub Distinct : List (ConnectionState Certificate SocketAddr handshaking) → Type 0
  Distinct [] = Unit {0}
  Distinct (c ∷ cs) =
      All (λ (d : ConnectionState Certificate SocketAddr handshaking). c.id < d.id) cs × Distinct cs
