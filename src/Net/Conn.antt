-- ===== src/Net/Conn.antt =====
-- crates/tak-net/src/conn.rs: the identifiers of connections, and their life as a type of three
-- states. A certificate, its parser and a socket address are arguments.
pub mod Life
mod Tests
use tak_rs.Common.{ℕ, ◌+◌, ◌%◌, ◌^◌, Option, none, some, List, [], ◌∷◌, Str, ◌⊎◌, inl, inr}

-- The process-wide counter, and `ConnectionId::next`.
abbrev pub first_connection_id : ℕ
first_connection_id = 1

unfoldable pub next : ℕ → ℕ × ℕ
next counter = (counter, (counter + 1) % 2 ^ 64)

-- `Handshaking`, `Authed` and `Streaming`.
pub data Phase : Type 0 where
  handshaking authed streaming : Phase

pub data PeerCertError : Type 0 where
  empty_chain : PeerCertError
  parse : Str → PeerCertError

module _ (Certificate SocketAddr : Type 0) where
  -- What the marker of a state holds.
  abbrev pub StateOf : Phase → Type 0
  StateOf handshaking = Unit {0}
  StateOf authed = List Certificate
  StateOf streaming = List Certificate

  pub record ConnectionState (s : Phase) : Type 0 where
    pub id : ℕ
    pub peer_addr : SocketAddr
    pub state : StateOf s

  -- `ConnectionState::new` and the counter after it.
  unfoldable pub accept : SocketAddr → ℕ → ConnectionState handshaking × ℕ
  unfolding next
  accept peer_addr counter =
      let (id, counter') = next counter in
      (record { id = id; peer_addr = peer_addr; state = tt }, counter')

  unfoldable pub promote_to_authed :
      ConnectionState handshaking → List Certificate → ConnectionState authed
  promote_to_authed conn peer_certs = record {
    id = conn.id;
    peer_addr = conn.peer_addr;
    state = peer_certs;
  }

  unfoldable pub start_streaming : ConnectionState authed → ConnectionState streaming
  start_streaming conn = record { id = conn.id; peer_addr = conn.peer_addr; state = conn.state }

  -- The subject of the leaf certificate. `parse_x509` is the X.509 parser, with the text of its error.
  unfoldable pub peer_subject :
      {Name A : Type 0}
      → (Certificate → Str ⊎ Name)
      → List Certificate
      → (Name → PeerCertError ⊎ A)
      → PeerCertError ⊎ A
  peer_subject parse_x509 [] f = inl empty_chain
  peer_subject parse_x509 (leaf ∷ chain) f = elim (parse_x509 leaf) [
    | inl e ↦ inl (parse e)
    | inr name ↦ f name
  ]

  unfoldable pub peer_dn :
      {Name : Type 0}
      → (Certificate → Str ⊎ Name)
      → (Name → Str)
      → List Certificate
      → PeerCertError ⊎ Str
  unfolding peer_subject
  peer_dn parse_x509 to_string chain = peer_subject parse_x509 chain λ s. inr (to_string s)

  -- The units whose text can be read, in the order of the subject.
  abbrev pub readable : List (Option Str) → List Str
  readable [] = []
  readable (none ∷ units) = readable units
  readable (some ou ∷ units) = ou ∷ readable units

  unfoldable pub peer_ous :
      {Name : Type 0}
      → (Certificate → Str ⊎ Name)
      → (Name → List (Option Str))
      → List Certificate
      → PeerCertError ⊎ List Str
  unfolding peer_subject
  peer_ous parse_x509 organizational_units chain =
      peer_subject parse_x509 chain λ s. inr (readable (organizational_units s))
