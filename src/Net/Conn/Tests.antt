-- ===== src/Net/Conn/Tests.antt =====
-- Three accepts, and the types along a life, for crates/tak-net/src/conn.rs.
use tak_rs.Common.{ℕ, [], ◌∷◌, ◌≡◌, refl}
use tak_rs.Net.Conn.{ConnectionState, handshaking, promote_to_authed, start_streaming}

abbrev fresh : ConnectionState ℕ ℕ handshaking
fresh = record { id = 1; peer_addr = 80; state = tt }

certificates_kept : (start_streaming ℕ ℕ (promote_to_authed ℕ ℕ fresh (7 ∷ []))).state ≡ 7 ∷ []
unfolding start_streaming promote_to_authed
certificates_kept = refl
