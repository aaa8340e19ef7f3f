-- ===== src/Transport/Handshake/Laws.antt =====
-- Both sides of a handshake come to the same version.
use alloyfs.Base.{ℕ, ◌≡◌, ◌≤◌, inl, inr, refl, min, max, arith, ltb, Bool-cases}
use alloyfs.Base.Text.{Text}
use alloyfs.Proto.Messages.{Frame, proto_version_min, proto_version_max}
use alloyfs.Transport.Handshake.{agreed, refused, answer_hello, read_ack}

-- A version that both ranges allow and that reaches the least version the server takes.
pub record IsCommon (lo hi min_proto p : ℕ) : Type 0 where
  pub from_client : (lo ≤ p) × (p ≤ hi)
  pub from_server : (proto_version_min ≤ p) × (p ≤ proto_version_max)
  pub reaches : min_proto ≤ p

-- The server refuses a client only if no version is common; else it agrees on the greatest common
-- one. The client, reading the answer, comes to the outcome of the server.
pub answer_hello_lem :
    (min_proto lo hi : ℕ) (server client : Text)
    → let (frame, outcome) = answer_hello min_proto server (Frame.hello lo hi client) in
      ((outcome ≡ refused) → (p : ℕ) → IsCommon lo hi min_proto p → ⊥)
      × ((p : ℕ)
          → outcome ≡ agreed p
          → IsCommon lo hi min_proto p × ((q : ℕ) → IsCommon lo hi min_proto q → q ≤ p))
      × (read_ack frame ≡ outcome)
unfolding answer_hello read_ack
answer_hello_lem min_proto lo hi server client =
    elim (Bool-cases (ltb (min hi proto_version_max) (max (max lo proto_version_min) min_proto))) [
      | inl e ↦ rw e (
        λ r p c. ground (arith, c.from_client, c.from_server, c.reaches),
        λ p a. ground (arith),
        refl,
      )
      | inr e ↦ rw e (
        λ r. ground arith,
        λ p a. (
          record { from_client = ground arith; from_server = ground arith; reaches = ground arith },
          λ q c. ground (arith, c.from_client, c.from_server),
        ),
        ground arith,
      )
    ]
