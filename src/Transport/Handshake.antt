-- ===== src/Transport/Handshake.antt =====
-- The choice of a protocol version: `serve_connection_with` of crates/alloyfs-transport/src/server.rs
-- and `MuxConnection::establish` of mux.rs.
pub mod Laws
mod Tests
use alloyfs.Base.{ℕ, Bool, true, false, ◌&&◌, Option, none, some, min, max, leb, ltb, if◌then◌else◌}
use alloyfs.Base.Text.{Text}
use alloyfs.Proto.Errors.{Result, ok, err, version_mismatch}
use alloyfs.Proto.Messages.{Frame, proto_version_min, proto_version_max}

-- How a handshake ends: with the version, or not at all.
pub data Outcome : Type 0 where
  agreed : (proto : ℕ) → Outcome
  refused : Outcome

-- The server's answer to the first frame, with the outcome on its side.
pub answer_hello : (min_proto : ℕ) → (server_name : Text) → Frame → Option Frame × Outcome
answer_hello min_proto server_name (Frame.hello proto_min proto_max client) =
    let lo = max (max proto_min proto_version_min) min_proto in
    let hi = min proto_max proto_version_max in
    if ltb hi lo
    then (some (Frame.response 0 (err version_mismatch)), refused)
    else (some (Frame.hello_ack hi server_name), agreed hi)
answer_hello min_proto server_name frame = (none, refused)

pub client_hello : Text → Frame
client_hello name = Frame.hello proto_version_min proto_version_max name

-- What the client makes of the answer.
pub read_ack : Option Frame → Outcome
read_ack (some (Frame.hello_ack proto server)) =
    if leb proto_version_min proto && leb proto proto_version_max then agreed proto else refused
read_ack frame = refused

-- Large frames may be compressed.
pub compresses : ℕ → Bool
compresses proto = leb 3 proto
