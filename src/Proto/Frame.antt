-- ===== src/Proto/Frame.antt =====
-- crates/alloyfs-proto/src/frame.rs: the length-prefixed codec. `postcard` and `lz4_flex` are
-- parameters; a buffer is the list of the bytes that have arrived and are not yet consumed.
pub mod Roundtrip
pub mod Limits
mod Tests
use alloyfs.Base.{
  ℕ, zero, suc, ◌+◌, ◌*◌, ◌/◌, ◌%◌, ◌<◌, ◌≤◌, ◌≡◌, Bool, true, false, not, ◌&&◌, Option, none, some,
  List, [], ◌∷◌, ◌++◌, length, take, drop, ltb, leb, if◌then◌else◌, All,
}
use alloyfs.Base.Text.{Text, chars}
use alloyfs.Proto.Errors.{ProtoError, frame_too_large, malformed, compression}
use alloyfs.Proto.Messages.{Frame, Bytes}

abbrev pub max_frame_len : ℕ
max_frame_len = 1024 * 1024

abbrev pub compress_min : ℕ
compress_min = 512

abbrev pub len_prefix : ℕ
len_prefix = 4

pub data Outcome {ℓ} (A : Type ℓ) : Type ℓ where
  ok : A → Outcome A
  err : ProtoError → Outcome A

-- `u32::from_le_bytes` of the first four bytes, and `put_u32_le`.
abbrev pub u32_from_le : Bytes → ℕ
u32_from_le (a ∷ b ∷ c ∷ d ∷ rest) = a + 256 * (b + 256 * (c + 256 * d))
u32_from_le _ = 0

abbrev pub u32_to_le : ℕ → Bytes
u32_to_le n = n % 256 ∷ n / 256 % 256 ∷ n / 65536 % 256 ∷ n / 16777216 % 256 ∷ []

-- The outcome of a decompression; a failure has the error's text.
pub data Inflated : Type 0 where
  inflated : Bytes → Inflated
  broken : Text → Inflated

-- What the codec uses of its two libraries.
pub record Codecs : Type 0 where
  pub to_stdvec : Frame → Option Bytes
  pub from_bytes : Bytes → Option Frame
  pub compress_prepend_size : Bytes → Bytes
  pub decompress_size_prepended : Bytes → Inflated

abbrev is_compressed : Frame → Bool
is_compressed (Frame.compressed b) = true
is_compressed _ = false

module _ (lib : Codecs) where
  -- The inner frame of a compressed one: the guard on the claimed size, then the two libraries.
  unwrap_inner : Option Frame → Outcome (Option Frame)
  unwrap_inner none = err malformed
  unwrap_inner (some (Frame.compressed b)) = err (compression (chars "nested Compressed frame"))
  unwrap_inner (some frame) = ok (some frame)

  unwrap_inflated : Inflated → Outcome (Option Frame)
  unfolding unwrap_inner
  unwrap_inflated (broken e) = err (compression e)
  unwrap_inflated (inflated inner) = unwrap_inner (lib.from_bytes inner)

  pub unwrap : Option Frame → Outcome (Option Frame)
  unfolding unwrap_inflated
  unwrap none = err malformed
  unwrap (some (Frame.compressed b)) =
      if leb 4 (length b) && ltb max_frame_len (u32_from_le b)
      then err (frame_too_large (u32_from_le b))
      else unwrap_inflated (lib.decompress_size_prepended b)
  unwrap (some frame) = ok (some frame)

  -- `FrameCodec::decode`: the outcome, and the buffer that it leaves.
  pub decode : Bytes → Outcome (Option Frame) × Bytes
  unfolding unwrap
  decode src =
      let len = u32_from_le src in
      if ltb (length src) len_prefix
      then (ok none, src)
      else if ltb max_frame_len len
      then (err (frame_too_large len), src)
      else if ltb (length src) (len_prefix + len)
      then (ok none, src)
      else (
        unwrap (lib.from_bytes (take len (drop len_prefix src))),
        drop len (drop len_prefix src),
      )

  -- The payload of a frame: compressed when that was negotiated and makes it smaller.
  payload_of : Bool → Frame → Bytes → Option Bytes
  payload_of compress frame payload =
      let squeezed = lib.compress_prepend_size payload in
      if compress && leb compress_min (length payload) && not (is_compressed frame)
      then (if ltb (length squeezed) (length payload)
          then lib.to_stdvec (Frame.compressed squeezed)
          else some payload)
      else some payload

  put_frame : Option Bytes → Bytes → Outcome Bytes
  put_frame none dst = err malformed
  put_frame (some payload) dst =
      if ltb max_frame_len (length payload)
      then err (frame_too_large (length payload))
      else ok (dst ++ (u32_to_le (length payload) ++ payload))

  -- `FrameCodec::encode` of a codec with the flag `compress`: the buffer with the frame behind.
  pub encode : Bool → Frame → Bytes → Outcome Bytes
  unfolding payload_of put_frame
  encode compress frame dst = elim (lib.to_stdvec frame) [
    | none ↦ err malformed
    | some payload ↦ put_frame (payload_of compress frame payload) dst
  ]
