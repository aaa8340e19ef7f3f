-- ===== src/Proto/Frame/Roundtrip.antt =====
-- What the codec relies on in its libraries, and what it then promises: a frame that was encoded is
-- decoded, whatever bytes follow it.
use alloyfs.Base.{
  ℕ, ◌^◌, ◌<◌, ◌≤◌, ◌≡◌, refl, ap, ◌∙◌, Bool, false, Option, none, some, ◌++◌, length,
  length-append, Option-cases, inl, inr, take-length-append, drop-length-append, arith,
}
use alloyfs.Proto.Messages.{Frame, Bytes}
use alloyfs.Proto.Frame.{
  Codecs, inflated, ok, max_frame_len, u32_from_le, u32_to_le, is_compressed, unwrap_inner, unwrap,
  decode, payload_of, put_frame, encode,
}

-- Documented behaviour of the two libraries: each reads back what it wrote, and the compressed
-- block begins with the size of its content.
pub record AreCodecs (lib : Codecs) : Type 0 where
  pub reads_back : (f : Frame) (b : Bytes) → lib.to_stdvec f ≡ some b → lib.from_bytes b ≡ some f
  pub inflates :
      (p : Bytes)
      → length p < 2 ^ 32
      → lib.decompress_size_prepended (lib.compress_prepend_size p) ≡ inflated p
  pub prepends_size :
      (p : Bytes) → length p < 2 ^ 32 → u32_from_le (lib.compress_prepend_size p) ≡ length p
  pub has_header : (p : Bytes) → 4 ≤ length (lib.compress_prepend_size p)

pub u32_from-to_le : (n : ℕ) (s : Bytes) → n < 2 ^ 32 → u32_from_le (u32_to_le n ++ s) ≡ n
u32_from-to_le n s h = omega arith

-- The bytes of one frame on the wire.
abbrev pub wire : Bytes → Bytes
wire payload = u32_to_le (length payload) ++ payload

module _ (lib : Codecs) where
  pub decode-wire :
      (payload rest : Bytes)
      → length payload ≤ max_frame_len
      → decode lib (wire payload ++ rest) ≡ (unwrap lib (lib.from_bytes payload), rest)
  unfolding decode
  decode-wire payload rest h = ground (
    arith,
    u32_from-to_le (length payload) (payload ++ rest),
    length-append payload rest,
    take-length-append payload rest,
    drop-length-append payload rest,
  )

  unwrap-plain : (f : Frame) → is_compressed f ≡ false → unwrap lib (some f) ≡ ok (some f)
  unfolding unwrap
  unwrap-plain (Frame.compressed b) h = cc
  unwrap-plain (Frame.ping n) h = refl
  unwrap-plain _ h = refl

  unwrap_inner-plain :
      (f : Frame) → is_compressed f ≡ false → unwrap_inner lib (some f) ≡ ok (some f)
  unfolding unwrap_inner
  unwrap_inner-plain (Frame.compressed b) h = cc
  unwrap_inner-plain (Frame.ping n) h = refl
  unwrap_inner-plain _ h = refl

module _ (lib : Codecs) (laws : AreCodecs lib) where
  unwrap-squeezed :
      (f : Frame) (p : Bytes)
      → is_compressed f ≡ false
      → lib.to_stdvec f ≡ some p
      → length p ≤ max_frame_len
      → unwrap lib (some (Frame.compressed (lib.compress_prepend_size p))) ≡ ok (some f)
  unfolding unwrap
  unwrap-squeezed f p plain e h = ground (
    arith,
    laws.prepends_size p,
    laws.inflates p,
    laws.reads_back f p e,
    unwrap_inner-plain lib f plain,
  )

  -- The payload that `encode` chose is within the limit, and decodes to the frame.
  abbrev Chosen : Frame → Bytes → Type 0
  Chosen f q = (length q ≤ max_frame_len) × (unwrap lib (lib.from_bytes q) ≡ ok (some f))

  put-wire :
      (o : Option Bytes) (dst buf : Bytes)
      → put_frame lib o dst ≡ ok buf
      → (q : Bytes) × (o ≡ some q) × (length q ≤ max_frame_len) × (buf ≡ dst ++ wire q)
  unfolding put_frame
  put-wire none dst buf h = cc
  put-wire (some q) dst buf h = (q, refl, ground arith, ground arith)

  payload-decodes :
      (compress : Bool) (f : Frame) (p q : Bytes)
      → is_compressed f ≡ false
      → lib.to_stdvec f ≡ some p
      → length p ≤ max_frame_len
      → payload_of lib compress f p ≡ some q
      → unwrap lib (lib.from_bytes q) ≡ ok (some f)
  unfolding payload_of
  payload-decodes compress f p q plain e h c = ground (
    arith,
    unwrap-squeezed f p plain e h,
    unwrap-plain lib f plain,
    laws.reads_back f p e,
    laws.reads_back (Frame.compressed (lib.compress_prepend_size p)) q,
  )

  -- Whatever the flag, a frame that is not a compressed one already and whose plain encoding is within
  -- the limit is decoded from the bytes
  -- that `encode` appended for it, whatever stands behind them, and exactly those bytes are used up.
  pub decode-encode :
      (compress : Bool) (f : Frame) (p dst buf : Bytes)
      → is_compressed f ≡ false
      → lib.to_stdvec f ≡ some p
      → length p ≤ max_frame_len
      → encode lib compress f dst ≡ ok buf
      → (sent : Bytes) × (buf ≡ dst ++ sent)
        × ((rest : Bytes) → decode lib (sent ++ rest) ≡ (ok (some f), rest))
  unfolding encode
  decode-encode compress f p dst buf plain e h c =
      let (q, chosen, fits, appended) =
        put-wire (payload_of lib compress f p) dst buf (rw (e, encode) at c) in
      (
        wire q,
        appended,
        λ rest.
            decode-wire lib q rest fits
            ∙ ap (λ r. (r, rest)) (payload-decodes compress f p q plain e h chosen),
      )

  chosen-fits :
      (compress : Bool) (f : Frame) (p q : Bytes)
      → length p ≤ max_frame_len
      → lib.to_stdvec (Frame.compressed (lib.compress_prepend_size p)) ≡ some q
      → length q ≤ max_frame_len
      → (r : Bytes) × (payload_of lib compress f p ≡ some r) × (length r ≤ max_frame_len)
  unfolding payload_of
  chosen-fits compress f p q h c k = elim (Option-cases (payload_of lib compress f p)) [
    | inl nothing ↦ ground arith
    | inr (r, there) ↦ (r, there, ground arith)
  ]

  -- Whatever the flag, a frame that is not itself the wrapper of a compressed one, which `decode`
  -- takes off, is sent, and decoded as it was from exactly the bytes that were sent, if its plain
  -- encoding is within the limit and so is that of its compressed form.
  pub encode_lem :
      (compress : Bool) (f : Frame) (p q dst : Bytes)
      → is_compressed f ≡ false
      → lib.to_stdvec f ≡ some p
      → length p ≤ max_frame_len
      → lib.to_stdvec (Frame.compressed (lib.compress_prepend_size p)) ≡ some q
      → length q ≤ max_frame_len
      → (sent : Bytes) × (encode lib compress f dst ≡ ok (dst ++ sent))
        × ((rest : Bytes) → decode lib (sent ++ rest) ≡ (ok (some f), rest))
  unfolding encode put_frame
  encode_lem compress f p q dst plain e h c k =
      let (r, chosen, fits) = chosen-fits compress f p q h c k in
      let decodes = payload-decodes compress f p r plain e h chosen in
      let sends : encode lib compress f dst ≡ ok (dst ++ wire r) = ground arith in
      (wire r, sends, λ rest. ground (arith, decode-wire lib r rest fits))
