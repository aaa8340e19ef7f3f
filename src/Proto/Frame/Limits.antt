-- ===== src/Proto/Frame/Limits.antt =====
-- The edges of the codec: bytes that are no whole frame yet, and frames over the limit.
use alloyfs.Base.{
  ◌^◌, ◌<◌, ◌≤◌, ◌≡◌, refl, ap, true, false, some, none, [], ◌∷◌, ◌++◌, ◌≢◌, length, length-append,
  arith,
}
use alloyfs.Proto.Errors.{frame_too_large}
use alloyfs.Proto.Messages.{Frame, Bytes}
use alloyfs.Proto.Frame.{
  Codecs, ok, err, max_frame_len, u32_from_le, is_compressed, unwrap, decode, payload_of, put_frame,
  encode,
}
use alloyfs.Proto.Frame.Roundtrip.{AreCodecs, wire, u32_from-to_le, decode-wire}

u32_from_le-append :
    (src more : Bytes) → 4 ≤ length src → u32_from_le (src ++ more) ≡ u32_from_le src
u32_from_le-append [] more h = absurd (omega arith)
u32_from_le-append (a ∷ []) more h = absurd (omega arith)
u32_from_le-append (a ∷ b ∷ []) more h = absurd (omega arith)
u32_from_le-append (a ∷ b ∷ c ∷ []) more h = absurd (omega arith)
u32_from_le-append (a ∷ b ∷ c ∷ d ∷ src) more h = refl

length-ne-nil : (more : Bytes) → more ≢ [] → 0 < length more
length-ne-nil [] h = absurd (h refl)
length-ne-nil (x ∷ more) h = omega arith

-- While bytes of a frame within the limit are missing, `decode` waits and consumes nothing.
pub decode-partial :
    (lib : Codecs) (payload src more : Bytes)
    → length payload ≤ max_frame_len
    → src ++ more ≡ wire payload
    → more ≢ []
    → decode lib src ≡ (ok none, src)
unfolding decode
decode-partial lib payload src more fits e h = ground (
  arith,
  u32_from_le-append src more,
  u32_from-to_le (length payload) payload,
  ap length e,
  ap u32_from_le e,
  length-append src more,
  length-ne-nil more h,
)

-- A plain payload over the limit that compression brings under it is sent, and the receiver then
-- refuses it with the size of the plain payload: the two ends bound different sizes.
pub encode-oversize_refused :
    (lib : Codecs) (laws : AreCodecs lib) (f : Frame) (p q dst rest : Bytes)
    → is_compressed f ≡ false
    → lib.to_stdvec f ≡ some p
    → max_frame_len < length p
    → length p < 2 ^ 32
    → length (lib.compress_prepend_size p) < length p
    → lib.to_stdvec (Frame.compressed (lib.compress_prepend_size p)) ≡ some q
    → length q ≤ max_frame_len
    → (encode lib true f dst ≡ ok (dst ++ wire q))
      × (decode lib (wire q ++ rest) ≡ (err (frame_too_large (length p)), rest))
encode-oversize_refused lib laws f p q dst rest plain e over word smaller eq fits = (
  unfold encode payload_of put_frame in ground arith,
  unfold unwrap in
      ground (
        arith,
        decode-wire lib q rest fits,
        laws.reads_back (Frame.compressed (lib.compress_prepend_size p)) q eq,
        laws.prepends_size p word,
        laws.has_header p,
      ),
)
