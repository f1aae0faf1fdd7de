-- ===== src/Wire/Frame.antt =====
-- The TAP_FRAME payload of src/common/wire.c: network id, length, Ethernet frame. `frame` is a list
-- of `frame_len` bytes.
use ntap_a.Base.{
  ℕ, ◌+◌, ◌≤◌, ◌≡◌, ◌∷◌, ◌++◌, ◌||◌, Option, none, some, ◌!=◌, ltb, arith, length, drop, All,
  if◌then◌else◌,
}
use ntap_a.Base.Words.{
  Bytes, IsByte, IsU16, IsU32, put_be16, put_be32, get_be16, get_be32, get_be16-put_be16,
  get_be32-put_be32,
}

abbrev pub overhead : ℕ
overhead = 6

-- destination, source and EtherType
abbrev pub frame_min : ℕ
frame_min = 14

-- `ntap_tap_frame_t`; `frame` points into the payload.
pub record TapFrame : Type 0 where
  pub network_id : ℕ
  pub frame_len : ℕ
  pub frame : Bytes

unfoldable pub encode_tap_frame : ℕ → ℕ → Bytes → Option Bytes
encode_tap_frame cap network_id frame =
    if ltb (length frame) frame_min || ltb cap (overhead + length frame)
    then none
    else some (put_be32 network_id ++ (put_be16 (length frame) ++ frame))

unfoldable pub decode_tap_frame : Bytes → Option TapFrame
decode_tap_frame payload =
    if ltb (length payload) overhead
    then none
    else (let frame_len = get_be16 (drop 4 payload) in
        if ltb frame_len frame_min || (length payload != overhead + frame_len)
        then none
        else some (record {
          network_id = get_be32 payload;
          frame_len = frame_len;
          frame = drop overhead payload;
        }))

-- A frame that is encoded is read back with its network.
pub decode_tap_frame-encode_tap_frame :
    (cap network_id : ℕ) (frame bs : Bytes)
    → IsU32 network_id
    → IsU16 (length frame)
    → encode_tap_frame cap network_id frame ≡ some bs
    → decode_tap_frame bs
      ≡ some (record { network_id = network_id; frame_len = length frame; frame = frame })
unfolding encode_tap_frame decode_tap_frame
decode_tap_frame-encode_tap_frame cap network_id frame bs n l e = ground (
  arith,
  get_be32-put_be32 network_id (put_be16 (length frame) ++ frame),
  get_be16-put_be16 (length frame) frame,
)

-- The bytes of an accepted TAP_FRAME are those that its fields encode to, and the frame has at
-- least an Ethernet header.
pub encode_tap_frame-decode_tap_frame :
    (payload : Bytes) (m : TapFrame)
    → All IsByte payload
    → decode_tap_frame payload ≡ some m
    → (frame_min ≤ m.frame_len)
      × (length m.frame ≡ m.frame_len)
      × (encode_tap_frame (length payload) m.network_id m.frame ≡ some payload)
unfolding encode_tap_frame decode_tap_frame get_be32 get_be16
encode_tap_frame-decode_tap_frame (a ∷ b ∷ c ∷ d ∷ e ∷ f ∷ frame) m r h = ground arith
encode_tap_frame-decode_tap_frame _ m r h = ground arith
