-- ===== src/Wire.antt =====
-- src/common/wire.c: the payloads of the messages. The parts that its encoders and decoders share
-- are here; the children have the message kinds.
-- A char array or a `const char *` is its bytes, a NULL text the empty one, as append_string takes
-- it. A decoder's `payload` and `*pos` are the list of the bytes not yet read, so `*pos + n > len`
-- is "fewer than n are left"; sizes are far below 2 ^ 64, so no position wraps. A return of -1 is
-- `none`: nobody reads the out-record then.
pub mod Text
pub mod Auth
pub mod AuthOk
pub mod Config
pub mod Frame
pub mod Socks
use ntap_a.Base.{ℕ, zero, ◌-◌, List, [], ◌∷◌, Bool, ◌||◌, Option, none, some, ltb, leb, ◌==◌}
use ntap_a.Base.{if◌then◌else◌, length, take, drop, ◌>>=◌}
use ntap_a.Base.Words.{Bytes, put_be16, get_be16}
use ntap_a.Buffer.{Buffer, append}

-- What the C string in a char array is: the bytes before the first NUL.
unfoldable pub c_string : Bytes → Bytes
c_string [] = []
c_string (b ∷ bs) = if b == 0 then [] else b ∷ c_string bs

abbrev pub strlen : Bytes → ℕ
strlen text = length (c_string text)

unfoldable pub append_string : (ℕ → Bool) → Buffer → Bytes → Option Buffer
append_string alloc buf value =
    if ltb 65535 (strlen value)
    then none
    else (do buf ← append alloc buf (put_be16 (strlen value)); append alloc buf (c_string value))

-- The text, and what is left behind it. `out` has room for `out_len` bytes, the NUL included.
unfoldable pub read_string : ℕ → Bytes → Option (Bytes × Bytes)
read_string out_len rest =
    if out_len == 0 || ltb (length rest) 2
    then none
    else (let text_len = get_be16 rest in
        let body = drop 2 rest in
        if ltb (length body) text_len || leb out_len text_len
        then none
        else some (take text_len body, drop text_len body))

-- The end of each encoder: copy the buffer out if it fits.
unfoldable pub emit : ℕ → Buffer → Option Bytes
emit cap buf = if ltb cap (length buf.bytes) then none else some buf.bytes
