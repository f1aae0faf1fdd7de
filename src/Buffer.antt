-- ===== src/Buffer.antt =====
-- src/common/buffer.c: the growing byte buffer that every encoder writes through.
-- `realloc` is the parameter `alloc`: whether a request for so many bytes is granted. A call that
-- returns -1 leaves the buffer as it was, and is `none`.
pub mod Growth
pub mod Writes
use ntap_a.Base.{ℕ, zero, suc, ◌+◌, ◌-◌, ◌*◌, ◌/◌, ◌^◌, List, [], ◌++◌, Bool, true, false}
use ntap_a.Base.{Option, none, some, ltb, leb, ◌==◌, if◌then◌else◌, length, ◌>>=◌}
use ntap_a.Base.Words.{Bytes}

-- `(size_t)-1`
abbrev pub size_max : ℕ
size_max = 2 ^ 64 - 1

-- `ntap_buffer_t`: `bytes` are the first `len` bytes of `data`.
pub record Buffer : Type 0 where
  pub bytes : Bytes
  pub cap : ℕ

-- `ntap_buffer_init`, and what `ntap_buffer_free` leaves.
unfoldable pub init : Buffer
init = record { bytes = []; cap = 0 }

-- `ntap_buffer_clear` keeps the allocation.
unfoldable pub clear : Buffer → Buffer
clear buf = record buf { bytes = [] }

unfoldable pub reserve : (ℕ → Bool) → Buffer → ℕ → Option Buffer
reserve alloc buf cap =
    if leb cap buf.cap
    then some buf
    else if alloc cap
    then some (record buf { cap = cap })
    else none

-- The `while` loop of `ntap_buffer_append`; `none` only if the fuel runs out.
unfoldable pub grow : ℕ → ℕ → ℕ → Option ℕ
grow zero next_cap need = none
grow (suc fuel) next_cap need =
    let more = grow fuel (next_cap * 2) need in
    if ltb next_cap need
    then (if ltb (size_max / 2) next_cap then some need else more)
    else some next_cap

abbrev pub grow_fuel : ℕ
grow_fuel = 65

abbrev pub first_cap : Buffer → ℕ
first_cap buf = if buf.cap == 0 then 256 else buf.cap

-- The part of `ntap_buffer_append` before the copy: room for `need` bytes.
unfoldable pub make_room : (ℕ → Bool) → Buffer → ℕ → Option Buffer
unfolding reserve
make_room alloc buf need =
    if ltb buf.cap need
    then (do cap ← grow grow_fuel (first_cap buf) need; reserve alloc buf cap)
    else some buf

unfoldable pub append : (ℕ → Bool) → Buffer → Bytes → Option Buffer
append alloc buf bytes =
    if length bytes == 0
    then some buf
    else if ltb (size_max - length bytes) (length buf.bytes)
    then none
    else (do
      room ← make_room alloc buf (length buf.bytes + length bytes)
      some (record room { bytes = room.bytes ++ bytes }))
