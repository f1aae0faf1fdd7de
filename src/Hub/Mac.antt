-- ===== src/Hub/Mac.antt =====
-- The MAC table of src/a/node_server.c: which session a hardware address was last seen on.
-- An address is the list of its six bytes.
pub mod Unique
pub mod Freeze
pub mod Entry
pub mod Limit
pub mod Moves
pub mod Lookup
use ntap_a.Base.{
  ℕ, zero, suc, ◌+◌, ◌-◌, ◌%◌, ◌^◌, List, [], ◌∷◌, Bool, true, false, not, ◌&&◌, ◌||◌, Option, none,
  some, ltb, leb, ◌==◌, ◌!=◌, if◌then◌else◌, set, get_or, map,
}
use ntap_a.Base.Texts.{bytes_equal}
use ntap_a.Base.Words.{Bytes, byte_at}
use ntap_a.Session.{Session}
use ntap_a.Hub.{Hub, MacEntry, find_index, session_matches, session_active, default_mac_ttl_sec}

abbrev pub mac_move_window_sec : ℕ
mac_move_window_sec = 10

abbrev pub mac_move_freeze_threshold : ℕ
mac_move_freeze_threshold = 2

abbrev pub mac_freeze_sec : ℕ
mac_freeze_sec = 60

unfoldable pub mac_is_zero : Bytes → Bool
mac_is_zero mac = bytes_equal mac (0 ∷ 0 ∷ 0 ∷ 0 ∷ 0 ∷ 0 ∷ [])

unfoldable pub mac_is_broadcast : Bytes → Bool
mac_is_broadcast mac = bytes_equal mac (0xff ∷ 0xff ∷ 0xff ∷ 0xff ∷ 0xff ∷ 0xff ∷ [])

-- `& 0x01` is `% 2`.
unfoldable pub mac_is_multicast : Bytes → Bool
mac_is_multicast mac = byte_at mac 0 % 2 != 0

unfoldable pub mac_is_l2_control : Bytes → Bool
mac_is_l2_control mac =
    byte_at mac 0 == 0x01
    && byte_at mac 1 == 0x80
    && byte_at mac 2 == 0xc2
    && byte_at mac 3 == 0x00
    && byte_at mac 4 == 0x00
    && leb (byte_at mac 5) 0x0f

unfoldable pub mac_is_learnable_src : Bytes → Bool
mac_is_learnable_src mac = not (mac_is_zero mac) && not (mac_is_multicast mac)

abbrev pub entry_ttl : MacEntry → ℕ
entry_ttl e = if e.ttl_sec == 0 then default_mac_ttl_sec else e.ttl_sec

unfoldable pub mac_expired : ℕ → List Session → MacEntry → Bool
mac_expired now sessions e =
    e.active
    && (ltb e.last_seen now && ltb (entry_ttl e) (now - e.last_seen)
        || not (session_active e.fd e.network_id sessions))

unfoldable pub mac_age : ℕ → List Session → List MacEntry → List MacEntry
mac_age now sessions =
    map (λ e. if mac_expired now sessions e then record e { active = false } else e)

abbrev pub of_session : ℕ → ℕ → MacEntry → Bool
of_session fd network_id e = e.active && e.fd == fd && e.network_id == network_id

unfoldable pub mac_count_for_fd : ℕ → ℕ → List MacEntry → ℕ
mac_count_for_fd fd network_id [] = 0
mac_count_for_fd fd network_id (e ∷ es) =
    (if of_session fd network_id e then 1 else 0) + mac_count_for_fd fd network_id es

-- The entry that the loops of `mac_learn_locked` and `mac_lookup_locked` stop at.
abbrev pub mac_matches : ℕ → Bytes → MacEntry → Bool
mac_matches network_id mac e = e.active && e.network_id == network_id && bytes_equal e.mac mac

-- The int of `mac_learn_locked`: 0, or -1 for a source address that is frozen.
pub data Learned : Type 0 where
  learned frozen : Learned

-- `fd`, `ttl_sec` and `last_seen` of the entry, as the loop sets them before it returns 0.
abbrev pub seen_on : Session → ℕ → MacEntry → MacEntry
seen_on s now e = record e { fd = s.fd; ttl_sec = s.mac_ttl_sec; last_seen = now }

-- uint64_t `now - window`, which wraps where the clock went back.
unfoldable pub window_over : ℕ → MacEntry → Bool
window_over now e =
    e.move_window_sec == 0 || ltb mac_move_window_sec ((now + 2 ^ 64 - e.move_window_sec) % 2 ^ 64)

-- A new window of moves where the last is over, and one more move in it.
unfoldable pub count_move : ℕ → MacEntry → MacEntry
count_move now e =
    if window_over now e
    then record e { move_window_sec = now; move_count = 1 }
    else record e { move_count = (e.move_count + 1) % 2 ^ 32 }

-- The address was seen on another session before.
unfoldable pub mac_moved : Session → ℕ → MacEntry → Learned × MacEntry
mac_moved s now e =
    if ltb now e.frozen_until
    then (frozen, e)
    else (let e' = count_move now e in
        if leb mac_move_freeze_threshold e'.move_count
        then (frozen, record e' { frozen_until = (now + mac_freeze_sec) % 2 ^ 64 })
        else (learned, seen_on s now e'))

-- The body of the loop of `mac_learn_locked` at the entry of the address.
unfoldable pub mac_relearn : Session → ℕ → MacEntry → Learned × MacEntry
mac_relearn s now e =
    if e.fd != s.fd
    then mac_moved s now e
    else if leb e.frozen_until now
    then (learned, seen_on s now (record e { frozen_until = 0 }))
    else (learned, seen_on s now e)

abbrev pub fresh_entry : Session → Bytes → ℕ → MacEntry
fresh_entry s mac now = record {
  active = true;
  network_id = s.network_id;
  fd = s.fd;
  mac = mac;
  ttl_sec = s.mac_ttl_sec;
  last_seen = now;
  move_window_sec = now;
  move_count = 0;
  frozen_until = 0;
}

-- `count >= (int)max_mac_per_session`: a limit from 2 ^ 31 on is negative as an int.
unfoldable pub mac_limit_reached : Session → List MacEntry → Bool
mac_limit_reached s macs =
    ltb (2 ^ 31 - 1) s.max_mac_per_session
    || leb s.max_mac_per_session (mac_count_for_fd s.fd s.network_id macs)

-- What follows the loop, `free_slot` the first slot in disuse.
unfoldable pub mac_insert : Session → Bytes → ℕ → List MacEntry → List MacEntry
mac_insert s mac now macs = elim (find_index (λ (e : MacEntry). not e.active) macs) [
  | none ↦ macs
  | some free_slot ↦
      if mac_limit_reached s macs then macs else set macs free_slot (fresh_entry s mac now)
]

-- The loop: `none` where no entry has the address.
unfoldable pub mac_update : Session → Bytes → ℕ → List MacEntry → Option (Learned × List MacEntry)
mac_update s mac now [] = none
mac_update s mac now (e ∷ es) =
    if mac_matches s.network_id mac e
    then (let (r, e') = mac_relearn s now e in some (r, e' ∷ es))
    else (elim (mac_update s mac now es) [ none ↦ none | some (r, es') ↦ some (r, e ∷ es') ])

-- `mac_learn_locked`, of a session that is not NULL.
unfoldable pub mac_learn : Session → Bytes → ℕ → List MacEntry → Learned × List MacEntry
mac_learn s mac now macs =
    if not (mac_is_learnable_src mac) then (learned, macs) else (elim (mac_update s mac now macs) [
      | some r ↦ r
      | none ↦ (learned, mac_insert s mac now macs)
    ])

-- `mac_forget_fd_locked`
unfoldable pub mac_forget_fd : ℕ → List MacEntry → List MacEntry
mac_forget_fd fd = map (λ e. if e.active && e.fd == fd then record e { active = false } else e)
