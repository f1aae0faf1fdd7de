-- ===== src/Hub.antt =====
-- src/a/node_server.c: the tables behind `g_sessions_mu` and what the relay does with them. Each
-- function named `..._locked` in the source, and `relay_tap_frame` as a whole, runs under that
-- mutex, so it is one step from a hub to the next. A table is a list of its slots, 64 sessions,
-- 512 MAC entries and 128 rate entries; a pointer to a slot is its index. Times are uint64_t
-- seconds. What is printed is left out.
pub mod Mac
pub mod Flood
pub mod Relay
pub mod Registry
pub mod Steps
pub mod Lookup
use ntap_a.Base.{
  ℕ, zero, suc, ◌+◌, ◌-◌, ◌%◌, ◌^◌, List, [], ◌∷◌, ◌++◌, Bool, true, false, not, ◌&&◌, ◌||◌, Option,
  none, some, ltb, leb, ◌==◌, ◌!=◌, if◌then◌else◌, length, replicate, map,
}
use ntap_a.Base.Words.{Bytes, byte_at}
use ntap_a.Session.{Session}

abbrev pub max_active_sessions : ℕ
max_active_sessions = 64

abbrev pub max_mac_entries : ℕ
max_mac_entries = 512

abbrev pub max_network_rate_entries : ℕ
max_network_rate_entries = 128

abbrev pub default_mac_ttl_sec : ℕ
default_mac_ttl_sec = 300

-- `mac_entry_t`
pub record MacEntry : Type 0 where
  pub active : Bool
  pub network_id : ℕ
  pub fd : ℕ
  pub mac : Bytes
  pub ttl_sec : ℕ
  pub last_seen : ℕ
  pub move_window_sec : ℕ
  pub move_count : ℕ
  pub frozen_until : ℕ

-- `network_rate_entry_t`
pub record NetworkRate : Type 0 where
  pub active : Bool
  pub network_id : ℕ
  pub window_sec : ℕ
  pub flood_count : ℕ

-- `g_sessions`, `g_mac_table` and `g_network_rates`
pub record Hub : Type 0 where
  pub sessions : List Session
  pub macs : List MacEntry
  pub rates : List NetworkRate

-- The index of the first slot that passes the test, as the loops search.
unfoldable pub find_index {ℓ} : {A : Type ℓ} → (A → Bool) → List A → Option ℕ
find_index p [] = none
find_index p (x ∷ xs) =
    if p x then some 0 else (elim (find_index p xs) [ none ↦ none | some i ↦ some (suc i) ])

-- The test of `session_active_locked` and `session_find_locked`.
abbrev pub session_matches : ℕ → ℕ → Session → Bool
session_matches fd network_id s = s.active && s.fd == fd && s.network_id == network_id

unfoldable pub session_find : ℕ → ℕ → List Session → Option ℕ
session_find fd network_id = find_index (session_matches fd network_id)

unfoldable pub session_active : ℕ → ℕ → List Session → Bool
session_active fd network_id [] = false
session_active fd network_id (s ∷ ss) =
    session_matches fd network_id s || session_active fd network_id ss
