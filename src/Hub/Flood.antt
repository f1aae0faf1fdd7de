-- ===== src/Hub/Flood.antt =====
-- `flood_allowed_locked` of src/a/node_server.c: the two limits on flooded frames in a second, one
-- on what a session sends and one on what its network carries.
pub mod Limit
use ntap_a.Base.{
  ℕ, ◌+◌, ◌%◌, ◌^◌, List, [], ◌∷◌, Bool, true, false, not, ◌&&◌, Option, none, some, ltb, leb, ◌==◌,
  ◌!=◌, if◌then◌else◌, get_or, set,
}
use ntap_a.Session.{Session}
use ntap_a.Hub.{NetworkRate, find_index}

abbrev pub empty_rate : NetworkRate
empty_rate = record { active = false; network_id = 0; window_sec = 0; flood_count = 0 }

abbrev pub rate_matches : ℕ → NetworkRate → Bool
rate_matches network_id r = r.active && r.network_id == network_id

-- `network_rate_entry_locked`: the index of the entry of a network, which a free slot becomes where
-- there is none; such a slot keeps its last window and count.
unfoldable pub network_rate_entry : ℕ → List NetworkRate → Option (ℕ × List NetworkRate)
network_rate_entry network_id rates = elim (find_index (rate_matches network_id) rates) [
  | some i ↦ some (i, rates)
  | none ↦ elim (find_index (λ (r : NetworkRate). not r.active) rates) [
    | none ↦ none
    | some i ↦ some (
      i,
      set rates i (record (get_or rates i empty_rate) { active = true; network_id = network_id }),
    )
  ]
]

unfoldable pub roll_session : Session → ℕ → Session
roll_session s now =
    if s.flood_window_sec != now then record s { flood_window_sec = now; flood_count = 0 } else s

unfoldable pub roll_rate : NetworkRate → ℕ → NetworkRate
roll_rate r now = if r.window_sec != now then record r { window_sec = now; flood_count = 0 } else r

abbrev pub count_session : Session → Session
count_session s = record s { flood_count = (s.flood_count + 1) % 2 ^ 32 }

abbrev pub count_rate : NetworkRate → NetworkRate
count_rate r = record r { flood_count = (r.flood_count + 1) % 2 ^ 32 }

-- The first part of `flood_allowed_locked`: the session, and whether its own limit lets it go on.
unfoldable pub session_allows : Session → ℕ → Bool × Session
session_allows s now =
    if ltb 0 s.session_broadcast_limit_pps
    then (let s' = roll_session s now in
        (not (leb s'.session_broadcast_limit_pps s'.flood_count), s'))
    else (true, s)

-- The second part, from the limit of the network on, to the end of the function.
unfoldable pub network_allows : Session → ℕ → List NetworkRate → Bool × Session × List NetworkRate
network_allows s now rates =
    let counted = if ltb 0 s.session_broadcast_limit_pps then count_session s else s in
    if s.broadcast_limit_pps == 0
    then (true, counted, rates)
    else (elim (network_rate_entry s.network_id rates) [
      | none ↦ (false, s, rates)
      | some (i, rates') ↦
          let r = roll_rate (get_or rates' i empty_rate) now in
          if leb s.broadcast_limit_pps r.flood_count
          then (false, s, set rates' i r)
          else (true, counted, set rates' i (count_rate r))
    ])

-- `flood_allowed_locked`, of a session that is not NULL.
unfoldable pub flood_allowed : Session → ℕ → List NetworkRate → Bool × Session × List NetworkRate
flood_allowed s now rates =
    let (ok, s') = session_allows s now in
    if ok then network_allows s' now rates else (false, s', rates)
