-- ===== src/Hub/Flood/Limit.antt =====
-- How many frames a session may flood in one second.
use ntap_a.Base.{
  ℕ, ◌+◌, ◌≤◌, ◌<◌, ◌≡◌, List, [], ◌∷◌, true, arith, if◌then◌else◌, inl, inr, Bool-cases, ◌==◌, sym,
  subst,
}
use ntap_a.Base.Words.{IsU32}
use ntap_a.Session.{Session}
use ntap_a.Hub.{NetworkRate}
use ntap_a.Hub.Flood.{flood_allowed, session_allows, network_allows, roll_session}

-- How many of a row of calls in the second `now` are let through. Each call finds its own table of
-- network rates: between two calls other sessions of the network may flood.
unfoldable pub flooded : Session → ℕ → List (List NetworkRate) → ℕ
flooded s now [] = 0
flooded s now (rates ∷ more) =
    let (ok, s', rates') = flood_allowed s now rates in (if ok then 1 else 0) + flooded s' now more

-- The frames that the session has flooded in the second `now`.
abbrev used : Session → ℕ → ℕ
used s now = if s.flood_window_sec == now then s.flood_count else 0

flood_allowed_step :
    (s : Session) (now : ℕ) (rates : List NetworkRate)
    → 0 < s.session_broadcast_limit_pps
    → IsU32 s.session_broadcast_limit_pps
    → let (ok, s', rates') = flood_allowed s now rates in
      (s'.session_broadcast_limit_pps ≡ s.session_broadcast_limit_pps)
      × (used s' now ≡ used s now + (if ok then 1 else 0))
      × (ok ≡ true → used s now < s.session_broadcast_limit_pps)
unfolding flood_allowed session_allows network_allows roll_session
flood_allowed_step s now rates pos small = (ground arith, ground arith, ground arith)

-- A session with a limit, a uint32_t that it has not passed yet, floods at most that many frames in
-- a second, whatever the network lets through; those that it had flooded before in it count.
pub flooded_limit :
    (s : Session) (now : ℕ) (tables : List (List NetworkRate))
    → 0 < s.session_broadcast_limit_pps
    → IsU32 s.session_broadcast_limit_pps
    → used s now ≤ s.session_broadcast_limit_pps
    → used s now + flooded s now tables ≤ s.session_broadcast_limit_pps
unfolding flooded
flooded_limit s now [] pos small le = omega (arith, le)
flooded_limit s now (rates ∷ more) pos small le =
    let (limit, more_used, room) = flood_allowed_step s now rates pos small in
    let (ok, s', rates') = flood_allowed s now rates in
    let ih =
      flooded_limit s' now more (omega (arith, limit, pos)) (subst IsU32 (sym limit) small) in
    elim (Bool-cases ok) [
      | inl yes' ↦
          let u = (rw yes' at more_used) in
          rw yes' (omega (arith, u, room yes', limit, ih (omega (arith, u, room yes', limit))))
      | inr no' ↦
          let u = (rw no' at more_used) in
          rw no' (omega (arith, u, le, limit, ih (omega (arith, u, le, limit))))
    ]
