-- ===== src/Api/Nonce.antt =====
-- The nonce cache of src/a/api_server.c: which nonces were accepted lately. `seen_at` and `now` are
-- int64_t seconds since 1970, never negative and far below 2 ^ 63.
pub mod Replay
use ntap_a.Base.{
  ℕ, zero, suc, ◌+◌, List, [], ◌∷◌, Bool, true, false, not, ◌&&◌, ◌||◌, Option, none, some, ltb,
  ◌==◌, if◌then◌else◌, set, replicate,
}
use ntap_a.Base.Words.{Bytes}
use ntap_a.Base.Texts.{bytes_equal}
use ntap_a.Api.{api_time_skew_sec, api_nonce_cache_size, copy_to}

-- `api_nonce_entry_t`
pub record NonceEntry : Type 0 where
  pub active : Bool
  pub seen_at : ℕ
  pub nonce : Bytes

-- `api_nonce_cache_reset`
abbrev pub empty_cache : List NonceEntry
empty_cache = replicate api_nonce_cache_size (record { active = false; seen_at = 0; nonce = [] })

abbrev pub expired : ℕ → NonceEntry → Bool
expired now e = e.active && ltb (e.seen_at + api_time_skew_sec) now

-- An entry that the loop compares with the nonce.
abbrev pub live : ℕ → NonceEntry → Bool
live now e = e.active && not (ltb (e.seen_at + api_time_skew_sec) now)

-- The variables of the loop: `slot`, `none` while it is the size of the cache, and the two of the
-- oldest entry.
pub record Scan : Type 0 where
  pub slot : Option ℕ
  pub oldest_seen : ℕ
  pub oldest_slot : ℕ

abbrev pub first_slot : Option ℕ → ℕ → Option ℕ
first_slot none i = some i
first_slot (some j) i = some j

-- What the loop does to its variables at the entry with index `i`, where it goes on.
unfoldable pub scan_entry : ℕ → ℕ → NonceEntry → Scan → Scan
scan_entry now i e s =
    if not (live now e)
    then record s { slot = first_slot s.slot i }
    else if s.oldest_seen == 0 || ltb e.seen_at s.oldest_seen
    then record s { oldest_seen = e.seen_at; oldest_slot = i }
    else s

-- The loop from the entry with index `i` on: `none` where it finds the nonce.
unfoldable pub scan : Bytes → ℕ → ℕ → Scan → List NonceEntry → Option Scan × List NonceEntry
scan nonce now i s [] = (some s, [])
scan nonce now i s (e ∷ es) =
    let (r, es') = scan nonce now (suc i) (scan_entry now i e s) es in
    if live now e && bytes_equal e.nonce nonce
    then (none, e ∷ es)
    else (r, (if expired now e then record e { active = false } else e) ∷ es')

abbrev pub no_scan : Scan
no_scan = record { slot = none; oldest_seen = 0; oldest_slot = 0 }

abbrev pub chosen_slot : Scan → ℕ
chosen_slot s = elim s.slot [ none ↦ s.oldest_slot | some i ↦ i ]

abbrev pub fresh : Bytes → ℕ → NonceEntry
fresh nonce now = record { active = true; seen_at = now; nonce = copy_to 128 nonce }

abbrev pub scan_recorded : Bytes → ℕ → Option Scan × List NonceEntry → Bool × List NonceEntry
scan_recorded nonce now (none, cache) = (false, cache)
scan_recorded nonce now (some s, cache) = (true, set cache (chosen_slot s) (fresh nonce now))

-- `api_nonce_record`: whether the nonce is accepted, and the cache.
unfoldable pub api_nonce_record : Bytes → ℕ → List NonceEntry → Bool × List NonceEntry
api_nonce_record [] now cache = (false, cache)
api_nonce_record (c ∷ cs) now cache = scan_recorded (c ∷ cs) now (scan (c ∷ cs) now 0 no_scan cache)
