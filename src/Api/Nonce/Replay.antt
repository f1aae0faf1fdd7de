-- ===== src/Api/Nonce/Replay.antt =====
-- Which nonces are refused.
use ntap_a.Base.{
  ℕ, zero, suc, ◌+◌, ◌≤◌, ◌<◌, ◌≡◌, refl, List, [], ◌∷◌, Bool, true, false, not, ◌&&◌, ◌||◌, Option,
  none, some, arith, if◌then◌else◌, Bool-cases, Option-cases, inl, inr, set, length, take_self,
  length-set, ap, ◌∙◌, subst,
}
use ntap_a.Base.Words.{Bytes}
use ntap_a.Base.Texts.{bytes_equal, bytes_equal_self}
use ntap_a.Api.{api_time_skew_sec, copy_to}
use ntap_a.Api.Nonce.{
  NonceEntry, Scan, expired, live, scan_entry, scan, no_scan, chosen_slot, fresh, api_nonce_record,
  scan_recorded,
}

-- Whether the cache holds the nonce as one that was accepted in the last 20 seconds.
unfoldable pub holds : Bytes → ℕ → List NonceEntry → Bool
holds nonce now [] = false
holds nonce now (e ∷ es) = (live now e && bytes_equal e.nonce nonce) || holds nonce now es

-- The cache without the entries that have gone out of their time.
unfoldable pub purge : ℕ → List NonceEntry → List NonceEntry
purge now [] = []
purge now (e ∷ es) = (if expired now e then record e { active = false } else e) ∷ purge now es

scan-holds :
    (nonce : Bytes) (now i : ℕ) (s : Scan) (es : List NonceEntry)
    → holds nonce now es ≡ true
    → (scan nonce now i s es).0 ≡ none
unfolding scan holds
scan-holds nonce now i s [] h = cc
scan-holds nonce now i s (e ∷ es) h =
    ground (arith, scan-holds nonce now (suc i) (scan_entry now i e s) es)

scan-free :
    (nonce : Bytes) (now i : ℕ) (s : Scan) (es : List NonceEntry)
    → holds nonce now es ≡ false
    → (t : Scan) × (scan nonce now i s es ≡ (some t, purge now es))
unfolding scan holds purge
scan-free nonce now i s [] h = (s, refl)
scan-free nonce now i s (e ∷ es) h =
    let (t, u) = scan-free nonce now (suc i) (scan_entry now i e s) es (ground (arith, h)) in
    (t, ground (arith, u, h))

holds-purge :
    (nonce : Bytes) (now later : ℕ) (es : List NonceEntry)
    → now ≤ later
    → holds nonce later (purge now es) ≡ holds nonce later es
unfolding holds purge
holds-purge nonce now later [] le = refl
holds-purge nonce now later (e ∷ es) le = ground (arith, holds-purge nonce now later es le)

-- What is held later was held before, if nothing came in between.
holds_earlier :
    (nonce : Bytes) (now later : ℕ) (es : List NonceEntry)
    → now ≤ later
    → holds nonce now es ≡ false
    → holds nonce later es ≡ false
unfolding holds
holds_earlier nonce now later [] le h = refl
holds_earlier nonce now later (e ∷ es) le h = ground (arith, holds_earlier nonce now later es le)

scan_entry-bounds :
    (now i n : ℕ) (e : NonceEntry) (s : Scan)
    → i < n
    → chosen_slot s < n
    → s.oldest_slot < n
    → (chosen_slot (scan_entry now i e s) < n) × ((scan_entry now i e s).oldest_slot < n)
unfolding scan_entry
scan_entry-bounds now i n e s lt ch old = elim (Option-cases s.slot) [
  | inl none' ↦ (ground (arith, none'), ground (arith, none'))
  | inr (j, some') ↦ (ground (arith, some'), ground (arith, some'))
]

scan-bounds :
    (nonce : Bytes) (now i n : ℕ) (s t : Scan) (es : List NonceEntry)
    → i + length es ≤ n
    → chosen_slot s < n
    → s.oldest_slot < n
    → (scan nonce now i s es).0 ≡ some t
    → chosen_slot t < n
unfolding scan
scan-bounds nonce now i n s t [] le ch old h =
    subst (λ (o : Option Scan). elim o [ none ↦ Unit {0} | some u ↦ chosen_slot u < n ]) h ch
scan-bounds nonce now i n s t (e ∷ es) le ch old h =
    let (ch', old') = scan_entry-bounds now i n e s (omega (arith, le)) ch old in
    scan-bounds nonce now (suc i) n (scan_entry now i e s) t es (omega (arith, le)) ch' old'
      (ground (arith, h))

length-purge : (now : ℕ) (es : List NonceEntry) → length (purge now es) ≡ length es
unfolding purge
length-purge now [] = refl
length-purge now (e ∷ es) = omega (arith, length-purge now es)

holds-set :
    (nonce : Bytes) (now k : ℕ) (e : NonceEntry) (es : List NonceEntry)
    → k < length es
    → (live now e && bytes_equal e.nonce nonce) ≡ true
    → holds nonce now (set es k e) ≡ true
unfolding holds
holds-set nonce now k e [] lt h = ground (arith, lt)
holds-set nonce now zero e (x ∷ es) lt h = ground (arith, h)
holds-set nonce now (suc k) e (x ∷ es) lt h =
    ground (arith, holds-set nonce now k e es (omega (arith, lt)) h)

holds-set_stale :
    (nonce : Bytes) (now k : ℕ) (e : NonceEntry) (es : List NonceEntry)
    → live now e ≡ false
    → holds nonce now es ≡ false
    → holds nonce now (set es k e) ≡ false
unfolding holds
holds-set_stale nonce now k e [] stale h = refl
holds-set_stale nonce now zero e (x ∷ es) stale h = ground (arith, h, stale)
holds-set_stale nonce now (suc k) e (x ∷ es) stale h =
    ground (arith, holds-set_stale nonce now k e es stale)

-- What an accepted nonce does to the cache.
record-free :
    (c : ℕ) (cs : Bytes) (now : ℕ) (cache : List NonceEntry)
    → 0 < length cache
    → holds (c ∷ cs) now cache ≡ false
    → (k : ℕ) × (k < length (purge now cache))
      × (api_nonce_record (c ∷ cs) now cache ≡ (true, set (purge now cache) k (fresh (c ∷ cs) now)))
unfolding api_nonce_record
record-free c cs now cache pos free =
    let (t, e) = scan-free (c ∷ cs) now 0 no_scan cache free in
    let lt =
      scan-bounds (c ∷ cs) now 0 (length cache) no_scan t cache (omega arith) pos pos
        (ap (λ p. p.0) e) in
    (chosen_slot t, omega (arith, lt, length-purge now cache), ap (scan_recorded (c ∷ cs) now) e)

record-held :
    (c : ℕ) (cs : Bytes) (now : ℕ) (cache : List NonceEntry)
    → holds (c ∷ cs) now cache ≡ true
    → (api_nonce_record (c ∷ cs) now cache).0 ≡ false
unfolding api_nonce_record
record-held c cs now cache held = ground (arith, scan-holds (c ∷ cs) now 0 no_scan cache held)

-- A nonce is accepted exactly where the cache does not hold it.
pub api_nonce_record-holds :
    (c : ℕ) (cs : Bytes) (now : ℕ) (cache : List NonceEntry)
    → 0 < length cache
    → (api_nonce_record (c ∷ cs) now cache).0 ≡ not (holds (c ∷ cs) now cache)
api_nonce_record-holds c cs now cache pos = elim (Bool-cases (holds (c ∷ cs) now cache)) [
  | inl held ↦ rw held (record-held c cs now cache held)
  | inr free ↦ let (k, lt, e) = record-free c cs now cache pos free in rw (free, e) refl
]

-- A nonce of at most 127 bytes, as many as the entry keeps, that has been accepted is held for 20
-- seconds.
pub api_nonce_record_held :
    (c : ℕ) (cs : Bytes) (now later : ℕ) (cache : List NonceEntry)
    → length cs < 127
    → 0 < length cache
    → later ≤ now + api_time_skew_sec
    → (api_nonce_record (c ∷ cs) now cache).0 ≡ true
    → holds (c ∷ cs) later (api_nonce_record (c ∷ cs) now cache).1 ≡ true
api_nonce_record_held c cs now later cache short pos soon ok =
    let free : holds (c ∷ cs) now cache ≡ false =
      ground (arith, ok, api_nonce_record-holds c cs now cache pos) in
    let (k, lt, e) = record-free c cs now cache pos free in
    let whole : copy_to 128 (c ∷ cs) ≡ c ∷ cs = take_self 127 (c ∷ cs) (omega (arith, short)) in
    let hit : (live later (fresh (c ∷ cs) now) && bytes_equal (copy_to 128 (c ∷ cs)) (c ∷ cs))
        ≡ true =
      rw whole (ground (arith, soon, bytes_equal_self (c ∷ cs))) in
    rw e (holds-set (c ∷ cs) later k (fresh (c ∷ cs) now) (purge now cache) lt hit)

-- A nonce that has been accepted is accepted again once more than 20 seconds have passed, where no
-- other came in between.
pub api_nonce_record_again :
    (c : ℕ) (cs : Bytes) (now later : ℕ) (cache : List NonceEntry)
    → 0 < length cache
    → (api_nonce_record (c ∷ cs) now cache).0 ≡ true
    → now + api_time_skew_sec < later
    → (api_nonce_record (c ∷ cs) later (api_nonce_record (c ∷ cs) now cache).1).0 ≡ true
api_nonce_record_again c cs now later cache pos ok late =
    let free : holds (c ∷ cs) now cache ≡ false =
      ground (arith, ok, api_nonce_record-holds c cs now cache pos) in
    let (k, lt, e) = record-free c cs now cache pos free in
    let old = holds_earlier (c ∷ cs) now later cache (omega (arith, late)) free in
    let purged = holds-purge (c ∷ cs) now later cache (omega (arith, late)) in
    let stale =
      holds-set_stale (c ∷ cs) later k (fresh (c ∷ cs) now) (purge now cache) (ground (arith, late))
        (purged ∙ old) in
    let room : 0 < length (set (purge now cache) k (fresh (c ∷ cs) now)) =
      omega (arith, lt, length-set (purge now cache) k (fresh (c ∷ cs) now)) in
    rw e (
      api_nonce_record-holds c cs later (set (purge now cache) k (fresh (c ∷ cs) now)) room
      ∙ ap not stale)
