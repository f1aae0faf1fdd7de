-- ===== src/Hub/Mac/Limit.antt =====
-- How many addresses a session may hold, and what an address moving between sessions does to that.
use ntap_a.Base.{
  ℕ, zero, suc, ◌+◌, ◌≤◌, ◌≡◌, List, [], ◌∷◌, not, none, arith, Option-cases, inl, inr, set,
}
use ntap_a.Base.Words.{Bytes}
use ntap_a.Session.{Session}
use ntap_a.Hub.{MacEntry, find_index}
use ntap_a.Hub.Mac.{
  mac_count_for_fd, mac_limit_reached, mac_insert, mac_update, mac_learn, fresh_entry,
}

count-set_le :
    (fd n : ℕ) (es : List MacEntry) (i : ℕ) (f : MacEntry)
    → mac_count_for_fd fd n (set es i f) ≤ mac_count_for_fd fd n es + 1
unfolding mac_count_for_fd
count-set_le fd n [] i f = omega arith
count-set_le fd n (e ∷ es) zero f = ground arith
count-set_le fd n (e ∷ es) (suc i) f = omega (arith, count-set_le fd n es i f)

-- An address that the table did not have does not take a session over its limit.
pub mac_learn_limit :
    (s : Session) (mac : Bytes) (now : ℕ) (es : List MacEntry)
    → mac_update s mac now es ≡ none
    → mac_count_for_fd s.fd s.network_id es ≤ s.max_mac_per_session
    → mac_count_for_fd s.fd s.network_id (mac_learn s mac now es).1 ≤ s.max_mac_per_session
unfolding mac_learn mac_insert mac_limit_reached
mac_learn_limit s mac now es none' h =
    elim (Option-cases (find_index (λ (e : MacEntry). not e.active) es)) [
      | inl n ↦ ground (arith, none', n)
      | inr (i, n) ↦
          ground (arith, none', n, count-set_le s.fd s.network_id es i (fresh_entry s mac now))
    ]
