-- ===== src/Hub/Mac/Lookup.antt =====
-- `mac_lookup_locked` of src/a/node_server.c.
use ntap_a.Base.{ℕ, List, [], ◌∷◌, false, Option, none, some, if◌then◌else◌}
use ntap_a.Base.Words.{Bytes}
use ntap_a.Session.{Session}
use ntap_a.Hub.{MacEntry, session_find}
use ntap_a.Hub.Mac.{mac_is_multicast, mac_matches}

-- The loop over the table: the index of the session that the address was seen on, and the table,
-- where an entry whose session is gone is given up.
unfoldable pub mac_search : ℕ → Bytes → List Session → List MacEntry → Option ℕ × List MacEntry
mac_search network_id mac sessions [] = (none, [])
mac_search network_id mac sessions (e ∷ es) =
    let (target, es') = mac_search network_id mac sessions es in
    if mac_matches network_id mac e
    then (elim (session_find e.fd network_id sessions) [
      | some j ↦ (some j, e ∷ es)
      | none ↦ (none, record e { active = false } ∷ es)
    ])
    else (target, e ∷ es')

-- `mac_lookup_locked`
unfoldable pub mac_lookup : ℕ → Bytes → List Session → List MacEntry → Option ℕ × List MacEntry
mac_lookup network_id mac sessions macs =
    if mac_is_multicast mac then (none, macs) else mac_search network_id mac sessions macs
