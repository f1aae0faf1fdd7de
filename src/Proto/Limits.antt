-- ===== src/Proto/Limits.antt =====
-- The lengths that `payload_length_allowed` lets through.
use ntap_a.Base.{ℕ, ◌≤◌, ◌≡◌, true, arith}
use ntap_a.Proto.{msg_type_is_valid, payload_length_allowed, payload_max_control}

-- An accepted length belongs to a valid type, fits the receive buffer of 64 KiB, and with it every
-- smaller length of the type is accepted.
pub payload_length_allowed_bounds :
    (type n m mtu : ℕ)
    → payload_length_allowed type n mtu ≡ true
    → m ≤ n
    → (msg_type_is_valid type ≡ true)
      × (n ≤ payload_max_control)
      × (payload_length_allowed type m mtu ≡ true)
unfolding payload_length_allowed
payload_length_allowed_bounds type n m mtu h le = ground arith
