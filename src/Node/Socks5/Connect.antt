-- ===== src/Node/Socks5/Connect.antt =====
-- That a CONNECT request for a host name is understood.
use ntap_a.Base.{
  ℕ, ◌<◌, ◌≡◌, refl, sym, ap, ◌∙◌, List, [], ◌∷◌, ◌++◌, append_assoc, true, false, some, arith,
  ◌==◌, leb, length, length-append, take, drop, take-append_self, drop-append_self, lt→leb,
}
use ntap_a.Base.Words.{Bytes, IsU16, put_be16, get_be16, get_be16-put_be16}
use ntap_a.Base.Texts.{lacks}
use ntap_a.Net.{Arrival, recv_all}
use ntap_a.Net.Stream.{content, recv_all_lem}
use ntap_a.Wire.{c_string}
use ntap_a.Node.Socks5.{socks5_read_connect}

-- RFC 1928: a CONNECT for a host name.
abbrev pub connect_request : Bytes → ℕ → Bytes
connect_request host port = 5 ∷ 1 ∷ 0 ∷ 3 ∷ length host ∷ host ++ put_be16 port

-- The bytes that come next are received, and what is behind them is left.
recv-exact :
    (n : ℕ) (bs rest : Bytes) (es : List Arrival)
    → n ≡ length bs
    → content es ≡ bs ++ rest
    → (left : List Arrival) × (recv_all n es ≡ (some bs, left)) × (content left ≡ rest)
recv-exact n bs rest es size c =
    let (got, behind) = recv_all_lem n es (rw c (omega (arith, size, length-append bs rest))) in
    let t : take n (content es) ≡ bs = rw c (take-append_self n bs rest (sym size)) in
    let d : drop n (content es) ≡ rest = rw c (drop-append_self n bs rest (sym size)) in
    ((recv_all n es).1, ap (λ r. (r, (recv_all n es).1)) (got ∙ ap some t), behind ∙ d)

c_string-lacks : (text : Bytes) → lacks 0 text ≡ true → c_string text ≡ text
unfolding c_string lacks
c_string-lacks [] h = refl
c_string-lacks (c ∷ cs) h = ground (arith, h, c_string-lacks cs)

-- A CONNECT for a host name of 1 to 255 bytes, within the array and without a NUL, and a port above 0 is
-- understood, however its bytes are cut, and what comes behind it is left.
pub socks5_read_connect-connect_request :
    (host_len : ℕ) (host rest : Bytes) (port : ℕ) (es : List Arrival)
    → 0 < length host
    → length host < host_len
    → lacks 0 host ≡ true
    → 0 < port
    → IsU16 port
    → content es ≡ connect_request host port ++ rest
    → (left : List Arrival) × (socks5_read_connect host_len es
        ≡ some (record { host = host; port = port; left = left }))
      × (content left ≡ rest)
unfolding socks5_read_connect
socks5_read_connect-connect_request host_len host rest port es given fits plain above u16 c =
    let (l1, e1, c1) =
      recv-exact 4 (5 ∷ 1 ∷ 0 ∷ 3 ∷ []) (length host ∷ (host ++ put_be16 port) ++ rest) es refl c in
    let (l2, e2, c2) =
      recv-exact 1 (length host ∷ []) ((host ++ put_be16 port) ++ rest) l1 refl c1 in
    let (l3, e3, c3) =
      recv-exact (length host) host (put_be16 port ++ rest) l2 refl
        (c2 ∙ append_assoc host (put_be16 port) rest) in
    let (l4, e4, c4) = recv-exact 2 (put_be16 port) rest l3 refl c3 in
    let array : (host_len == 0) ≡ false = ground (arith, fits) in
    let nz : (length host == 0) ≡ false = ground (arith, given) in
    let room : leb host_len (length host) ≡ false = lt→leb host_len (length host) fits in
    let p : get_be16 (put_be16 port) ≡ port = get_be16-put_be16 port [] u16 in
    let pz : (port == 0) ≡ false = ground (arith, above) in
    (l4, rw (array, e1, e2, nz, room, e3, e4, p, pz, c_string-lacks host plain) refl, c4)
