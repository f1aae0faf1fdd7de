-- ===== src/Net/Stream.antt =====
-- That neither side of a connection sees how the bytes between them were cut.
use ntap_a.Base.{
  ℕ, zero, suc, ◌+◌, ◌-◌, ◌≤◌, ◌<◌, ◌≡◌, refl, ap, ◌∙◌, List, [], ◌∷◌, ◌++◌, Bool, true, false,
  some, arith, leb, length, take, drop, Bool-cases, inl, inr, take-append-drop, length-append,
  length-take, Ensures, Ensures-elim, Option-cases, append_assoc,
}
use ntap_a.Base.Words.{Bytes}
use ntap_a.Net.{Arrival, put_back, recv_all, Sent, taken, on_wire, send_all, send_all_timeout}

-- The bytes that come before anything fails.
abbrev pub content : List Arrival → Bytes
content [] = []
content (Arrival.bytes b bs ∷ es) = b ∷ bs ++ content es
content (Arrival.would_block true ∷ es) = content es
content (Arrival.would_block false ∷ es) = []
content (Arrival.error ∷ es) = []

pub content-put_back :
    (bs : Bytes) (es : List Arrival) → content (put_back bs es) ≡ bs ++ content es
content-put_back [] es = refl
content-put_back (b ∷ bs) es = refl

take-append_le : (n : ℕ) (xs ys : Bytes) → n ≤ length xs → take n (xs ++ ys) ≡ take n xs
take-append_le zero xs ys h = refl
take-append_le (suc n) [] ys h = absurd (omega (arith, h))
take-append_le (suc n) (x ∷ xs) ys h = ap (λ r. x ∷ r) (take-append_le n xs ys (omega (arith, h)))

drop-append_le : (n : ℕ) (xs ys : Bytes) → n ≤ length xs → drop n (xs ++ ys) ≡ drop n xs ++ ys
drop-append_le zero xs ys h = refl
drop-append_le (suc n) [] ys h = absurd (omega (arith, h))
drop-append_le (suc n) (x ∷ xs) ys h = drop-append_le n xs ys (omega (arith, h))

take-append_ge : (n k : ℕ) (xs ys : Bytes) → n ≡ length xs + k → take n (xs ++ ys) ≡ xs ++ take k ys
take-append_ge n k [] ys h = ap (λ i. take i ys) (omega (arith, h))
take-append_ge zero k (x ∷ xs) ys h = absurd (omega (arith, h))
take-append_ge (suc n) k (x ∷ xs) ys h =
    ap (λ r. x ∷ r) (take-append_ge n k xs ys (omega (arith, h)))

drop-append_ge : (n k : ℕ) (xs ys : Bytes) → n ≡ length xs + k → drop n (xs ++ ys) ≡ drop k ys
drop-append_ge n k [] ys h = ap (λ i. drop i ys) (omega (arith, h))
drop-append_ge zero k (x ∷ xs) ys h = absurd (omega (arith, h))
drop-append_ge (suc n) k (x ∷ xs) ys h = drop-append_ge n k xs ys (omega (arith, h))

-- Where n bytes come before anything fails, `recv_all` gives them and leaves what comes after them,
-- however the bytes are cut into arrivals and however often it has to wait.
pub recv_all_lem :
    (n : ℕ) (es : List Arrival)
    → n ≤ length (content es)
    → ((recv_all n es).0 ≡ some (take n (content es)))
      × (content (recv_all n es).1 ≡ drop n (content es))
unfolding recv_all
recv_all_lem zero es h = (refl, refl)
recv_all_lem (suc n) [] h = absurd (omega (arith, h))
recv_all_lem (suc n) (Arrival.error ∷ es) h = absurd (omega (arith, h))
recv_all_lem (suc n) (Arrival.would_block false ∷ es) h = absurd (omega (arith, h))
recv_all_lem (suc n) (Arrival.would_block true ∷ es) h = recv_all_lem (suc n) es h
recv_all_lem (suc n) (Arrival.bytes b bs ∷ es) h = elim (Bool-cases (leb n (length bs))) [
  | inl enough ↦ (
    rw (enough, take-append_le n bs (content es) (ground (arith, enough))) refl,
    rw
        (
          enough,
          drop-append_le n bs (content es) (ground (arith, enough)),
          content-put_back (drop n bs) es,
        )
        refl,
  )
  | inr more ↦
      let gone : length bs < n = ground (arith, more) in
      let (got, left) =
        recv_all_lem (n - length bs) es (omega (arith, h, length-append bs (content es), gone)) in
      let split : n ≡ length bs + (n - length bs) = omega (arith, gone) in
      (
        rw (more, got, take-append_ge n (n - length bs) bs (content es) split) refl,
        rw (more, left, drop-append_ge n (n - length bs) bs (content es) split) refl,
      )
]

-- The bytes that went out are the first ones of the data; all of them where the call succeeded.
abbrev pub Sends : Bytes → Bool × Bytes × List Sent → Type 0
Sends data' (ok, out, es) = ((rest : Bytes) × (out ++ rest ≡ data')) × (ok ≡ true → out ≡ data')

taken-le : (k : ℕ) (data' : Bytes) → taken k data' ≤ length data'
taken-le k data' = omega arith

Sends-on_wire :
    (n : ℕ) (data' : Bytes) (r : Bool × Bytes × List Sent)
    → n ≤ length data'
    → Sends (drop n data') r
    → Sends data' (on_wire (take n data') r)
Sends-on_wire n data' (ok, out, es) le ((rest, prefix), whole) = (
  (
    rest,
    append_assoc (take n data') out rest
        ∙ ap (λ x. take n data' ++ x) prefix
        ∙ take-append-drop n data',
  ),
  λ h. ap (λ x. take n data' ++ x) (whole h) ∙ take-append-drop n data',
)

-- Whatever the calls of `send` take, and however often the socket is full.
pub send_all_timeout-Sends :
    (data' : Bytes) (es : List Sent) → Sends data' (send_all_timeout data' es)
unfolding send_all_timeout
send_all_timeout-Sends [] es = (([], refl), λ h. refl)
send_all_timeout-Sends (b ∷ bs) [] = ((b ∷ bs, refl), λ h. absurd (ground (arith, h)))
send_all_timeout-Sends (b ∷ bs) (Sent.takes k ∷ es) =
    let n = taken k (b ∷ bs) in
    Sends-on_wire n (b ∷ bs) (send_all_timeout (drop n (b ∷ bs)) es) (taken-le k (b ∷ bs))
      (send_all_timeout-Sends (drop n (b ∷ bs)) es)
send_all_timeout-Sends (b ∷ bs) (Sent.full true ∷ es) = send_all_timeout-Sends (b ∷ bs) es
send_all_timeout-Sends (b ∷ bs) (Sent.full false ∷ es) =
    ((b ∷ bs, refl), λ h. absurd (ground (arith, h)))
send_all_timeout-Sends (b ∷ bs) (Sent.error ∷ es) =
    ((b ∷ bs, refl), λ h. absurd (ground (arith, h)))

pub send_all-Sends : (data' : Bytes) (es : List Sent) → Sends data' (send_all data' es)
unfolding send_all
send_all-Sends [] es = (([], refl), λ h. refl)
send_all-Sends (b ∷ bs) [] = ((b ∷ bs, refl), λ h. absurd (ground (arith, h)))
send_all-Sends (b ∷ bs) (Sent.takes k ∷ es) =
    let n = taken k (b ∷ bs) in
    Sends-on_wire n (b ∷ bs) (send_all (drop n (b ∷ bs)) es) (taken-le k (b ∷ bs))
      (send_all-Sends (drop n (b ∷ bs)) es)
send_all-Sends (b ∷ bs) (Sent.full w ∷ es) = ((b ∷ bs, refl), λ h. absurd (ground (arith, h)))
send_all-Sends (b ∷ bs) (Sent.error ∷ es) = ((b ∷ bs, refl), λ h. absurd (ground (arith, h)))

lt_of : (n k : ℕ) → leb n k ≡ false → k < n
lt_of n k h = ground (arith, h)

-- `recv_all` never gives more bytes than it was asked for.
pub recv_all-fits : (n : ℕ) (es : List Arrival) → Ensures (λ got. length got ≤ n) (recv_all n es).0
unfolding recv_all
recv_all-fits zero es = omega arith
recv_all-fits (suc n) [] = tt
recv_all-fits (suc n) (Arrival.error ∷ es) = tt
recv_all-fits (suc n) (Arrival.would_block false ∷ es) = tt
recv_all-fits (suc n) (Arrival.would_block true ∷ es) = recv_all-fits (suc n) es
recv_all-fits (suc n) (Arrival.bytes b bs ∷ es) = elim (Bool-cases (leb n (length bs))) [
  | inl enough ↦ rw enough (omega (arith, length-take n bs))
  | inr more ↦ elim (Option-cases (recv_all (n - length bs) es).0) [
    | inl none' ↦ rw (more, none') tt
    | inr (got, e) ↦
        let rest =
          Ensures-elim (λ g. length g ≤ n - length bs) (recv_all (n - length bs) es).0
            (recv_all-fits (n - length bs) es) e in
        rw (more, e) (omega (arith, rest, length-append bs got, lt_of n (length bs) more))
  ]
]
