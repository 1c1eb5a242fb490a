-- ===== src/Udp/Deliver.antt =====
-- A datagram that udp_send makes is delivered by the udp_input of its receiver.
use manios.Base.{
  ℕ, ◌+◌, ◌-◌, ◌%◌, ◌^◌, ◌≤◌, ◌<◌, ◌≡◌, refl, ap, ◌∙◌, inl, inr, true, false, ◌||◌, Option, none,
  some, List, [], ◌∷◌, arith, ltb, leb, ◌==◌, if◌then◌else◌, length, take, drop, take-whole,
  Bool-cases, All,
}
use manios.Arp.Frame.{get_be16}
use manios.Udp.{
  inet_sum, inet_fold, Datagram, Endpoint, Udp, udp_header, udp_payload_max, queue_max, find_port,
  pseudo, udp_sum, push_datagram, deliver, received, udp_input, udp_bytes, to_ip, udp_send,
}
use manios.Udp.Checksum.{
  word_sum, inet_sum_lem, word_sum_le, inet_fold-stored, inet_fold-stored_bounds,
}

-- The endpoint with the datagram at the end of its queue, unless that is full.
abbrev pub accepts : Datagram → Option Endpoint → Option Endpoint
accepts d none = none
accepts d (some ep) = some (if ep.queued == queue_max then ep else push_datagram d ep)

find_port-deliver :
    (p : ℕ) (d : Datagram) (eps : List Endpoint) (q : ℕ)
    → find_port q (deliver p d eps).0
      ≡ (if q == p then accepts d (find_port q eps) else find_port q eps)
unfolding find_port deliver
find_port-deliver p d [] q = ground arith
find_port-deliver p d (ep ∷ eps) q = elim (Bool-cases (ep.port == p)) [
  | inl y ↦ elim (Bool-cases (ep.queued == queue_max)) [
    | inl z ↦ elim (Bool-cases (q == p)) [
      | inl w ↦ let v : (ep.port == q) ≡ true = ground (arith, y, w) in rw (y, z, w, v) (rw z refl)
      | inr w ↦ let v : (ep.port == q) ≡ false = ground (arith, y, w) in rw (y, z, w, v) refl
    ]
    | inr z ↦ elim (Bool-cases (q == p)) [
      | inl w ↦ let v : (ep.port == q) ≡ true = ground (arith, y, w) in rw (y, z, w, v) (rw z refl)
      | inr w ↦ let v : (ep.port == q) ≡ false = ground (arith, y, w) in rw (y, z, w, v) refl
    ]
  ]
  | inr y ↦ elim (Bool-cases (ep.port == q)) [
    | inl v ↦ let w : (q == p) ≡ false = ground (arith, y, v) in rw (y, v, w) refl
    | inr v ↦ rw (y, v) (find_port-deliver p d eps q)
  ]
]

-- A host at `u` is at `u'` once the bytes have come from `src` and `port`: they are at the end of
-- the queue of `dst_port`, and nothing else is different.
abbrev pub Arrives : ℕ → ℕ → ℕ → List ℕ → Udp → Udp → Type 0
Arrives src port dst_port bytes u u' =
    let d : Datagram = record { src = src; src_port = port; bytes = bytes } in
    ((q : ℕ)
      → find_port q u'.endpoints
        ≡ (if q == dst_port then accepts d (find_port q u.endpoints) else find_port q u.endpoints))
    × (u'.udp_in ≡ (u.udp_in + 1) % 2 ^ 32)
    × (u'.udp_bad ≡ u.udp_bad)

-- The checks that a packet passes.
received-udp_input :
    (src dst : ℕ) (packet : List ℕ) (u : Udp) (ulen : ℕ)
    → leb udp_header (length packet) ≡ true
    → get_be16 packet 4 ≡ ulen
    → (ltb ulen udp_header || ltb (length packet) ulen) ≡ false
    → (inet_fold (udp_sum src dst ulen (take ulen packet)) == 0) ≡ true
    → udp_input true src dst packet u
      ≡ received src ulen packet (record u { udp_in = (u.udp_in + 1) % 2 ^ 32 })
unfolding udp_input
received-udp_input src dst packet u ulen a b c d = elim (Bool-cases (get_be16 packet 6 == 0)) [
  | inl z ↦ rw (a, b, c, z) refl
  | inr z ↦ rw (a, b, c, z, d) refl
]

module _ (src port dst dst_port : ℕ) (bytes : List ℕ) (small : All (λ b. b < 256) bytes)
    (short : length bytes ≤ udp_payload_max) where
  abbrev ulen : ℕ
  ulen = udp_header + length bytes

  pseudo_small : word_sum (pseudo src dst ulen) ≤ 2 ^ 20
  pseudo_small = omega arith

  abbrev header_sum : ℕ
  header_sum = word_sum (pseudo src dst ulen)

  abbrev packet_sum : ℕ
  packet_sum = word_sum (udp_bytes port dst_port 0 bytes)

  packet_sum_small : packet_sum ≤ 2 ^ 27
  packet_sum_small = let w = word_sum_le bytes small in omega (arith, w, short)

  packet_sum-stored :
      (sum : ℕ) → sum < 2 ^ 16 → word_sum (udp_bytes port dst_port sum bytes) ≡ packet_sum + sum
  packet_sum-stored sum h = omega (arith, h)

  -- The sum of the packet with the checksum `sum` in it.
  udp_sum-stored :
      (sum : ℕ)
      → sum < 2 ^ 16
      → udp_sum src dst ulen (udp_bytes port dst_port sum bytes) ≡ header_sum + packet_sum + sum
  udp_sum-stored sum h =
      let a : inet_sum 0 (pseudo src dst ulen) ≡ 0 + header_sum =
        inet_sum_lem 0 (pseudo src dst ulen) (omega (arith, pseudo_small)) in
      let w = packet_sum-stored sum h in
      let b =
        inet_sum_lem header_sum (udp_bytes port dst_port sum bytes)
          (omega (arith, w, packet_sum_small, pseudo_small, h)) in
      let a' : inet_sum 0 (pseudo src dst ulen) ≡ header_sum = omega (arith, a) in
      ap (λ n. inet_sum n (udp_bytes port dst_port sum bytes)) a' ∙ b ∙ omega (arith, w)

  -- The checksum that udp_send stores.
  abbrev stored : ℕ
  stored =
      let f = inet_fold (udp_sum src dst ulen (udp_bytes port dst_port 0 bytes)) in
      if f == 0 then 0xFFFF else f

  zero_sum : udp_sum src dst ulen (udp_bytes port dst_port 0 bytes) ≡ header_sum + packet_sum
  zero_sum = udp_sum-stored 0 (omega arith) ∙ omega arith

  stored_bounds : (stored < 2 ^ 16) × (0 < stored)
  stored_bounds = rw zero_sum (
      inet_fold-stored_bounds (header_sum + packet_sum)
        (omega (arith, packet_sum_small, pseudo_small)))

  checks : inet_fold (udp_sum src dst ulen (udp_bytes port dst_port stored bytes)) ≡ 0
  checks =
      ap inet_fold (udp_sum-stored stored stored_bounds.0)
      ∙ rw zero_sum (
          inet_fold-stored (header_sum + packet_sum)
            (omega (arith, packet_sum_small, pseudo_small)))

  -- A packet that udp_send gives for ports of 16 bits, and at most udp_payload_max bytes, passes
  -- the checks of udp_input at any host: where kmalloc gives memory, the endpoint with the port of
  -- its destination has the bytes, with the source's address and port, at the end of its queue
  -- unless that is full, and every other endpoint is as it was.
  pub udp_send-Arrives :
      port < 2 ^ 16
      → dst_port < 2 ^ 16
      → (u : Udp)
      → (packet : List ℕ) × (udp_send true src port dst dst_port bytes ≡ to_ip packet)
        × Arrives src port dst_port bytes u (udp_input true src dst packet u)
  unfolding udp_send udp_input
  udp_send-Arrives p p' u = (
    packet,
    rw not_long refl,
    (
      λ q.
          ap (λ v. find_port q v.endpoints) accepted
          ∙ ap (λ es. find_port q es)
              (same_delivery (get_be16 packet 2) dst_port (get_be16 packet 0) port
                (take (ulen - udp_header) (drop udp_header packet)) bytes dport sport whole)
          ∙ find_port-deliver dst_port d u.endpoints q,
      ap (λ v. v.udp_in) accepted,
      ap (λ v. v.udp_bad) accepted,
    ),
  )
    where
      d : Datagram
      d = record { src = src; src_port = port; bytes = bytes }

      same_delivery :
          (x x' y y' : ℕ) (z z' : List ℕ)
          → x ≡ x'
          → y ≡ y'
          → z ≡ z'
          → (deliver x (record { src = src; src_port = y; bytes = z }) u.endpoints).0
            ≡ (deliver x' (record { src = src; src_port = y'; bytes = z' }) u.endpoints).0
      same_delivery x x' y y' z z' e f g = rw (e, f, g) refl

      packet : List ℕ
      packet = udp_bytes port dst_port stored bytes

      not_long : ltb udp_payload_max (length bytes) ≡ false
      not_long = ground (arith, short)

      sport : get_be16 packet 0 ≡ port
      sport = omega (arith, p)

      dport : get_be16 packet 2 ≡ dst_port
      dport = omega (arith, p')

      len : get_be16 packet 4 ≡ ulen
      len = omega (arith, short)

      whole : take (ulen - udp_header) (drop udp_header packet) ≡ bytes
      whole = take-whole (ulen - udp_header) bytes (omega arith)

      u' : Udp
      u' = record u { udp_in = (u.udp_in + 1) % 2 ^ 32 }

      same : take ulen packet ≡ packet
      same = take-whole ulen packet (omega arith)

      passes : (inet_fold (udp_sum src dst ulen (take ulen packet)) == 0) ≡ true
      passes =
          let z = ap (λ bs. inet_fold (udp_sum src dst ulen bs)) same ∙ checks in ground (arith, z)

      accepted : udp_input true src dst packet u ≡ received src ulen packet u'
      accepted = received-udp_input src dst packet u ulen (ground arith) len (ground arith) passes
