-- ===== src/Arp/Exchange.antt =====
-- Two hosts: a request is answered, and each learns the other's address.
use manios.Base.{
  ℕ, ◌^◌, ◌<◌, ◌≡◌, ◌≢◌, refl, ap, ◌∙◌, inl, inr, true, false, List, [], ◌∷◌, ◌++◌, ◌==◌,
  if◌then◌else◌, arith, Bool, Bool-cases, length, take-whole, take, drop, get_or, some,
}
use manios.Arp.{Net, accepts, send_arp, handle_arp, arp_input, arp_learn, lookup, is_known}
use manios.Arp.Frame.{arp_frame, get_be16, get_be32}
use manios.Arp.Learn.{find_mac, arp_learn-Learned}

-- A list of six bytes.
six :
    (m : List ℕ)
    → length m ≡ 6
    → (a : ℕ) × (b : ℕ) × (c : ℕ) × (d : ℕ) × (e : ℕ) × (f : ℕ) × (m ≡ a ∷ b ∷ c ∷ d ∷ e ∷ f ∷ [])
six (a ∷ b ∷ c ∷ d ∷ e ∷ f ∷ []) h = (a, b, c, d, e, f, refl)
six (a ∷ b ∷ c ∷ d ∷ e ∷ f ∷ g ∷ m) h = absurd (omega arith)
six [] h = absurd (omega arith)
six (a ∷ []) h = absurd (omega arith)
six (a ∷ b ∷ []) h = absurd (omega arith)
six (a ∷ b ∷ c ∷ []) h = absurd (omega arith)
six (a ∷ b ∷ c ∷ d ∷ []) h = absurd (omega arith)
six (a ∷ b ∷ c ∷ d ∷ e ∷ []) h = absurd (omega arith)

-- What a receiver reads of a frame.
record Reads (f : List ℕ) (op : ℕ) (mac : List ℕ) (ip target_ip : ℕ) : Type 0 where
  pub size : length f ≡ 42
  pub ethernet : get_be16 f 14 ≡ 1
  pub ipv4 : get_be16 f 16 ≡ 0x0800
  pub mac_len : get_or f 18 0 ≡ 6
  pub ip_len : get_or f 19 0 ≡ 4
  pub op_field : get_be16 f 20 ≡ op
  pub sender_mac : take 6 (drop 22 f) ≡ mac
  pub sender_ip : get_be32 f 28 ≡ ip
  pub target : get_be32 f 38 ≡ target_ip

arp_frame-Reads :
    (op : ℕ) (dst mac : List ℕ) (ip target_ip : ℕ) (target_mac : List ℕ)
    → length dst ≡ 6
    → length mac ≡ 6
    → length target_mac ≡ 6
    → op < 2 ^ 16
    → ip < 2 ^ 32
    → target_ip < 2 ^ 32
    → Reads (arp_frame op dst mac ip target_ip target_mac) op mac ip target_ip
unfolding arp_frame
arp_frame-Reads op dst mac ip tip tmac ld lm lt ho hi ht =
    let (a, b, c, d, e, f, p) = six dst ld in
    let (a1, b1, c1, d1, e1, f1, p1) = six mac lm in
    let (a2, b2, c2, d2, e2, f2, p2) = six tmac lt in
    rw (p, p1, p2)
      (record {
        size = refl;
        ethernet = refl;
        ipv4 = refl;
        mac_len = refl;
        ip_len = refl;
        op_field = omega arith;
        sender_mac = refl;
        sender_ip = omega arith;
        target = omega arith;
      })

module _ (transmit : List ℕ → Bool) where
  accepts-Reads :
      (n : Net) (f mac : List ℕ) (op ip target_ip : ℕ)
      → Reads f op mac ip target_ip
      → n.ifc.ip ≢ 0
      → accepts transmit n f ≡ true
  unfolding accepts
  accepts-Reads n f mac op ip target_ip r h =
      let own : (n.ifc.ip == 0) ≡ false = ground (arith, h) in
      rw (r.size, r.ethernet, r.ipv4, r.mac_len, r.ip_len, own) refl

  -- What the fields of a frame for this host lead to.
  abbrev after_frame : ℕ → ℕ → ℕ → List ℕ → Net → Net
  after_frame now op ip mac n =
      let n' = record n { arp = arp_learn now n.ifc.id ip mac n.arp } in
      if op == 1 then send_arp transmit 2 mac ip mac n' else n'

  handle_arp_asked :
      (now op ip : ℕ) (mac : List ℕ) (n : Net)
      → ip ≢ 0
      → handle_arp transmit now op ip n.ifc.ip mac n ≡ after_frame now op ip mac n
  unfolding handle_arp
  handle_arp_asked now op ip mac n h =
      let other : (ip == 0) ≡ false = ground (arith, h) in
      let own : (n.ifc.ip == n.ifc.ip) ≡ true = ground arith in
      elim (Bool-cases (op == 1)) [
        | inl y ↦ elim (Bool-cases (is_known transmit (lookup n.arp.cache n.ifc.id ip))) [
          | inl z ↦ rw (y, other, z, own) refl
          | inr z ↦ rw (y, other, z, own) refl
        ]
        | inr y ↦ elim (Bool-cases (is_known transmit (lookup n.arp.cache n.ifc.id ip))) [
          | inl z ↦ rw (y, other, z) refl
          | inr z ↦ rw (y, other, z, own) refl
        ]
      ]

  arp_input-Reads :
      (now op ip : ℕ) (f mac : List ℕ) (n : Net)
      → Reads f op mac ip n.ifc.ip
      → n.ifc.ip ≢ 0
      → ip ≢ 0
      → arp_input transmit now f n ≡ after_frame now op ip mac n
  unfolding arp_input
  arp_input-Reads now op ip f mac n r h h' =
      rw (accepts-Reads n f mac op ip n.ifc.ip r h, r.op_field, r.sender_ip, r.target, r.sender_mac)
        (handle_arp_asked now op ip mac n h')

  -- What each host has after a request and its reply: the other's address, and one frame sent.
  pub record Exchanged (a b : Net) (request reply : List ℕ) (now later : ℕ) : Type 0 where
    pub answered : (arp_input transmit now request b).sent ≡ b.sent ++ (reply ∷ [])
    pub asked_known :
        find_mac (arp_input transmit now request b).arp.cache b.ifc.id a.ifc.ip ≡ some a.ifc.mac
    pub asker_known :
        find_mac (arp_input transmit later reply a).arp.cache a.ifc.id b.ifc.ip ≡ some b.ifc.mac
    pub no_more : (arp_input transmit later reply a).sent ≡ a.sent

  -- An interface with an address, and a cache with entries.
  pub record IsHost (n : Net) : Type 0 where
    pub mac_len : length n.ifc.mac ≡ 6
    pub ip_word : n.ifc.ip < 2 ^ 32
    pub ip_set : n.ifc.ip ≢ 0
    pub has_cache : 0 < length n.arp.cache

  -- Where host a asks for the address of host b, both with addresses of their own: b answers the
  -- request with one frame and knows a's address, and a, given that frame, knows b's and sends
  -- nothing.
  pub arp_input-Exchanged :
      (a b : Net) (dst unknown : List ℕ) (now later : ℕ)
      → IsHost a
      → IsHost b
      → length dst ≡ 6
      → length unknown ≡ 6
      → Exchanged a b
          (arp_frame 1 dst a.ifc.mac a.ifc.ip b.ifc.ip unknown)
          (arp_frame 2 a.ifc.mac b.ifc.mac b.ifc.ip a.ifc.ip a.ifc.mac)
          now
          later
  unfolding send_arp
  arp_input-Exchanged a b dst unknown now later ha hb ld lu =
      let q =
        arp_frame-Reads 1 dst a.ifc.mac a.ifc.ip b.ifc.ip unknown ld ha.mac_len lu (omega arith)
          ha.ip_word hb.ip_word in
      let r =
        arp_frame-Reads 2 a.ifc.mac b.ifc.mac b.ifc.ip a.ifc.ip a.ifc.mac ha.mac_len hb.mac_len
          ha.mac_len (omega arith) hb.ip_word ha.ip_word in
      let at_b = arp_input-Reads now 1 a.ifc.ip _ a.ifc.mac b q hb.ip_set ha.ip_set in
      let at_a = arp_input-Reads later 2 b.ifc.ip _ b.ifc.mac a r ha.ip_set hb.ip_set in
      let known_b = arp_learn-Learned now b.ifc.id a.ifc.ip a.ifc.mac b.arp hb.has_cache in
      let known_a = arp_learn-Learned later a.ifc.id b.ifc.ip b.ifc.mac a.arp ha.has_cache in
      record {
        answered = rw at_b refl;
        asked_known =
            rw at_b (known_b.known ∙ ap some (take-whole 6 a.ifc.mac (omega (arith, ha.mac_len))));
        asker_known =
            rw at_a (known_a.known ∙ ap some (take-whole 6 b.ifc.mac (omega (arith, hb.mac_len))));
        no_more = rw at_a refl;
      }
