-- ===== src/Arp.antt =====
-- zkt/net/arp.c: the ARP cache and the frames that fill it. The cache is the list of its entries, a
-- network interface is its number with the fields of `struct netif` that arp.c uses, and
-- timer_ticks() is the argument `now`.
pub mod Frame
pub mod Slots
pub mod Learn
pub mod Exchange
pub mod Resolve
mod Tests
use manios.Arp.Frame.{arp_frame, get_be16, get_be32, eth_header, arp_packet, eth_alen}
use manios.Base.{
  ℕ, zero, suc, ◌+◌, ◌%◌, ◌^◌, Bool, true, false, not, ◌&&◌, ◌||◌, Option, none, some, List, [],
  ◌∷◌, ◌++◌, ltb, ◌==◌, if◌then◌else◌, length, take, drop, get_or, set, replicate,
}

pub record ArpEntry : Type 0 where
  -- none: unused
  pub ifc : Option ℕ
  pub ip : ℕ
  pub mac : List ℕ
  pub last_used : ℕ

pub record Netif : Type 0 where
  pub id : ℕ
  pub mac : List ℕ
  pub ip : ℕ
  pub rx_dropped : ℕ
  pub tx_frames : ℕ
  pub tx_errors : ℕ

-- The static state of arp.c: the cache, and whether a waitq_wake_all(&learned) is due.
pub record Arp : Type 0 where
  pub cache : List ArpEntry
  pub woken : Bool

pub is_ifc : Option ℕ → ℕ → Bool
is_ifc none id = false
is_ifc (some i) id = i == id

pub is_free : Option ℕ → Bool
is_free none = true
is_free (some i) = false

abbrev pub has_key : ArpEntry → ℕ → ℕ → Bool
has_key e id ip = is_ifc e.ifc id && e.ip == ip

abbrev pub next : Option ℕ → Option ℕ
next none = none
next (some k) = some (suc k)

-- The index of the entry.
pub lookup : List ArpEntry → ℕ → ℕ → Option ℕ
unfolding is_ifc
lookup [] id ip = none
lookup (e ∷ es) id ip =
    let rest = next (lookup es id ip) in if has_key e id ip then some 0 else rest

-- The loop of arp_learn: `e` is the entry so far, at `best`; the entries from `i` on are left.
pub find_slot : List ArpEntry → ℕ → ℕ → ArpEntry → ℕ
unfolding is_free
find_slot [] i best e = best
find_slot (c ∷ cs) i best e =
    if is_free e.ifc
    then best
    else if is_free c.ifc || ltb c.last_used e.last_used
    then find_slot cs (suc i) i c
    else find_slot cs (suc i) best e

-- An unused slot, else the least recently used.
pub slot_of : List ArpEntry → ℕ
unfolding find_slot
slot_of [] = 0
slot_of (e ∷ es) = find_slot (e ∷ es) 0 0 e

-- The entry that has the key, else a slot for it.
pub slot_for : List ArpEntry → Option ℕ → ℕ
unfolding slot_of
slot_for es none = slot_of es
slot_for es (some k) = k

pub arp_learn : ℕ → ℕ → ℕ → List ℕ → Arp → Arp
unfolding lookup slot_for
arp_learn now id ip mac s =
    let k = slot_for s.cache (lookup s.cache id ip) in
    record {
      cache =
          set s.cache k
            (record { ifc = some id; ip = ip; mac = take eth_alen mac; last_used = now });
      woken = true;
    }

-- The addresses in use, `max` at most.
pub arp_snapshot : List ArpEntry → ℕ → List (ℕ × List ℕ)
unfolding is_free
arp_snapshot [] max = []
arp_snapshot (e ∷ es) zero = []
arp_snapshot (e ∷ es) (suc n) =
    if is_free e.ifc then arp_snapshot es (suc n) else (e.ip, e.mac) ∷ arp_snapshot es n

-- Whether the frame was sent is what the driver says.
abbrev pub count_sent : Bool → Netif → Netif
count_sent true ifc = record ifc { tx_frames = (ifc.tx_frames + 1) % 2 ^ 32 }
count_sent false ifc = record ifc { tx_errors = (ifc.tx_errors + 1) % 2 ^ 32 }

abbrev pub broadcast : List ℕ
broadcast = replicate eth_alen 0xFF

abbrev pub unknown : List ℕ
unknown = replicate eth_alen 0

pub mac_at : List ArpEntry → ℕ → List ℕ
mac_at [] k = []
mac_at (e ∷ es) zero = e.mac
mac_at (e ∷ es) (suc k) = mac_at es k

-- `e->last_used = timer_ticks()`
pub touch : ℕ → ℕ → List ArpEntry → List ArpEntry
touch now k [] = []
touch now zero (e ∷ es) = record e { last_used = now } ∷ es
touch now (suc k) (e ∷ es) = e ∷ touch now k es

-- What arp_resolve gives after its attempts.
pub end_try : List ArpEntry → Option ℕ → Option (List ℕ)
unfolding mac_at
end_try es none = none
end_try es (some k) = some (mac_at es k)

-- The interface, the cache, and the frames given to the driver.
pub record Net : Type 0 where
  pub ifc : Netif
  pub arp : Arp
  pub sent : List (List ℕ)

-- What one waitq_sleep_until of arp_resolve ends with: the cache as other threads left it, and
-- whether one of them woke it before the deadline.
pub record Sleep : Type 0 where
  pub arp : Arp
  pub woken : Bool

-- `while (!lookup(ifc, ip) && waitq_sleep_until(&learned, deadline))`; after the last of the sleeps
-- the deadline has passed.
pub wait_known : List Sleep → ℕ → ℕ → Arp → Arp
wait_known [] id ip a = a
wait_known (w ∷ ws) id ip a =
    let rest = wait_known ws id ip w.arp in
    elim (lookup a.cache id ip) [ some j ↦ a | none ↦ if w.woken then rest else w.arp ]

-- `transmit` tells whether the driver sends a frame.
module _ (transmit : List ℕ → Bool) where
  pub send_arp : ℕ → List ℕ → ℕ → List ℕ → Net → Net
  send_arp op dst_mac target_ip target_mac n =
      let f = arp_frame op dst_mac n.ifc.mac n.ifc.ip target_ip target_mac in
      record n { ifc = count_sent (transmit f) n.ifc; sent = n.sent ++ (f ∷ []) }

  -- A frame for an interface with an address, of ARP for IPv4 over Ethernet.
  pub accepts : Net → List ℕ → Bool
  accepts n frame =
      let a = eth_header in
      not (ltb (length frame) (eth_header + arp_packet))
      && get_be16 frame a == 1
      && get_be16 frame (a + 2) == 0x0800
      && get_or frame (a + 4) 0 == eth_alen
      && get_or frame (a + 5) 0 == 4
      && not (n.ifc.ip == 0)

  abbrev pub is_known : Option ℕ → Bool
  is_known none = false
  is_known (some k) = true

  -- Refreshing what is known, or adding a sender that asked us.
  pub learn_sender : ℕ → ℕ → ℕ → List ℕ → Net → Net
  unfolding arp_learn
  learn_sender now sender_ip target_ip sender_mac n =
      let known = is_known (lookup n.arp.cache n.ifc.id sender_ip) in
      if not (sender_ip == 0) && (known || target_ip == n.ifc.ip)
      then record n { arp = arp_learn now n.ifc.id sender_ip sender_mac n.arp }
      else n

  -- The end of arp_input, with the fields of a frame that is accepted.
  pub handle_arp : ℕ → ℕ → ℕ → ℕ → List ℕ → Net → Net
  unfolding learn_sender send_arp
  handle_arp now op sender_ip target_ip sender_mac n =
      let n' = learn_sender now sender_ip target_ip sender_mac n in
      if op == 1 && target_ip == n.ifc.ip then send_arp 2 sender_mac sender_ip sender_mac n' else n'

  pub arp_input : ℕ → List ℕ → Net → Net
  unfolding accepts handle_arp
  arp_input now frame n =
      let a = eth_header in
      if not (accepts n frame)
      then record n { ifc = record (n.ifc) { rx_dropped = (n.ifc.rx_dropped + 1) % 2 ^ 32 } }
      else handle_arp now (get_be16 frame (a + 6)) (get_be32 frame (a + 14))
          (get_be32 frame (a + 24)) (take eth_alen (drop (a + 8) frame)) n

  -- arp_resolve with `tries` attempts left, the clock at attempt `k`, and the sleeps of the wait
  -- after it.
  pub try_resolve : ℕ → Bool → (ℕ → ℕ) → (ℕ → List Sleep) → ℕ → ℕ → Net → Option (List ℕ) × Net
  unfolding send_arp end_try wait_known
  try_resolve zero on_network clock sleeps k ip n =
      (end_try n.arp.cache (lookup n.arp.cache n.ifc.id ip), n)
  try_resolve (suc tries) on_network clock sleeps k ip n =
      let asked = send_arp 1 broadcast ip unknown n in
      let waited =
        try_resolve tries on_network clock sleeps (suc k) ip
          (record asked { arp = wait_known (sleeps k) n.ifc.id ip asked.arp }) in
      elim (lookup n.arp.cache n.ifc.id ip) [
        | some j ↦ (
          some (mac_at n.arp.cache j),
          record n { arp = record (n.arp) { cache = touch (clock k) j n.arp.cache } },
        )
        | none ↦ if on_network then (none, asked) else waited
      ]

  -- ARP_TRIES attempts.
  pub arp_resolve : Bool → (ℕ → ℕ) → (ℕ → List Sleep) → ℕ → Net → Option (List ℕ) × Net
  unfolding try_resolve
  arp_resolve on_network clock sleeps ip n = try_resolve 3 on_network clock sleeps 0 ip n
