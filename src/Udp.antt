-- ===== src/Udp.antt =====
-- zkt/net/udp.c, and the checksum of zkt/net/netif.c: UDP endpoints. The endpoints and the
-- datagrams of each are lists. A packet is the list of its bytes; udp_send gives the one that it
-- hands to ip_output, whose source address is an argument.
pub mod Checksum
pub mod Deliver
pub mod Endpoints
mod Tests
use manios.Base.{
  ℕ, zero, suc, ◌+◌, ◌-◌, ◌*◌, ◌/◌, ◌%◌, ◌^◌, Bool, true, false, not, ◌&&◌, ◌||◌, Option, none,
  some, List, [], ◌∷◌, ◌++◌, ltb, leb, ◌==◌, if◌then◌else◌, length, take, drop,
}
use manios.Arp.Frame.{get_be16, put_be16, put_be32}

unfoldable pub inet_sum : ℕ → List ℕ → ℕ
inet_sum sum [] = sum
inet_sum sum (a ∷ []) = (sum + a * 2 ^ 8) % 2 ^ 32
inet_sum sum (a ∷ b ∷ bytes) = inet_sum ((sum + (a * 2 ^ 8 + b)) % 2 ^ 32) bytes

-- `while (sum >> 16)`, three rounds at most.
unfoldable pub fold_carries : ℕ → ℕ → ℕ
fold_carries zero sum = sum
fold_carries (suc fuel) sum =
    let rest = fold_carries fuel (sum % 2 ^ 16 + sum / 2 ^ 16) in
    if sum / 2 ^ 16 == 0 then sum else rest

-- `~sum` on 16 bits.
unfoldable pub inet_fold : ℕ → ℕ
unfolding fold_carries
inet_fold sum = 2 ^ 16 - 1 - fold_carries 3 sum % 2 ^ 16

pub record Datagram : Type 0 where
  pub src : ℕ
  pub src_port : ℕ
  pub bytes : List ℕ

pub record Endpoint : Type 0 where
  pub port : ℕ
  pub queue : List Datagram
  pub queued : ℕ

-- The static variables, and the counters of net_stats.
pub record Udp : Type 0 where
  pub endpoints : List Endpoint
  pub next_ephemeral : ℕ
  pub udp_in : ℕ
  pub udp_bad : ℕ
  pub udp_no_port : ℕ

abbrev pub udp_header : ℕ
udp_header = 8

abbrev pub udp_payload_max : ℕ
udp_payload_max = 1500 - 20 - udp_header

abbrev pub queue_max : ℕ
queue_max = 16

abbrev pub ephemeral_first : ℕ
ephemeral_first = 49152

unfoldable pub find_port : ℕ → List Endpoint → Option Endpoint
find_port port [] = none
find_port port (ep ∷ eps) =
    let rest = find_port port eps in if ep.port == port then some ep else rest

abbrev pub port_free : ℕ → List Endpoint → Bool
port_free port [] = true
port_free port (ep ∷ eps) = not (ep.port == port) && port_free port eps

abbrev pub next_port : ℕ → ℕ
next_port p = if p == 65535 then ephemeral_first else (p + 1) % 2 ^ 16

-- The loop over the ephemeral ports, with its tries left: the port, or 0, and next_ephemeral.
unfoldable pub try_ports : ℕ → List Endpoint → ℕ → ℕ × ℕ
try_ports zero eps next = (0, next)
try_ports (suc tries) eps next =
    let rest = try_ports tries eps (next_port next) in
    if port_free next eps then (next, next_port next) else rest

pub data Opened : Type 0 where
  opened : ℕ → Udp → Opened
  no_memory : Udp → Opened
  in_use : Udp → Opened

abbrev pub with_port : Udp → ℕ × ℕ → Opened
with_port u (zero, next) = in_use (record u { next_ephemeral = next })
with_port u (suc p, next) = opened (suc p) (record u {
  endpoints = record { port = suc p; queue = []; queued = 0 } ∷ u.endpoints;
  next_ephemeral = next;
})

abbrev pub choose_port : Udp → ℕ → ℕ × ℕ
choose_port u port =
    if port == 0
    then try_ports (65536 - ephemeral_first) u.endpoints u.next_ephemeral
    else (if port_free port u.endpoints then port else 0, u.next_ephemeral)

unfoldable pub udp_open : Bool → ℕ → Udp → Opened
unfolding try_ports
udp_open false port u = no_memory u
udp_open true port u = with_port u (choose_port u port)

-- The endpoint with that port leaves the list, with its datagrams.
unfoldable pub close_port : ℕ → List Endpoint → List Endpoint
close_port port [] = []
close_port port (ep ∷ eps) =
    let rest = close_port port eps in if ep.port == port then eps else ep ∷ rest

unfoldable pub udp_close : ℕ → Udp → Udp
unfolding close_port
udp_close port u = record u { endpoints = close_port port u.endpoints }

abbrev pub pseudo : ℕ → ℕ → ℕ → List ℕ
pseudo src dst ulen = put_be32 src ++ put_be32 dst ++ (0 ∷ 17 ∷ []) ++ put_be16 ulen

abbrev pub udp_sum : ℕ → ℕ → ℕ → List ℕ → ℕ
udp_sum src dst ulen packet = inet_sum (inet_sum 0 (pseudo src dst ulen)) packet

abbrev pub push_datagram : Datagram → Endpoint → Endpoint
push_datagram d ep = record ep { queue = ep.queue ++ (d ∷ []); queued = (ep.queued + 1) % 2 ^ 32 }

-- The datagram at the end of the queue of its port, unless that is full; whether there is the port.
unfoldable pub deliver : ℕ → Datagram → List Endpoint → List Endpoint × Bool
deliver port d [] = ([], false)
deliver port d (ep ∷ eps) =
    let rest = deliver port d eps in
    if ep.port == port
    then ((if ep.queued == queue_max then ep else push_datagram d ep) ∷ eps, true)
    else (ep ∷ rest.0, rest.1)

abbrev pub bad : Udp → Udp
bad u = record u { udp_bad = (u.udp_bad + 1) % 2 ^ 32 }

abbrev pub received : ℕ → ℕ → List ℕ → Udp → Udp
received src ulen packet u =
    let d : Datagram = record {
      src = src;
      src_port = get_be16 packet 0;
      bytes = take (ulen - udp_header) (drop udp_header packet);
    } in
    let r = deliver (get_be16 packet 2) d u.endpoints in
    record u {
      endpoints = r.0;
      udp_no_port = if r.1 then u.udp_no_port else (u.udp_no_port + 1) % 2 ^ 32;
    }

-- Whether kmalloc gives memory for the datagram is `memory`.
unfoldable pub udp_input : Bool → ℕ → ℕ → List ℕ → Udp → Udp
unfolding inet_sum inet_fold deliver
udp_input memory src dst packet u =
    let u' = record u { udp_in = (u.udp_in + 1) % 2 ^ 32 } in
    let ulen = if leb udp_header (length packet) then get_be16 packet 4 else 0 in
    if ltb ulen udp_header || ltb (length packet) ulen
    then bad u'
    else if not (get_be16 packet 6 == 0)
        && not (inet_fold (udp_sum src dst ulen (take ulen packet)) == 0)
    then bad u'
    else if not memory
    then u'
    else received src ulen packet u'

abbrev pub udp_bytes : ℕ → ℕ → ℕ → List ℕ → List ℕ
udp_bytes port dst_port sum bytes =
    put_be16 port
    ++ put_be16 dst_port
    ++ put_be16 (udp_header + length bytes)
    ++ put_be16 sum
    ++ bytes

pub data Sent : Type 0 where
  to_ip : List ℕ → Sent
  invalid no_buffer : Sent

-- The source address is what ip_source_for gives.
unfoldable pub udp_send : Bool → ℕ → ℕ → ℕ → ℕ → List ℕ → Sent
unfolding inet_sum inet_fold
udp_send memory src port dst dst_port bytes =
    let sum =
      inet_fold (udp_sum src dst (udp_header + length bytes) (udp_bytes port dst_port 0 bytes)) in
    if ltb udp_payload_max (length bytes)
    then invalid
    else if not memory
    then no_buffer
    else to_ip (udp_bytes port dst_port (if sum == 0 then 0xFFFF else sum) bytes)

-- One round of udp_recv: the first datagram with as much of it as fits, or none, for which it
-- sleeps or times out.
unfoldable pub udp_recv : ℕ → Endpoint → Option (ℕ × ℕ × List ℕ) × Endpoint
udp_recv len ep = take_first ep.queue
  where
    take_first : List Datagram → Option (ℕ × ℕ × List ℕ) × Endpoint
    take_first [] = (none, ep)
    take_first (d ∷ ds) = (
      some (
        d.src,
        d.src_port,
        take (if ltb (length d.bytes) len then length d.bytes else len) d.bytes,
      ),
      record ep { queue = ds; queued = (ep.queued + 2 ^ 32 - 1) % 2 ^ 32 },
    )
