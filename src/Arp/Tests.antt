-- ===== src/Arp/Tests.antt =====
-- Two hosts with empty caches, and a cache that knows one address.
use manios.Base.{◌∷◌, [], ℕ, refl, arith, Bool, true, false, List, [], replicate, none}
use manios.Arp.{Arp, Net, broadcast, unknown, arp_learn, arp_resolve}
use manios.Arp.Frame.{arp_frame}
use manios.Arp.Learn.{Learned, arp_learn-Learned}
use manios.Arp.Exchange.{Exchanged, IsHost, arp_input-Exchanged}
use manios.Arp.Resolve.{Answer, arp_resolve-Answer}

abbrev no_entries : Arp
no_entries = record {
  cache = replicate 16 (record { ifc = none; ip = 0; mac = []; last_used = 0 });
  woken = false;
}

abbrev host : ℕ → ℕ → Net
host byte ip = record {
  ifc = record {
    id = 0;
    mac = replicate 6 byte;
    ip = ip;
    rx_dropped = 0;
    tx_frames = 0;
    tx_errors = 0;
  };
  arp = no_entries;
  sent = [];
}

abbrev all_sent : List ℕ → Bool
all_sent f = true

host_one-IsHost : IsHost all_sent (host 1 10)
host_one-IsHost = record {
  mac_len = refl;
  ip_word = omega arith;
  ip_set = λ e. omega (arith, e);
  has_cache = omega arith;
}

host_two-IsHost : IsHost all_sent (host 2 20)
host_two-IsHost = record {
  mac_len = refl;
  ip_word = omega arith;
  ip_set = λ e. omega (arith, e);
  has_cache = omega arith;
}

arp_input-Exchanged_example :
    Exchanged all_sent
      (host 1 10)
      (host 2 20)
      (arp_frame 1 broadcast (replicate 6 1) 10 20 unknown)
      (arp_frame 2 (replicate 6 1) (replicate 6 2) 20 10 (replicate 6 1))
      5
      6
arp_input-Exchanged_example =
    arp_input-Exchanged all_sent (host 1 10) (host 2 20) broadcast unknown 5 6 host_one-IsHost
      host_two-IsHost refl refl

arp_learn-Learned_example :
    Learned 0 20
      (replicate 6 2)
      no_entries.cache
      (arp_learn 5 0 20 (replicate 6 2) no_entries).cache
arp_learn-Learned_example = arp_learn-Learned 5 0 20 (replicate 6 2) no_entries (omega arith)

arp_resolve-Answer_example : Answer 3 false 20 (host 1 10) (
    arp_resolve all_sent false
      (λ k. k)
      (λ k. record { arp = no_entries; woken = false } ∷ [])
      20
      (host 1 10))
arp_resolve-Answer_example =
    arp_resolve-Answer all_sent false (λ k. k)
      (λ k. record { arp = no_entries; woken = false } ∷ []) 20 (host 1 10)
