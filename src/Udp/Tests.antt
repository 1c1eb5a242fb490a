-- ===== src/Udp/Tests.antt =====
-- A host with an endpoint on port 53 and one on the first ephemeral port.
use manios.Base.{ℕ, ◌≡◌, ◌<◌, refl, true, List, [], ◌∷◌, arith, All}
use manios.Udp.{Udp, udp_open, udp_input, udp_send, to_ip, inet_sum, inet_fold, fold_carries}
use manios.Udp.Endpoints.{IsBound, Opens, udp_open-Opens}
use manios.Udp.Deliver.{Arrives, udp_send-Arrives}

abbrev host : Udp
host = record {
  endpoints =
      record { port = 53; queue = []; queued = 0 }
      ∷ record { port = 49152; queue = []; queued = 0 }
      ∷ [];
  next_ephemeral = 49152;
  udp_in = 0;
  udp_bad = 0;
  udp_no_port = 0;
}

host-IsBound : IsBound host
host-IsBound = record {
  distinct = (refl, (refl, tt));
  bounds = (
    (omega arith, omega arith, refl, omega arith),
    ((omega arith, omega arith, refl, omega arith), tt),
  );
  low = omega arith;
  high = omega arith;
}

-- The one's complement sum of a header, from RFC 1071.
folds : inet_fold (inet_sum 0 (0 ∷ 1 ∷ 0xf2 ∷ 3 ∷ 0xf4 ∷ 0xf5 ∷ 0xf6 ∷ 0xf7 ∷ [])) ≡ 0x220d
unfolding inet_fold fold_carries inet_sum
folds = refl

abbrev bytes : List ℕ
bytes = 104 ∷ 105 ∷ 33 ∷ []

bytes_small : All (λ b. b < 256) bytes
bytes_small = (omega arith, (omega arith, (omega arith, tt)))

udp_open-Opens_example : Opens host 0 (udp_open true 0 host)
udp_open-Opens_example = udp_open-Opens host 0 host-IsBound (omega arith)

udp_send-Arrives_example :
    (packet : List ℕ) × (udp_send true 0x0a000001 4000 0x0a000002 53 bytes ≡ to_ip packet)
    × Arrives 0x0a000001 4000 53 bytes host (udp_input true 0x0a000001 0x0a000002 packet host)
udp_send-Arrives_example =
    udp_send-Arrives 0x0a000001 4000 0x0a000002 53 bytes bytes_small (omega arith) (omega arith)
      (omega arith) host
