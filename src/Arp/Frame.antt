-- ===== src/Arp/Frame.antt =====
-- The bytes of an ARP frame: zkt/net/net.h and send_arp of zkt/net/arp.c.
use manios.Base.{ℕ, ◌+◌, ◌*◌, ◌/◌, ◌%◌, ◌^◌, List, [], ◌∷◌, ◌++◌, get_or}

abbrev pub eth_alen : ℕ
eth_alen = 6

abbrev pub eth_header : ℕ
eth_header = 14

abbrev pub arp_packet : ℕ
arp_packet = 28

abbrev pub get_be16 : List ℕ → ℕ → ℕ
get_be16 bs i = get_or bs i 0 * 2 ^ 8 + get_or bs (i + 1) 0

abbrev pub get_be32 : List ℕ → ℕ → ℕ
get_be32 bs i =
    get_or bs i 0 * 2 ^ 24
    + get_or bs (i + 1) 0 * 2 ^ 16
    + get_or bs (i + 2) 0 * 2 ^ 8
    + get_or bs (i + 3) 0

abbrev pub put_be16 : ℕ → List ℕ
put_be16 v = v / 2 ^ 8 % 256 ∷ v % 256 ∷ []

abbrev pub put_be32 : ℕ → List ℕ
put_be32 v = v / 2 ^ 24 % 256 ∷ v / 2 ^ 16 % 256 ∷ v / 2 ^ 8 % 256 ∷ v % 256 ∷ []

-- The frame that send_arp builds, from its start to its end.
unfoldable pub arp_frame : ℕ → List ℕ → List ℕ → ℕ → ℕ → List ℕ → List ℕ
arp_frame op dst_mac mac ip target_ip target_mac =
    dst_mac
    ++ mac
    ++ put_be16 0x0806
    ++ put_be16 1
    ++ put_be16 0x0800
    ++ (eth_alen ∷ 4 ∷ [])
    ++ put_be16 op
    ++ mac
    ++ put_be32 ip
    ++ target_mac
    ++ put_be32 target_ip
