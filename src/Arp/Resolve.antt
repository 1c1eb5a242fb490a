-- ===== src/Arp/Resolve.antt =====
-- What arp_resolve gives, and how often it asks.
use manios.Base.{
  ℕ, zero, suc, ◌+◌, ◌≤◌, ◌≡◌, refl, sym, ◌⊎◌, inl, inr, Bool, true, false, List, [], ◌∷◌, arith,
  Bool-cases, Option-cases, length, length-append, true-ne-false, Option, none, some,
}
use manios.Arp.{
  ArpEntry, Net, Sleep, wait_known, has_key, next, lookup, mac_at, touch, end_try, send_arp,
  try_resolve, arp_resolve, broadcast, unknown,
}
use manios.Arp.Frame.{arp_frame}
use manios.Arp.Learn.{find_mac, next-some, lookup-none}

-- What lookup finds is known before and after its use is noted.
lookup-mac_at :
    (es : List ArpEntry) (now id ip k : ℕ)
    → lookup es id ip ≡ some k
    → (find_mac es id ip ≡ some (mac_at es k))
      × (find_mac (touch now k es) id ip ≡ some (mac_at es k))
unfolding lookup find_mac mac_at touch
lookup-mac_at [] now id ip k h = absurd cc
lookup-mac_at (e ∷ es) now id ip k h = elim (Bool-cases (has_key e id ip)) [
  | inl y ↦ let g : some 0 ≡ some k = rw y at h in let z : k ≡ 0 = cc in rw z (rw y (refl, refl))
  | inr y ↦
      let g : next (lookup es id ip) ≡ some k = rw y at h in
      let (j, p, q) = next-some (lookup es id ip) k g in
      rw q (rw y (lookup-mac_at es now id ip j p))
]

-- An address that is given is the one known at the end, after `tries` requests at most; where none
-- is given, none is known, and all the requests were sent, or one by the network thread.
abbrev pub Answer : ℕ → Bool → ℕ → Net → Option (List ℕ) × Net → Type 0
Answer tries on_network ip n (some mac, n') =
    (find_mac n'.arp.cache n.ifc.id ip ≡ some mac) × (length n'.sent ≤ length n.sent + tries)
Answer tries on_network ip n (none, n') =
    (find_mac n'.arp.cache n.ifc.id ip ≡ none)
    × ((length n'.sent ≡ length n.sent + tries)
        ⊎ ((on_network ≡ true) × (length n'.sent ≡ suc (length n.sent))))

module _ (transmit : List ℕ → Bool) where
  id-send_arp :
      (op : ℕ) (dst : List ℕ) (ip : ℕ) (mac : List ℕ) (n : Net)
      → (send_arp transmit op dst ip mac n).ifc.id ≡ n.ifc.id
  unfolding send_arp
  id-send_arp op dst ip mac n =
      elim (Bool-cases (transmit (arp_frame op dst n.ifc.mac n.ifc.ip ip mac))) [
        | inl y ↦ rw y refl
        | inr y ↦ rw y refl
      ]

  sent-send_arp :
      (op : ℕ) (dst : List ℕ) (ip : ℕ) (mac : List ℕ) (n : Net)
      → length (send_arp transmit op dst ip mac n).sent ≡ suc (length n.sent)
  unfolding send_arp
  sent-send_arp op dst ip mac n =
      omega (arith, length-append n.sent (arp_frame op dst n.ifc.mac n.ifc.ip ip mac ∷ []))

  -- One request more.
  Answer-suc :
      (tries ip : ℕ) (n m : Net) (r : Option (List ℕ) × Net)
      → m.ifc.id ≡ n.ifc.id
      → length m.sent ≡ suc (length n.sent)
      → Answer tries false ip m r
      → Answer (suc tries) false ip n r
  Answer-suc tries ip n m (some mac, n') e l (a, b) = (rw (sym e) a, omega (arith, b, l))
  Answer-suc tries ip n m (none, n') e l (a, inl b) = (rw (sym e) a, inl (omega (arith, b, l)))
  Answer-suc tries ip n m (none, n') e l (a, inr b) = absurd (true-ne-false b.0 refl)

  end_try-Answer :
      (on_network : Bool) (ip : ℕ) (n : Net)
      → Answer 0 on_network ip n (end_try n.arp.cache (lookup n.arp.cache n.ifc.id ip), n)
  unfolding end_try
  end_try-Answer on_network ip n = elim (Option-cases (lookup n.arp.cache n.ifc.id ip)) [
    | inl e ↦ rw e (lookup-none n.arp.cache n.ifc.id ip e, inl (omega arith))
    | inr (k, e) ↦ rw e ((lookup-mac_at n.arp.cache 0 n.ifc.id ip k e).0, omega arith)
  ]

  try_resolve-Answer :
      (tries : ℕ) (on_network : Bool) (clock : ℕ → ℕ) (sleeps : ℕ → List Sleep) (k ip : ℕ) (n : Net)
      → Answer tries on_network ip n (try_resolve transmit tries on_network clock sleeps k ip n)
  unfolding try_resolve
  try_resolve-Answer zero on_network clock sleeps k ip n = end_try-Answer on_network ip n
  try_resolve-Answer (suc tries) on_network clock sleeps k ip n =
      elim (Option-cases (lookup n.arp.cache n.ifc.id ip)) [
        | inl e ↦ elim (Bool-cases on_network) [
          | inl y ↦
              rw (try_resolve, e, y)
                (
                  lookup-none n.arp.cache n.ifc.id ip e,
                  inr (refl, sent-send_arp 1 broadcast ip unknown n),
                )
          | inr y ↦
              let asked = send_arp transmit 1 broadcast ip unknown n in
              rw (try_resolve, e, y)
                (Answer-suc tries ip n
                  (record asked { arp = wait_known (sleeps k) n.ifc.id ip asked.arp }) _
                  (id-send_arp 1 broadcast ip unknown n) (sent-send_arp 1 broadcast ip unknown n)
                  (try_resolve-Answer tries false clock sleeps (suc k) ip
                    (record asked { arp = wait_known (sleeps k) n.ifc.id ip asked.arp })))
        ]
        | inr (j, e) ↦
            rw (try_resolve, e)
              ((lookup-mac_at n.arp.cache (clock k) n.ifc.id ip j e).1, omega arith)
      ]

  -- Whatever sleeps each wait has, and whatever the cache holds after each, arp_resolve returns. An address that it gives is the
  -- one that the cache has for the host at the end, and it has sent 3 requests at most. Where it
  -- gives none, the cache has none at the end, and it has sent 3 requests, or 1 on the network
  -- thread.
  pub arp_resolve-Answer :
      (on_network : Bool) (clock : ℕ → ℕ) (sleeps : ℕ → List Sleep) (ip : ℕ) (n : Net)
      → Answer 3 on_network ip n (arp_resolve transmit on_network clock sleeps ip n)
  unfolding arp_resolve
  arp_resolve-Answer on_network clock sleeps ip n =
      try_resolve-Answer 3 on_network clock sleeps 0 ip n
