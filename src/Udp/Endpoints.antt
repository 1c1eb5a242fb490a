-- ===== src/Udp/Endpoints.antt =====
-- The ports of the endpoints: udp_open, and the bounds of the queues.
use mathlib.Core.Path.{subst}
use manios.Base.{
  ℕ, zero, suc, ◌+◌, ◌-◌, ◌%◌, ◌^◌, ◌≤◌, ◌<◌, ◌≡◌, ◌≢◌, refl, sym, ◌⊎◌, inl, inr, true, false, List,
  [], ◌∷◌, arith, ◌==◌, length, Bool-cases, All,
}
use manios.Udp.{
  Endpoint, Udp, queue_max, ephemeral_first, port_free, next_port, try_ports, Opened, opened,
  in_use, with_port, choose_port, udp_open,
}

abbrev HasBounds : Endpoint → Type 0
HasBounds ep =
    (0 < ep.port) × (ep.port < 2 ^ 16) × (ep.queued ≡ length ep.queue) × (ep.queued ≤ queue_max)

-- No two endpoints have the same port.
abbrev pub Distinct : List Endpoint → Type 0
Distinct [] = Unit
Distinct (ep ∷ eps) = (port_free ep.port eps ≡ true) × Distinct eps

pub record IsBound (u : Udp) : Type 0 where
  pub distinct : Distinct u.endpoints
  pub bounds : All HasBounds u.endpoints
  pub low : ephemeral_first ≤ u.next_ephemeral
  pub high : u.next_ephemeral ≤ 65535

-- The port that the k-th try from `next` on tests.
abbrev nth_port : ℕ → ℕ → ℕ
nth_port next k = ephemeral_first + (next - ephemeral_first + k) % 16384

-- The first free port of those that are tried.
abbrev Tries : ℕ → List Endpoint → ℕ → ℕ × ℕ → Type 0
Tries tries eps next result =
    (ephemeral_first ≤ result.1)
    × (result.1 ≤ 65535)
    × (((ephemeral_first ≤ result.0) × (result.0 ≤ 65535) × (port_free result.0 eps ≡ true))
        ⊎ ((result.0 ≡ 0) × ((k : ℕ) → k < tries → port_free (nth_port next k) eps ≡ false)))

try_ports-Tries :
    (tries : ℕ) (eps : List Endpoint) (next : ℕ)
    → ephemeral_first ≤ next
    → next ≤ 65535
    → Tries tries eps next (try_ports tries eps next)
unfolding try_ports
try_ports-Tries zero eps next l h = (l, h, inr (refl, λ k n. absurd (omega (arith, n))))
try_ports-Tries (suc tries) eps next l h = elim (Bool-cases (port_free next eps)) [
  | inl f ↦ rw f (ground (arith, l, h), ground (arith, l, h), inl (l, h, f))
  | inr f ↦
      let i =
        try_ports-Tries tries eps (next_port next) (ground (arith, l, h)) (ground (arith, l, h)) in
      rw f (i.0, i.1, further i.2 f)
]
  where
    further :
        ((ephemeral_first ≤ (try_ports tries eps (next_port next)).0)
            × ((try_ports tries eps (next_port next)).0 ≤ 65535)
            × (port_free (try_ports tries eps (next_port next)).0 eps ≡ true))
          ⊎ (((try_ports tries eps (next_port next)).0 ≡ 0)
              × ((k : ℕ) → k < tries → port_free (nth_port (next_port next) k) eps ≡ false))
        → port_free next eps ≡ false
        → ((ephemeral_first ≤ (try_ports tries eps (next_port next)).0)
            × ((try_ports tries eps (next_port next)).0 ≤ 65535)
            × (port_free (try_ports tries eps (next_port next)).0 eps ≡ true))
          ⊎ (((try_ports tries eps (next_port next)).0 ≡ 0)
              × ((k : ℕ) → k < suc tries → port_free (nth_port next k) eps ≡ false))
    further (inl x) f = inl x
    further (inr (z, all)) f = inr (z, by_try)
      where
        by_try : (k : ℕ) → k < suc tries → port_free (nth_port next k) eps ≡ false
        by_try zero n = let e : nth_port next 0 ≡ next = omega (arith, l, h) in rw e f
        by_try (suc k) n =
            let e : nth_port next (suc k) ≡ nth_port (next_port next) k = ground (arith, l, h) in
            rw e (all k (omega (arith, n)))

-- Whatever port is chosen, the result has it.
abbrev pub Opens : Udp → ℕ → Opened → Type 0
Opens u port result =
    ((p : ℕ) × (u' : Udp) × (result ≡ opened p u')
      × (0 < p)
      × (port ≢ 0 → p ≡ port)
      × (port ≡ 0 → (ephemeral_first ≤ p) × (p ≤ 65535))
      × (port_free p u.endpoints ≡ true)
      × (u'.endpoints ≡ record { port = p; queue = []; queued = 0 } ∷ u.endpoints)
      × IsBound u')
    ⊎ ((u' : Udp) × (result ≡ in_use u')
        × (u'.endpoints ≡ u.endpoints)
        × IsBound u'
        × (port ≢ 0 → port_free port u.endpoints ≡ false)
        × (port ≡ 0 → (q : ℕ) → ephemeral_first ≤ q → q ≤ 65535 → port_free q u.endpoints ≡ false))

Opens-with_port :
    (u : Udp) (port p next : ℕ)
    → IsBound u
    → 0 < p
    → p < 2 ^ 16
    → (port ≢ 0 → p ≡ port)
    → (port ≡ 0 → (ephemeral_first ≤ p) × (p ≤ 65535))
    → port_free p u.endpoints ≡ true
    → ephemeral_first ≤ next
    → next ≤ 65535
    → Opens u port (with_port u (p, next))
Opens-with_port u port zero next v z s e r f l h = absurd (omega (arith, z))
Opens-with_port u port (suc p) next v z s e r f l h = inl (
  suc p,
  record u {
    endpoints = record { port = suc p; queue = []; queued = 0 } ∷ u.endpoints;
    next_ephemeral = next;
  },
  refl,
  z,
  e,
  r,
  f,
  refl,
  record {
    distinct = (f, v.distinct);
    bounds = ((z, s, refl, omega arith), v.bounds);
    low = l;
    high = h;
  },
)

nonzero : (port : ℕ) → (port == 0) ≡ false → port ≢ 0
nonzero port z = ground (arith, z)

positive : (port : ℕ) → (port == 0) ≡ false → 0 < port
positive port z = ground (arith, z)

-- udp_open with memory and a port of 16 bits, where no two endpoints have the same port: it opens
-- the port asked for, or for 0 an ephemeral one, which no endpoint has; or it fails as the port is
-- in use, for 0 only where every ephemeral port is. The ports stay distinct.
pub udp_open-Opens :
    (u : Udp) (port : ℕ) → IsBound u → port < 2 ^ 16 → Opens u port (udp_open true port u)
unfolding udp_open
udp_open-Opens u port v s = elim (Bool-cases (port == 0)) [
  | inl z ↦ rw z (
      by_tries z (try_ports 16384 u.endpoints u.next_ephemeral)
        (try_ports-Tries 16384 u.endpoints u.next_ephemeral v.low v.high))
  | inr z ↦ elim (Bool-cases (port_free port u.endpoints)) [
    | inl f ↦
        let chosen : choose_port u port ≡ (port, u.next_ephemeral) = rw (z, f) refl in
        subst (λ r. Opens u port (with_port u r)) (sym chosen)
          (Opens-with_port u port port u.next_ephemeral v (positive port z) s (λ n. refl)
            (λ n. absurd (nonzero port z n)) f v.low v.high)
    | inr f ↦
        let chosen : choose_port u port ≡ (0, u.next_ephemeral) = rw (z, f) refl in
        subst (λ r. Opens u port (with_port u r)) (sym chosen)
          (inr (u, refl, refl, v, λ n. f, λ e q a b. absurd (nonzero port z e)))
  ]
]
  where
    by_tries :
        (port == 0) ≡ true
        → (r : ℕ × ℕ) → Tries 16384 u.endpoints u.next_ephemeral r
        → Opens u port (with_port u r)
    by_tries z (p, next) (l, h, inl (a, b, f)) =
        Opens-with_port u port p next v (omega (arith, a)) (omega (arith, b))
          (λ n. absurd (n (ground (arith, z)))) (λ n. (a, b)) f l h
    by_tries z (zero, next) (l, h, inr (e, all)) = inr (
      record u { next_ephemeral = next },
      refl,
      refl,
      record { distinct = v.distinct; bounds = v.bounds; low = l; high = h },
      λ n. absurd (n (ground (arith, z))),
      λ n q a b.
          let k = (q + 16384 - u.next_ephemeral) % 16384 in
          let y = v.low in
          let y' = v.high in
          let e' : nth_port u.next_ephemeral k ≡ q = omega (arith, a, b, y, y') in
          rw e' at (all k (omega arith)),
    )
    by_tries z (suc p, next) (l, h, inr (e, all)) = absurd (omega (arith, e))
