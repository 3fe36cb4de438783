-- ===== src/Demux/Endpoint.antt =====
-- IPv6Endpoint of include/ofp/ipv6endpoint.h: an address of 16 bytes with a port, ordered by the
-- address first.
use libofp.Base.{
  ℕ, ◌≡◌, Bool, true, false, ◌&&◌, ◌||◌, List, leb, ◌==◌, bytes_eq, bytes_less, bytes_eq→eq,
  bytes_compare, bytes_eq_refl, bytes_eq_comm, arith, ◌⊎◌, ◌↔◌, ◌≢◌,
}

pub record Endpoint : Type 0 where
  pub addr : List ℕ
  pub port : ℕ

-- `operator==`
unfoldable pub endpoint_eq : Endpoint → Endpoint → Bool
endpoint_eq a b = bytes_eq a.addr b.addr && a.port == b.port

-- `operator<=`
unfoldable pub endpoint_le : Endpoint → Endpoint → Bool
endpoint_le a b = bytes_less a.addr b.addr || (bytes_eq a.addr b.addr && leb a.port b.port)

pub endpoint_eq_iff : (a b : Endpoint) → (endpoint_eq a b ≡ true) ↔ (a ≡ b)
unfolding endpoint_eq
endpoint_eq_iff a b = (
  λ h. ground (arith, bytes_eq→eq a.addr b.addr),
  λ e. rw e (ground (arith, bytes_eq_refl b.addr)),
)

-- Two endpoints are ordered one way or the other, and both ways only if they are equal.
pub endpoint_le_total :
    (a b : Endpoint)
    → ((endpoint_le a b ≡ true) × (endpoint_le b a ≡ false) × (a ≢ b))
      ⊎ ((endpoint_le a b ≡ false) × (endpoint_le b a ≡ true) × (a ≢ b))
      ⊎ ((endpoint_le a b ≡ true) × (a ≡ b))
unfolding endpoint_le
endpoint_le_total a b = ground (
  arith,
  bytes_compare a.addr b.addr,
  bytes_eq→eq a.addr b.addr,
  bytes_eq_comm a.addr b.addr,
  bytes_eq_refl a.addr,
)
