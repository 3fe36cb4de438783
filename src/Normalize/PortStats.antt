-- ===== src/Normalize/PortStats.antt =====
-- Port statistics in src/ofp/normalize.cpp: what each element becomes.
use libofp.Base.{
  bytes16, bytes32, ℕ, ◌+◌, ◌-◌, ◌≡◌, List, [], ◌∷◌, ◌++◌, some, length, drop, ltb, refl, sym, ap,
  ◌∙◌, arith, replicate, false, length-append, length-drop,
}
use libofp.Memory.{load, memcpy, memmove}
use libofp.Memory.Fields.{
  flat, load-field, flat-pair, flat-split, field, cut, length-field, length-flat, flat-between,
  cut-between, memcpy-flat, load-flat, memmove-flat, field-append,
}
use libofp.Normalize.{
  insert_at, norm_port_number_v1, ethernet_stats, norm_port_stats_v4, norm_port_stats_v1,
  norm_port_stats_v2,
}
use libofp.ProtocolRange.{big16}
use libofp.Normalize.Edits.{insert_at-flat, insert_at-behind, memcpy-head, load-head, big16-head}

-- Port statistics of version 4 by the layout of version 5: the length, what was padding, the port
-- number, the duration, the counters, and the counters of errors as a property.
unfoldable pub port_stats_v5 : List ℕ → List ℕ
port_stats_v5 r = flat (
    bytes16 120
    ∷ field 6 2 r
    ∷ field 0 4 r
    ∷ field 104 8 r
    ∷ field 8 64 r
    ∷ ethernet_stats (field 72 32 r)
    ∷ [])

-- In version 1 the port number has 16 bits, with padding.
unfoldable pub with_port32 : List ℕ → List ℕ
with_port32 r = bytes32 (norm_port_number_v1 (big16 r 0)) ++ drop 4 r

module _ (fresh : ℕ → List ℕ) (fresh_length : (n : ℕ) → length (fresh n) ≡ n) where
  norm_port_stats_v4-flat :
      (pre port p q c d e f dur rest : List ℕ)
      → length port ≡ 4
      → length p ≡ 2
      → length q ≡ 2
      → length c ≡ 8
      → length d ≡ 56
      → length e ≡ 8
      → length f ≡ 24
      → length dur ≡ 8
      → norm_port_stats_v4 fresh
          (flat (pre ∷ port ∷ (p ++ q) ∷ c ∷ d ∷ e ∷ f ∷ dur ∷ rest ∷ []))
          (length pre)
        ≡ some (
          flat
              (pre ∷ bytes16 120 ∷ q ∷ port ∷ dur ∷ (c ++ d) ∷ ethernet_stats (e ++ f) ∷ rest ∷ []),
          length pre + 120,
        )
  unfolding norm_port_stats_v4 ethernet_stats
  norm_port_stats_v4-flat pre port p q c d e f dur rest l0 lp lq lc ld le lf lt =
      let at : ℕ = length pre in
      let pad = p ++ q in
      let eth = ethernet_stats (e ++ f) in
      let l4 : length pad ≡ 4 = omega (arith, length-append p q) in
      let room : ltb (length (flat (pre ∷ port ∷ pad ∷ c ∷ d ∷ e ∷ f ∷ dur ∷ rest ∷ [])) - at) 112
          ≡ false =
        ground (arith, length-flat (pre ∷ port ∷ pad ∷ c ∷ d ∷ e ∷ f ∷ dur ∷ rest ∷ [])) in
      let s0 : insert_at (at + 112) (fresh 8)
            (flat (pre ∷ port ∷ pad ∷ c ∷ d ∷ e ∷ f ∷ dur ∷ rest ∷ []))
          ≡ some (flat (pre ∷ port ∷ pad ∷ c ∷ d ∷ e ∷ f ∷ dur ∷ fresh 8 ∷ rest ∷ [])) =
        insert_at-flat 8 (at + 112) (fresh 8) (pre ∷ port ∷ pad ∷ c ∷ d ∷ e ∷ f ∷ dur ∷ rest ∷ [])
          (omega arith) (omega arith) in
      let fs = pre ∷ port ∷ pad ∷ c ∷ d ∷ e ∷ f ∷ dur ∷ fresh 8 ∷ rest ∷ [] in
      let s1 : load at 4 (flat fs) ≡ some port =
        load-field 1 at 4 port (drop 2 fs) fs refl (omega arith) l0 in
      let s2 : load (at + 4) 4 (flat fs) ≡ some pad =
        load-field 2 (at + 4) 4 pad (drop 3 fs) fs refl (omega arith) l4 in
      let s3 : memcpy at pad (flat fs) ≡ some (flat (pre ∷ pad ∷ drop 2 fs)) =
        memcpy-flat 1 1 at pad fs (omega arith) (omega arith) in
      let swapped = pre ∷ pad ∷ port ∷ drop 3 fs in
      let s4 : memcpy (at + 4) port (flat (pre ∷ pad ∷ drop 2 fs)) ≡ some (flat swapped) =
        memcpy-flat 2 1 (at + 4) port (pre ∷ pad ∷ drop 2 fs) (omega arith) (omega arith) in
      let s5 : load (at + 72) 32 (flat swapped) ≡ some (e ++ f) =
        load-flat 5 2 (at + 72) 32 swapped (omega arith) (omega arith) ∙ ap some (flat-pair e f) in
      let shifted = pre ∷ pad ∷ port ∷ c ∷ (c ++ d) ∷ drop 6 fs in
      let cd : length (c ++ d) ≡ 64 = omega (arith, length-append c d) in
      let s6 : memmove (at + 16) (at + 8) 64 (flat swapped) ≡ some (flat shifted) =
        memmove-flat 3 2 (at + 8) 64 4 2 (at + 16) swapped (omega arith) (omega arith) (omega arith)
          (omega arith) (omega arith)
        ∙ ap (λ l. some (flat (pre ∷ pad ∷ port ∷ c ∷ l ∷ drop 6 fs))) (flat-pair c d) in
      let s7 : load (at + 104) 8 (flat shifted) ≡ some dur =
        load-field 6 (at + 104) 8 dur (drop 8 fs) shifted refl (omega arith) lt in
      let timed = pre ∷ pad ∷ port ∷ dur ∷ (c ++ d) ∷ drop 6 fs in
      let s8 : memcpy (at + 8) dur (flat shifted) ≡ some (flat timed) =
        memcpy-flat 3 1 (at + 8) dur shifted (omega arith) (omega arith) in
      let s9 : memcpy (at + 80) eth (flat timed)
          ≡ some (flat (pre ∷ pad ∷ port ∷ dur ∷ (c ++ d) ∷ eth ∷ rest ∷ [])) =
        memcpy-flat 5 3 (at + 80) eth timed (omega arith)
          (omega (arith, length-append e f, fresh_length 8)) in
      let complete = pre ∷ p ∷ q ∷ port ∷ dur ∷ (c ++ d) ∷ eth ∷ rest ∷ [] in
      let split : flat (pre ∷ pad ∷ drop 3 complete) ≡ flat complete =
        flat-split 1 p q (pre ∷ pad ∷ drop 3 complete) (drop 3 complete) refl in
      let s10 : memcpy at (bytes16 120) (flat complete)
          ≡ some (flat (pre ∷ bytes16 120 ∷ drop 2 complete)) =
        memcpy-flat 1 1 at (bytes16 120) complete (omega arith) (omega arith) in
      rw (room, s0, s1, s2, s3, s4, s5, s6, s7, s8, s9, split, s10) refl

  pub norm_port_stats_v4-element :
      (pre r rest : List ℕ)
      → length r ≡ 112
      → norm_port_stats_v4 fresh (pre ++ (r ++ rest)) (length pre)
        ≡ some (pre ++ (port_stats_v5 r ++ rest), length pre + length (port_stats_v5 r))
  unfolding cut port_stats_v5 ethernet_stats
  norm_port_stats_v4-element pre r rest h =
      let l0 = length-field 0 4 r (omega arith) in
      let l6 = length-field 6 2 r (omega arith) in
      let l104 = length-field 104 8 r (omega arith) in
      let l8_64 = length-field 8 64 r (omega arith) in
      let l72_32 = length-field 72 32 r (omega arith) in
      let fields = λ (pad : List ℕ). flat (
        pre
        ∷ field 0 4 r
        ∷ pad
        ∷ field 8 8 r
        ∷ field 16 56 r
        ∷ field 72 8 r
        ∷ field 80 24 r
        ∷ field 104 8 r
        ∷ rest
        ∷ []) in
      let start : pre ++ (r ++ rest) ≡ fields (field 4 4 r) =
        cut-between pre rest (4 ∷ 4 ∷ 8 ∷ 56 ∷ 8 ∷ 24 ∷ 8 ∷ []) r (omega arith) in
      let new =
        bytes16 120
        ∷ field 6 2 r
        ∷ field 0 4 r
        ∷ field 104 8 r
        ∷ field 8 64 r
        ∷ ethernet_stats (field 72 32 r)
        ∷ [] in
      let size : length (flat new) ≡ 120 = omega (arith, length-flat new) in
      ap (λ l. norm_port_stats_v4 fresh l (length pre))
        (start ∙ ap fields (sym (field-append 4 2 2 r)))
      ∙ norm_port_stats_v4-flat pre (field 0 4 r) (field 4 2 r) (field 6 2 r) (field 8 8 r)
          (field 16 56 r) (field 72 8 r) (field 80 24 r) (field 104 8 r) rest l0
          (length-field 4 2 r (omega arith)) l6 (length-field 8 8 r (omega arith))
          (length-field 16 56 r (omega arith)) (length-field 72 8 r (omega arith))
          (length-field 80 24 r (omega arith)) l104
      ∙ rw (field-append 8 8 56 r, field-append 72 8 24 r, flat-between pre rest new, size) refl

  -- Earlier statistics have no duration.
  pub norm_port_stats_v2-element :
      (pre r rest : List ℕ)
      → length r ≡ 104
      → norm_port_stats_v2 fresh (pre ++ (r ++ rest)) (length pre)
        ≡ some (
          pre ++ (port_stats_v5 (r ++ replicate 8 0) ++ rest),
          length pre + length (port_stats_v5 (r ++ replicate 8 0)),
        )
  unfolding norm_port_stats_v2
  norm_port_stats_v2-element pre r rest h =
      let room : ltb (length (pre ++ (r ++ rest)) - length pre) 104 ≡ false =
        ground (arith, length-append pre (r ++ rest), length-append r rest) in
      rw (room, insert_at-behind pre r rest (replicate 8 0) 104 h)
        (norm_port_stats_v4-element pre (r ++ replicate 8 0) rest
          (omega (arith, length-append r (replicate 8 0))))

  pub norm_port_stats_v1-element :
      (pre r rest : List ℕ)
      → length r ≡ 104
      → norm_port_stats_v1 fresh (pre ++ (r ++ rest)) (length pre)
        ≡ some (
          pre ++ (port_stats_v5 (with_port32 r ++ replicate 8 0) ++ rest),
          length pre + length (port_stats_v5 (with_port32 r ++ replicate 8 0)),
        )
  unfolding norm_port_stats_v1 with_port32
  norm_port_stats_v1-element pre r rest h =
      let new = bytes32 (norm_port_number_v1 (big16 r 0)) ++ drop 4 r in
      let room : ltb (length (pre ++ (r ++ rest)) - length pre) 104 ≡ false =
        ground (arith, length-append pre (r ++ rest), length-append r rest) in
      let size : length new ≡ 104 = omega (arith, length-drop 4 r) in
      rw
        (
          room,
          load-head pre r rest 2 (omega arith),
          big16-head r,
          memcpy-head pre r rest (bytes32 (norm_port_number_v1 (big16 r 0))) 4 refl (omega arith),
          insert_at-behind pre new rest (replicate 8 0) 104 size,
        )
        (norm_port_stats_v4-element pre (new ++ replicate 8 0) rest
          (omega (arith, length-append new (replicate 8 0))))
