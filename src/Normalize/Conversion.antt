-- ===== src/Normalize/Conversion.antt =====
-- Multipart replies in src/ofp/normalize.cpp as a whole: every element is converted, in order.
use mathlib.Core.List.{map}
use libofp.Base.{
  ℕ, suc, ◌≤◌, ◌<◌, ◌≡◌, List, [], ◌∷◌, ◌++◌, length, replicate, All, ltb, false, refl, sym, ap,
  ◌∙◌, arith, length-append,
}
use libofp.Memory.Fields.{flat}
use libofp.Normalize.{
  finished, each_element, header_length, norm_table_stats_v4, norm_port_or_queue_stats_v3,
  norm_group_stats_v3, norm_port_stats_v2, norm_port_stats_v4,
}
use libofp.Normalize.Elements.{each_element-flat, last_nothing}
use libofp.Normalize.PortStats.{
  port_stats_v5, norm_port_stats_v4-element, norm_port_stats_v2-element,
}
use libofp.Normalize.Statistics.{
  table_stats_v1, group_stats_v4, IsGroupStats, norm_table_stats_v4-element,
  norm_port_or_queue_stats_v3-element, norm_group_stats_v3-element,
}
use libofp.Normalize.PortLists.{HaveLength}
use libofp.Normalize.Replies.{
  norm_multipart_reply_v3, norm_multipart_reply_v4, norm_multipart_reply_v5, reply_type,
}
use libofp.Normalize.Parts.{
  each_of, part_of_port_stats_v4, part_of_port_stats_v2, part_of_queue_stats_v3,
  part_of_table_stats_v4, marked_if_left,
}

-- In a reply of OpenFlow 1.3 with port statistics, each becomes one of version 5, in order. A part of
-- one at the end stays; the loop ends at the end of the message and accesses nothing outside it.
pub norm_multipart_reply_v4-port_stats :
    (fresh : ℕ → List ℕ) (pre : List ℕ) (rs : List (List ℕ)) (left : List ℕ)
    → ((n : ℕ) → length (fresh n) ≡ n)
    → length pre ≡ 16
    → HaveLength 112 rs
    → length left < 112
    → 16 ≤ header_length (pre ++ (flat rs ++ left))
    → reply_type (pre ++ (flat rs ++ left)) ≡ 4
    → norm_multipart_reply_v4 fresh (pre ++ (flat rs ++ left))
      ≡ finished
          (pre ++ (flat (map port_stats_v5 rs) ++ left))
          (length (pre ++ (flat (map port_stats_v5 rs) ++ left)))
unfolding norm_multipart_reply_v4
norm_multipart_reply_v4-port_stats fresh pre rs left fresh_length h hs hl long type =
    let ok : ltb (header_length (pre ++ (flat rs ++ left))) 16 ≡ false = ground arith in
    rw (ok, type)
      (each_of (norm_port_stats_v4 fresh) port_stats_v5 112 (omega arith)
        (norm_port_stats_v4-element fresh fresh_length) (λ _ buf. buf) (λ buf. refl)
        (part_of_port_stats_v4 fresh) pre rs left h hs hl)

-- In a reply of OpenFlow 1.2 with port statistics, which have no duration, each becomes one of
-- version 5 with the duration zero.
pub norm_multipart_reply_v3-port_stats :
    (fresh : ℕ → List ℕ) (pre : List ℕ) (rs : List (List ℕ)) (left : List ℕ)
    → ((n : ℕ) → length (fresh n) ≡ n)
    → length pre ≡ 16
    → HaveLength 104 rs
    → length left < 104
    → 16 ≤ header_length (pre ++ (flat rs ++ left))
    → reply_type (pre ++ (flat rs ++ left)) ≡ 4
    → norm_multipart_reply_v3 fresh (pre ++ (flat rs ++ left))
      ≡ finished
          (pre ++ (flat (map (λ r. port_stats_v5 (r ++ replicate 8 0)) rs) ++ left))
          (length (pre ++ (flat (map (λ r. port_stats_v5 (r ++ replicate 8 0)) rs) ++ left)))
unfolding norm_multipart_reply_v3
norm_multipart_reply_v3-port_stats fresh pre rs left fresh_length h hs hl long type =
    let ok : ltb (header_length (pre ++ (flat rs ++ left))) 16 ≡ false = ground arith in
    rw (ok, type)
      (each_of (norm_port_stats_v2 fresh) (λ r. port_stats_v5 (r ++ replicate 8 0)) 104
        (omega arith) (norm_port_stats_v2-element fresh fresh_length) (λ _ buf. buf) (λ buf. refl)
        (part_of_port_stats_v2 fresh) pre rs left h hs hl)

-- In a reply of OpenFlow 1.2 with queue statistics, eight zero bytes come behind each.
pub norm_multipart_reply_v3-queue_stats :
    (fresh : ℕ → List ℕ) (pre : List ℕ) (rs : List (List ℕ)) (left : List ℕ)
    → length pre ≡ 16
    → HaveLength 32 rs
    → length left < 32
    → 16 ≤ header_length (pre ++ (flat rs ++ left))
    → reply_type (pre ++ (flat rs ++ left)) ≡ 5
    → norm_multipart_reply_v3 fresh (pre ++ (flat rs ++ left))
      ≡ finished
          (pre ++ (flat (map (λ r. r ++ replicate 8 0) rs) ++ left))
          (length (pre ++ (flat (map (λ r. r ++ replicate 8 0) rs) ++ left)))
unfolding norm_multipart_reply_v3
norm_multipart_reply_v3-queue_stats fresh pre rs left h hs hl long type =
    let ok : ltb (header_length (pre ++ (flat rs ++ left))) 16 ≡ false = ground arith in
    rw (ok, type)
      (each_of (norm_port_or_queue_stats_v3 32) (λ r. r ++ replicate 8 0) 32 (omega arith)
        (norm_port_or_queue_stats_v3-element 32) (λ _ buf. buf) (λ buf. refl) part_of_queue_stats_v3
        pre rs left h hs hl)

-- More rounds than groups.
group_rounds :
    (pre : List ℕ) (rs : List (List ℕ))
    → length pre ≡ 16
    → All IsGroupStats rs
    → suc (length rs) < length (pre ++ (flat rs ++ []))
unfolding flat
group_rounds pre [] h hs = omega (arith, length-append pre [])
group_rounds pre (r ∷ rs) h (hr, hs) = omega (
  arith,
  group_rounds pre rs h hs,
  length-append pre ((r ++ flat rs) ++ []),
  length-append (r ++ flat rs) [],
  length-append r (flat rs),
  length-append pre (flat rs ++ []),
  length-append (flat rs) [],
)

-- In a reply of OpenFlow 1.2 with group statistics, where the length field of each group is its length
-- of at least 32 and leaves room for 8 more, each group is converted, in order.
pub norm_multipart_reply_v3-group_stats :
    (fresh : ℕ → List ℕ) (pre : List ℕ) (rs : List (List ℕ))
    → length pre ≡ 16
    → All IsGroupStats rs
    → 16 ≤ header_length (pre ++ (flat rs ++ []))
    → reply_type (pre ++ (flat rs ++ [])) ≡ 6
    → norm_multipart_reply_v3 fresh (pre ++ (flat rs ++ []))
      ≡ finished
          (pre ++ (flat (map group_stats_v4 rs) ++ []))
          (length (pre ++ (flat (map group_stats_v4 rs) ++ [])))
unfolding norm_multipart_reply_v3
norm_multipart_reply_v3-group_stats fresh pre rs h hs long type =
    let ok : ltb (header_length (pre ++ (flat rs ++ []))) 16 ≡ false = ground arith in
    let rounds = length (pre ++ (flat rs ++ [])) in
    rw (ok, type)
      (ap (each_element (norm_group_stats_v3 32) rounds (pre ++ (flat rs ++ []))) (sym h)
        ∙ each_element-flat (norm_group_stats_v3 32) group_stats_v4 IsGroupStats
            (λ r g. omega (arith, g.0)) norm_group_stats_v3-element [] (λ buf. buf)
            (λ k before. last_nothing (norm_group_stats_v3 32) (λ buf. buf) k before refl) rounds
            pre rs hs (group_rounds pre rs h hs))

-- In a reply of OpenFlow 1.4 with table statistics each gets the layout of version 1, in order. A part
-- of one at the end marks the message as invalid.
pub norm_multipart_reply_v5-table_stats :
    (pre : List ℕ) (rs : List (List ℕ)) (left : List ℕ)
    → length pre ≡ 16
    → HaveLength 24 rs
    → length left < 24
    → 16 ≤ header_length (pre ++ (flat rs ++ left))
    → reply_type (pre ++ (flat rs ++ left)) ≡ 3
    → norm_multipart_reply_v5 (pre ++ (flat rs ++ left))
      ≡ finished
          (marked_if_left left (pre ++ (flat (map table_stats_v1 rs) ++ left)))
          (length (pre ++ (flat (map table_stats_v1 rs) ++ left)))
unfolding norm_multipart_reply_v5
norm_multipart_reply_v5-table_stats pre rs left h hs hl long type =
    let ok : ltb (header_length (pre ++ (flat rs ++ left))) 16 ≡ false = ground arith in
    rw (ok, type)
      (each_of norm_table_stats_v4 table_stats_v1 24 (omega arith) norm_table_stats_v4-element
        marked_if_left (λ buf. refl) part_of_table_stats_v4 pre rs left h hs hl)
