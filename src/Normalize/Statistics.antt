-- ===== src/Normalize/Statistics.antt =====
-- Statistics of tables, queues and groups in src/ofp/normalize.cpp: what each element becomes.
use libofp.Base.{
  bytes16, bytes32, ◌%◌, ◌^◌, ℕ, ◌+◌, ◌-◌, ◌≤◌, ◌<◌, ◌≡◌, List, ◌++◌, some, length, take, drop, ltb,
  refl, arith, replicate, false, length-append, length-take, length-drop,
}
use libofp.Normalize.{
  norm_port_number_v1, norm_table_stats_v4, norm_port_or_queue_stats_v1,
  norm_port_or_queue_stats_v3, norm_group_stats_v3,
}
use libofp.ProtocolRange.{big16}
use libofp.Normalize.Edits.{insert_at-behind, insert_at-within, memcpy-head, load-head, big16-head}
use libofp.Normalize.PortStats.{with_port32}

-- Table statistics by the layout of version 1: behind the number of the table and padding, what is
-- not there any more is zero.
unfoldable pub table_stats_v1 : List ℕ → List ℕ
table_stats_v1 r = take 4 r ++ (replicate 40 0 ++ drop 4 r)

pub norm_table_stats_v4-element :
    (pre r rest : List ℕ)
    → length r ≡ 24
    → norm_table_stats_v4 (pre ++ (r ++ rest)) (length pre)
      ≡ some (pre ++ (table_stats_v1 r ++ rest), length pre + length (table_stats_v1 r))
unfolding norm_table_stats_v4 table_stats_v1
norm_table_stats_v4-element pre r rest h =
    let room : ltb (length (pre ++ (r ++ rest)) - length pre) 24 ≡ false =
      ground (arith, length-append pre (r ++ rest), length-append r rest) in
    let size : length (take 4 r ++ (replicate 40 0 ++ drop 4 r)) ≡ 64 = omega (
      arith,
      length-append (take 4 r) (replicate 40 0 ++ drop 4 r),
      length-take 4 r,
      length-drop 4 r,
    ) in
    rw (room, insert_at-within pre r rest (replicate 40 0) 4 (omega arith), size) refl

-- The statistics of a queue of 32 bytes, or of any element of a fixed size without a timestamp
pub norm_port_or_queue_stats_v3-element :
    (len : ℕ) (pre r rest : List ℕ)
    → length r ≡ len
    → norm_port_or_queue_stats_v3 len (pre ++ (r ++ rest)) (length pre)
      ≡ some (pre ++ ((r ++ replicate 8 0) ++ rest), length pre + length (r ++ replicate 8 0))
unfolding norm_port_or_queue_stats_v3
norm_port_or_queue_stats_v3-element len pre r rest h =
    let room : ltb (length (pre ++ (r ++ rest)) - length pre) len ≡ false =
      ground (arith, length-append pre (r ++ rest), length-append r rest) in
    let size : length (r ++ replicate 8 0) ≡ len + 8 =
      omega (arith, length-append r (replicate 8 0)) in
    rw (room, insert_at-behind pre r rest (replicate 8 0) len h, size) refl

pub norm_port_or_queue_stats_v1-element :
    (len : ℕ) (pre r rest : List ℕ)
    → length r ≡ len
    → 4 ≤ len
    → norm_port_or_queue_stats_v1 len (pre ++ (r ++ rest)) (length pre)
      ≡ some (
        pre ++ ((with_port32 r ++ replicate 8 0) ++ rest),
        length pre + length (with_port32 r ++ replicate 8 0),
      )
unfolding norm_port_or_queue_stats_v1 with_port32
norm_port_or_queue_stats_v1-element len pre r rest h four =
    let new = bytes32 (norm_port_number_v1 (big16 r 0)) ++ drop 4 r in
    let room : ltb (length (pre ++ (r ++ rest)) - length pre) len ≡ false =
      ground (arith, length-append pre (r ++ rest), length-append r rest) in
    let size : length new ≡ len = omega (arith, length-drop 4 r) in
    let more : length (new ++ replicate 8 0) ≡ len + 8 =
      omega (arith, length-append new (replicate 8 0)) in
    rw
      (
        room,
        load-head pre r rest 2 (omega arith),
        big16-head r,
        memcpy-head pre r rest (bytes32 (norm_port_number_v1 (big16 r 0))) 4 refl (omega arith),
        insert_at-behind pre new rest (replicate 8 0) len size,
        more,
      )
      refl

-- Statistics of a group with its buckets: the length grows by 8, and eight bytes stand behind byte 32.
unfoldable pub group_stats_v4 : List ℕ → List ℕ
group_stats_v4 r =
    let sized = bytes16 (length r + 8) ++ drop 2 r in
    take 32 sized ++ (replicate 8 0 ++ drop 32 sized)

-- A group whose length field is its length.
abbrev pub IsGroupStats : List ℕ → Type 0
IsGroupStats r = (32 ≤ length r) × (length r + 8 < 65536) × (big16 r 0 ≡ length r)

pub norm_group_stats_v3-element :
    (pre r rest : List ℕ)
    → IsGroupStats r
    → norm_group_stats_v3 32 (pre ++ (r ++ rest)) (length pre)
      ≡ some (pre ++ (group_stats_v4 r ++ rest), length pre + length (group_stats_v4 r))
unfolding norm_group_stats_v3 group_stats_v4
norm_group_stats_v3-element pre r rest (long, short, len) =
    let whole : length (pre ++ (r ++ rest)) ≡ length pre + (length r + length rest) =
      omega (arith, length-append pre (r ++ rest), length-append r rest) in
    let room : ltb (length (pre ++ (r ++ rest)) - length pre) 32 ≡ false = ground arith in
    let fits : ltb (length (pre ++ (r ++ rest)) - length pre) (length r) ≡ false = ground arith in
    let narrow : (length r + 8) % 2 ^ 16 ≡ length r + 8 = omega arith in
    let sized = bytes16 (length r + 8) ++ drop 2 r in
    let same : length sized ≡ length r = omega (arith, length-drop 2 r) in
    let grown : length (take 32 sized ++ (replicate 8 0 ++ drop 32 sized)) ≡ length r + 8 = omega (
      arith,
      length-append (take 32 sized) (replicate 8 0 ++ drop 32 sized),
      length-take 32 sized,
      length-drop 32 sized,
    ) in
    rw
      (
        room,
        load-head pre r rest 2 (omega arith),
        big16-head r,
        len,
        fits,
        narrow,
        memcpy-head pre r rest (bytes16 (length r + 8)) 2 refl (omega arith),
        insert_at-within pre sized rest (replicate 8 0) 32 (omega arith),
        grown,
      )
      refl
