-- ===== src/Normalize/Tests.antt =====
-- Runs of src/ofp/normalize.cpp on sample messages.
use mathlib.Core.List.{map}
use libofp.Base.{
  ℕ, ◌+◌, ◌*◌, ◌≡◌, List, [], ◌∷◌, ◌++◌, length, replicate, some, refl, arith, ltb, if◌then◌else◌,
}
use libofp.Memory.{length-replicate, load, memcpy, memmove}
use libofp.Memory.Fields.{flat, field}
use libofp.Normalize.{
  finished, unfinished, each_element, norm_group_stats_v3, mark_input_too_big, norm_port_stats_v4,
  insert_at, ethernet_stats,
}
use libofp.Normalize.Replies.{
  norm_multipart_reply_v3, norm_multipart_reply_v4, norm_multipart_reply_v5,
}
use libofp.Normalize.Conversion.{
  norm_multipart_reply_v4-port_stats, norm_multipart_reply_v3-group_stats,
  norm_multipart_reply_v5-table_stats,
}
use libofp.Normalize.Parts.{marked_if_left}
use libofp.Normalize.PortStats.{port_stats_v5}
use libofp.Normalize.Statistics.{table_stats_v1, group_stats_v4}
use libofp.Normalize.Endless.{group_stats_v3_endless, slots}
use libofp.Normalize.Ports.{norm_features_reply_v1}
use libofp.Normalize.PortLists.{norm_features_reply_v1_lem}
use libofp.Normalize.Messages.{norm_async_config_v4, async_prop}
use libofp.Port.Layout.{port_of_v1}
use libofp.ProtocolRange.{big16}

-- New memory is filled with one byte.
abbrev filled : ℕ → List ℕ
filled n = replicate n 165

-- A multipart header: version, type, length, xid, and the type of the reply.
abbrev multipart_header : ℕ → ℕ → ℕ → List ℕ
multipart_header version len type =
    version ∷ 19 ∷ 0 ∷ len ∷ 0 ∷ 0 ∷ 0 ∷ 1 ∷ 0 ∷ type ∷ replicate 6 0

-- The statistics of port 7: four bytes of padding, eight counters, four of errors, and a duration.
abbrev sample_port_stats : List ℕ
sample_port_stats =
    0 ∷ 0 ∷ 0 ∷ 7 ∷ (replicate 4 9 ++ (replicate 64 1 ++ (replicate 32 2 ++ replicate 8 3)))

sample_port_stats_v5 :
    port_stats_v5 sample_port_stats
    ≡ 0
      ∷ 120
      ∷ 9
      ∷ 9
      ∷ 0
      ∷ 0
      ∷ 0
      ∷ 7
      ∷ (replicate 8 3 ++ (replicate 64 1 ++ (0 ∷ 0 ∷ 0 ∷ 40 ∷ 0 ∷ 0 ∷ 0 ∷ 0 ∷ replicate 32 2)))
unfolding port_stats_v5 flat field ethernet_stats
sample_port_stats_v5 = refl

port_stats_run :
    norm_port_stats_v4 filled sample_port_stats 0 ≡ some (port_stats_v5 sample_port_stats, 120)
unfolding norm_port_stats_v4 insert_at load memcpy memmove ethernet_stats port_stats_v5 flat field
port_stats_run = refl

norm_multipart_reply_v4-port_stats_example :
    norm_multipart_reply_v4 filled
      (multipart_header 4 131 4 ++ (flat (sample_port_stats ∷ []) ++ (1 ∷ 2 ∷ 3 ∷ [])))
    ≡ finished
        (multipart_header 4 131 4
          ++ (flat (map port_stats_v5 (sample_port_stats ∷ [])) ++ (1 ∷ 2 ∷ 3 ∷ [])))
        (length (
          multipart_header 4 131 4
          ++ (flat (map port_stats_v5 (sample_port_stats ∷ [])) ++ (1 ∷ 2 ∷ 3 ∷ []))))
unfolding big16
norm_multipart_reply_v4-port_stats_example =
    norm_multipart_reply_v4-port_stats filled (multipart_header 4 131 4) (sample_port_stats ∷ [])
      (1 ∷ 2 ∷ 3 ∷ []) (λ n. length-replicate n 165) refl (refl, tt) (omega arith) (omega arith)
      refl

-- A group of 40 bytes.
abbrev sample_group : List ℕ
sample_group = 0 ∷ 40 ∷ replicate 38 6

norm_multipart_reply_v3-group_stats_example :
    norm_multipart_reply_v3 filled
      (multipart_header 3 96 6 ++ (flat (sample_group ∷ sample_group ∷ []) ++ []))
    ≡ finished
        (multipart_header 3 96 6
          ++ (flat (map group_stats_v4 (sample_group ∷ sample_group ∷ [])) ++ []))
        (length (
          multipart_header 3 96 6
          ++ (flat (map group_stats_v4 (sample_group ∷ sample_group ∷ [])) ++ [])))
unfolding big16
norm_multipart_reply_v3-group_stats_example =
    norm_multipart_reply_v3-group_stats filled (multipart_header 3 96 6)
      (sample_group ∷ sample_group ∷ []) refl
      ((omega arith, omega arith, refl), ((omega arith, omega arith, refl), tt)) (omega arith) refl

-- A group with zeros only.
group_stats_v3_endless_example :
    (buf : List ℕ) × (each_element
        (norm_group_stats_v3 32)
        1000
        (multipart_header 3 48 6
          ++ (slots (replicate 6 0) (replicate 6 0) (replicate 6 0) (replicate 6 0) ++ []))
        (length (multipart_header 3 48 6))
      ≡ unfinished buf (length (multipart_header 3 48 6) + 8 * 1000))
    × (length buf
        ≡ length (
            multipart_header 3 48 6
            ++ (slots (replicate 6 0) (replicate 6 0) (replicate 6 0) (replicate 6 0) ++ []))
          + 8 * 1000)
group_stats_v3_endless_example =
    group_stats_v3_endless 1000 (multipart_header 3 48 6) (replicate 6 0) (replicate 6 0)
      (replicate 6 0) (replicate 6 0) [] refl refl refl refl

norm_multipart_reply_v5-table_stats_example :
    norm_multipart_reply_v5 (multipart_header 5 41 3 ++ (flat (replicate 24 8 ∷ []) ++ (4 ∷ [])))
    ≡ finished
        (marked_if_left (4 ∷ []) (
          multipart_header 5 41 3 ++ (flat (map table_stats_v1 (replicate 24 8 ∷ [])) ++ (4 ∷ []))))
        (length (
          multipart_header 5 41 3 ++ (flat (map table_stats_v1 (replicate 24 8 ∷ [])) ++ (4 ∷ []))))
unfolding big16
norm_multipart_reply_v5-table_stats_example =
    norm_multipart_reply_v5-table_stats (multipart_header 5 41 3) (replicate 24 8 ∷ []) (4 ∷ [])
      refl (refl, tt) (omega arith) (omega arith) refl

-- A FeaturesReply with one port.
abbrev features_header : List ℕ
features_header = 1 ∷ 6 ∷ 0 ∷ 80 ∷ replicate 28 0

norm_features_reply_v1_lem_example :
    norm_features_reply_v1 filled (features_header ++ flat (replicate 48 5 ∷ [])) ≡ (
      if ltb 65503 (length {0} {A = List ℕ} (replicate 48 5 ∷ []) * 72)
      then some (mark_input_too_big (features_header ++ flat (replicate 48 5 ∷ [])))
      else some (features_header ++ flat (map port_of_v1 (replicate 48 5 ∷ []))))
unfolding big16 flat
norm_features_reply_v1_lem_example =
    norm_features_reply_v1_lem filled (λ n. length-replicate n 165) features_header
      (replicate 48 5 ∷ []) refl refl (refl, tt)

-- Six masks of asynchronous messages.
async_run :
    norm_async_config_v4 filled (
      4
      ∷ 28
      ∷ 0
      ∷ 32
      ∷ (replicate 4 0
          ++ (replicate 4 1
              ++ (replicate 4 2
                  ++ (replicate 4 3 ++ (replicate 4 4 ++ (replicate 4 5 ++ replicate 4 6)))))))
    ≡ some (
        4
        ∷ 28
        ∷ 0
        ∷ 32
        ∷ (replicate 4 0
            ++ (async_prop 0 (replicate 4 2)
                ++ (async_prop 1 (replicate 4 1)
                    ++ (async_prop 2 (replicate 4 4)
                        ++ (async_prop 3 (replicate 4 3)
                            ++ (async_prop 4 (replicate 4 6) ++ async_prop 5 (replicate 4 5))))))))
unfolding norm_async_config_v4 insert_at load memcpy big16
async_run = refl
