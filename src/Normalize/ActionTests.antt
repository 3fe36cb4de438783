-- ===== src/Normalize/ActionTests.antt =====
-- Runs of the actions of src/ofp/normalize.cpp on sample messages.
use libofp.Base.{
  ℕ, ◌+◌, ◌-◌, ◌*◌, ◌≡◌, true, false, List, [], ◌∷◌, ◌++◌, length, replicate, take, some, refl,
  arith, bytes16,
}
use libofp.Memory.{length-replicate, load, memcpy, memmove}
use libofp.Memory.Fields.{flat, field}
use libofp.Normalize.{unfinished, finished, insert_at, each_element, norm_port_number_v1}
use libofp.Normalize.Actions.{
  norm_set_field, norm_action, norm_actions, norm_item, norm_output, basic, type_v2, set_field_of,
}
use libofp.Normalize.EndlessActions.{norm_actions_endless, no_length}
use libofp.Normalize.Replies.{norm_multipart_reply_v1, norm_flow_reply_v1, flow_actions}
use libofp.Normalize.SetField.{norm_set_field_lem, norm_action-tp_src}
use libofp.Match.{
  standard_match, standard_fields, standard_wildcards, mapped_wildcards, wildcard_bits, dl_mask,
}
use libofp.Address.{mask}
use libofp.ProtocolRange.{big16}
use libofp.SmallBuffer.{pad_length}
use libofp.Base.{big32, bytes_eq}

abbrev filled : ℕ → List ℕ
filled n = replicate n 165

-- The action of version 1 that sends to port 0xfffe.
output_run :
    norm_output filled (0 ∷ 0 ∷ 0 ∷ 8 ∷ 0xff ∷ 0xfe ∷ 0 ∷ 64 ∷ 7 ∷ []) 0 8
    ≡ some (0 ∷ 0 ∷ 0 ∷ 16 ∷ 0xff ∷ 0xff ∷ 0xff ∷ 0xfe ∷ 0 ∷ 64 ∷ (replicate 6 0 ++ (7 ∷ [])), 16)
unfolding norm_output load memcpy insert_at big16 norm_port_number_v1 bytes_eq
output_run = refl

-- A reply with one flow and an action to send, behind a match of nothing.
flow_run :
    norm_multipart_reply_v1 filled true (
      1
      ∷ 17
      ∷ 0
      ∷ 108
      ∷ (replicate 4 0
          ++ (0
              ∷ 1
              ∷ 0
              ∷ 0
              ∷ (0
                  ∷ 96
                  ∷ 3
                  ∷ 0
                  ∷ (0
                      ∷ 0x38
                      ∷ 0x20
                      ∷ 0xff
                      ∷ (replicate 36 0
                          ++ (replicate 44 9 ++ (0 ∷ 0 ∷ 0 ∷ 8 ∷ 0 ∷ 5 ∷ 0 ∷ 64 ∷ []))))))))
    ≡ finished
        (1
          ∷ 17
          ∷ 0
          ∷ 108
          ∷ (replicate 4 0
              ++ (0
                  ∷ 1
                  ∷ 0
                  ∷ 0
                  ∷ (replicate 4 0
                      ++ (0
                          ∷ 160
                          ∷ 3
                          ∷ 0
                          ∷ (replicate 44 9
                              ++ (standard_match (0 ∷ 0x38 ∷ 0x20 ∷ 0xff ∷ replicate 36 0)
                                  ++ (0
                                      ∷ 4
                                      ∷ 0
                                      ∷ 24
                                      ∷ 0
                                      ∷ 0
                                      ∷ 0
                                      ∷ 0
                                      ∷ 0
                                      ∷ 0
                                      ∷ 0
                                      ∷ 16
                                      ∷ 0
                                      ∷ 0
                                      ∷ 0
                                      ∷ 5
                                      ∷ 0
                                      ∷ 64
                                      ∷ replicate 6 0))))))))
        176
unfolding norm_multipart_reply_v1 norm_flow_reply_v1 flow_actions each_element norm_actions
    norm_item norm_action norm_output type_v2 set_field_of insert_at load memcpy memmove big16
    pad_length norm_port_number_v1 bytes_eq standard_match standard_fields standard_wildcards
    mapped_wildcards wildcard_bits dl_mask mask flat field big32
flow_run = refl

norm_set_field_lem_example :
    norm_set_field filled true
      (basic 4 6 false)
      ((7 ∷ []) ++ ((0 ∷ 4 ∷ (bytes16 (4 + 12) ++ replicate 12 2)) ++ (8 ∷ [])))
      (length {0} {A = ℕ} (7 ∷ []))
      17
    ≡ some (
      (7 ∷ [])
          ++ (((bytes16 25 ++ bytes16 16)
                ++ ((basic 4 6 false).type ++ (replicate 6 2 ++ replicate 2 0)))
              ++ (8 ∷ [])),
      17 + 16 - (4 + 12),
    )
norm_set_field_lem_example =
    norm_set_field_lem filled (λ n. length-replicate n 165) true (basic 4 6 false) (7 ∷ [])
      (replicate 12 2) (8 ∷ []) 0 4 17 refl (omega arith) (omega arith) (omega arith) refl
      (omega arith) (omega arith)

norm_action-tp_src_example :
    norm_action filled true 1 6 9 ([] ++ ((0 ∷ 9 ∷ 0 ∷ 8 ∷ 0 ∷ 80 ∷ 0 ∷ 0 ∷ []) ++ [])) 0 8
    ≡ some ([] ++ ((0 ∷ 25 ∷ 0 ∷ 16 ∷ 0x80 ∷ 0 ∷ 26 ∷ 2 ∷ 80 ∷ 0 ∷ replicate 6 0) ++ []), 8 + 8)
norm_action-tp_src_example =
    norm_action-tp_src filled (λ n. length-replicate n 165) true [] [] 0 80 0 0 8 (omega arith)

-- New memory with the old bytes.
abbrev old_bytes : ℕ → List ℕ
old_bytes n = take n (replicate 12 0 ++ (0 ∷ 1 ∷ 0 ∷ 0 ∷ []))

norm_actions_endless_example :
    (buf : List ℕ) × (norm_actions old_bytes 1000 true 1 6
        (replicate 16 3 ++ (no_length ++ []))
        16
        24
      ≡ unfinished buf (24 + 16 * 1000))
norm_actions_endless_example =
    norm_actions_endless old_bytes (replicate 12 0) refl refl true 1000 6 24 (replicate 16 3) []
      (omega arith)
