-- ===== src/Normalize/DispatchTests.antt =====
-- Runs of `normalize` of src/ofp/normalize.cpp on whole messages.
use libofp.Base.{ℕ, ◌≡◌, Bool, true, List, [], ◌∷◌, ◌++◌, replicate, some, refl, arith}
use libofp.Memory.{load, memcpy, memset}
use libofp.Handshake.{set_length}
use libofp.Header.{
  translate_type, translate_type_from_version, translate_type_to_version, max_type_by_version,
}
use libofp.Match.{
  standard_match, standard_fields, standard_wildcards, mapped_wildcards, wildcard_bits, dl_mask,
}
use libofp.Memory.Fields.{flat, field}
use libofp.Address.{mask}
use libofp.Base.{big32, bytes_eq}
use libofp.Normalize.{finished, insert_at, norm_port_number_v1}
use libofp.Normalize.Actions.{norm_actions, norm_item, norm_action, norm_output, type_v2}
use libofp.Normalize.Dispatch.{
  set_type, prepared, sized, normalize_v1, normalize_version, normalize,
}
use libofp.Normalize.FlowMods.{checked_actions, move_fields, norm_flow_mod_v1, norm_packet_out_v1}
use libofp.Normalize.Queues.{
  norm_queue_reply_v2, queue_of_v1, convert_queues, queue_reply_port, norm_queue_reply_v1,
}
use libofp.Normalize.QueuePadding.{
  Queue, queues_of, padded_queues_of, queue_header, properties_of, padded_of, AreValues, AreQueues,
  norm_queue_reply_v2_lem,
}
use libofp.ProtocolRange.{
  big16, items, item_jump, item_size, check_range, check_from, check_element, field_size,
}
use libofp.SmallBuffer.{pad_length}

abbrev filled : ℕ → List ℕ
filled n = replicate n 165

abbrev accept : List ℕ → Bool
accept actions = true

-- A PacketOut of version 1 with an action to send.
packet_out_run :
    normalize filled accept true (
      1
      ∷ 13
      ∷ 0
      ∷ 26
      ∷ (replicate 8 0 ++ (0xff ∷ 0xfe ∷ 0 ∷ 8 ∷ (0 ∷ 0 ∷ 0 ∷ 8 ∷ 0 ∷ 5 ∷ 0 ∷ 64 ∷ 7 ∷ 8 ∷ []))))
    ≡ some (
        finished
          (1
            ∷ 13
            ∷ 0
            ∷ 42
            ∷ (replicate 8 0
                ++ (0xff
                    ∷ 0xff
                    ∷ 0xff
                    ∷ 0xfe
                    ∷ 0
                    ∷ 16
                    ∷ (replicate 6 0
                        ++ (0
                            ∷ 0
                            ∷ 0
                            ∷ 16
                            ∷ 0
                            ∷ 0
                            ∷ 0
                            ∷ 5
                            ∷ 0
                            ∷ 64
                            ∷ (replicate 6 0 ++ (7 ∷ 8 ∷ [])))))))
          42)
unfolding normalize prepared sized set_type set_length normalize_version normalize_v1
    norm_packet_out_v1 checked_actions norm_actions norm_item norm_action norm_output type_v2
    translate_type translate_type_from_version translate_type_to_version max_type_by_version
    insert_at load memcpy memset big16 pad_length norm_port_number_v1 bytes_eq
packet_out_run = refl

-- A FlowMod of version 1 without actions.
flow_mod_run :
    normalize filled accept true (
      1
      ∷ 14
      ∷ 0
      ∷ 72
      ∷ (replicate 4 0
          ++ (0
              ∷ 0x38
              ∷ 0x20
              ∷ 0xff
              ∷ (replicate 36 0
                  ++ (replicate 8 4 ++ (replicate 12 6 ++ (0xff ∷ 0xfd ∷ 0 ∷ 1 ∷ [])))))))
    ≡ some (
        finished
          (1
            ∷ 14
            ∷ 0
            ∷ 136
            ∷ (replicate 4 0
                ++ (replicate 8 4
                    ++ (replicate 8 255
                        ++ (replicate 12 6
                            ++ (0xff
                                ∷ 0xff
                                ∷ 0xff
                                ∷ 0xfd
                                ∷ (replicate 4 0
                                    ++ (0
                                        ∷ 1
                                        ∷ 0
                                        ∷ 0
                                        ∷ standard_match
                                            (0 ∷ 0x38 ∷ 0x20 ∷ 0xff ∷ replicate 36 0)))))))))
          136)
unfolding normalize prepared sized set_type set_length normalize_version normalize_v1
    norm_flow_mod_v1 move_fields translate_type translate_type_from_version
    translate_type_to_version max_type_by_version insert_at load memcpy memset big16
    norm_port_number_v1 standard_match standard_fields standard_wildcards mapped_wildcards
    wildcard_bits dl_mask mask flat field big32
flow_mod_run = refl

-- A reply of version 1 with a queue and a property of it.
queues_run :
    normalize filled accept true (
      1
      ∷ 21
      ∷ 0
      ∷ 32
      ∷ (replicate 4 0
          ++ (0 ∷ 3 ∷ (replicate 6 0 ++ (0 ∷ 0 ∷ 0 ∷ 9 ∷ 0 ∷ 16 ∷ 0 ∷ 0 ∷ replicate 8 5)))))
    ≡ some (
        finished
          (1
            ∷ 23
            ∷ 0
            ∷ 40
            ∷ (replicate 4 0
                ++ (0
                    ∷ 0
                    ∷ 0
                    ∷ 3
                    ∷ (replicate 4 0
                        ++ (0
                            ∷ 0
                            ∷ 0
                            ∷ 9
                            ∷ (replicate 4 0 ++ (0 ∷ 24 ∷ (replicate 6 0 ++ replicate 8 5))))))))
          40)
unfolding normalize prepared sized set_type set_length normalize_version normalize_v1
    norm_queue_reply_v1 queue_reply_port convert_queues queue_of_v1 items item_jump item_size
    check_range check_from check_element field_size translate_type translate_type_from_version
    translate_type_to_version max_type_by_version insert_at load memcpy big16 pad_length
    norm_port_number_v1
queues_run = refl

-- A queue with two properties, of 9 and 10 bytes.
abbrev odd_queue : Queue
odd_queue = record {
  queue_id = 1;
  port = 2;
  properties =
      record { type = (255, 255); value = replicate 5 3 }
      ∷ record { type = (255, 255); value = replicate 6 4 }
      ∷ [];
}

abbrev reply_head : List ℕ
reply_head = 4 ∷ 23 ∷ 0 ∷ 51 ∷ replicate 12 0

norm_queue_reply_v2_lem_example :
    norm_queue_reply_v2 (reply_head ++ queues_of (odd_queue ∷ []))
    ≡ reply_head ++ padded_queues_of (odd_queue ∷ [])
unfolding queues_of padded_queues_of queue_header properties_of padded_of AreValues AreQueues
    pad_length big16
norm_queue_reply_v2_lem_example =
    norm_queue_reply_v2_lem reply_head (odd_queue ∷ []) refl (omega arith)
      ((omega arith, omega arith, (omega arith, omega arith, true)), omega arith, omega arith, true)
      (omega arith)

-- The iterator over its queues gets to the middle of the second property: the header counts 35 bytes.
middle_of_property : item_jump 8 8 (padded_queues_of (odd_queue ∷ [])) ≡ 40
unfolding padded_queues_of queue_header properties_of padded_of item_jump item_size big16 pad_length
middle_of_property = refl
