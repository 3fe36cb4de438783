-- ===== src/Normalize/QueuePadding.antt =====
-- What becomes of the queues in a reply in src/ofp/normalize.cpp.
use libofp.Base.{
  ℕ, zero, suc, ◌+◌, ◌-◌, ◌*◌, ◌/◌, ◌%◌, ◌≤◌, ◌<◌, ◌≡◌, ◌||◌, Bool, false, List, [], ◌∷◌, ◌++◌,
  some, length, take, drop, replicate, ltb, leb, bytes16, bytes32, refl, sym, arith, length-append,
  take-append_all, drop-append_more,
}
use libofp.Normalize.{header_length}
use libofp.Normalize.Queues.{pad_properties, pad_queues, norm_queue_reply_v2}
use libofp.ProtocolRange.{big16}
use libofp.SmallBuffer.{pad_length}

-- A property of a type in two bytes, and its value.
pub record Property : Type 0 where
  pub type : ℕ × ℕ
  pub value : List ℕ

abbrev pub property_bytes : Property → List ℕ
property_bytes p = p.type.0 ∷ p.type.1 ∷ (bytes16 (4 + length p.value) ++ p.value)

unfoldable pub properties_of : List Property → List ℕ
properties_of [] = []
properties_of (p ∷ ps) = property_bytes p ++ properties_of ps

-- Each is padded to a multiple of 8 bytes.
unfoldable pub padded_of : List Property → List ℕ
padded_of [] = []
padded_of (p ∷ ps) =
    property_bytes p
    ++ (replicate (pad_length (4 + length p.value) - (4 + length p.value)) 0 ++ padded_of ps)

-- Each has a value, and a length of 16 bits.
unfoldable pub AreValues : List Property → Type 0
AreValues [] = Bool
AreValues (p ∷ ps) = (1 ≤ length p.value) × (length p.value < 65532) × AreValues ps

pub pad_properties_lem :
    (rounds : ℕ) (ps : List Property)
    → AreValues ps
    → length ps < rounds
    → pad_properties rounds (properties_of ps) ≡ some (padded_of ps)
unfolding pad_properties properties_of padded_of AreValues big16
pad_properties_lem zero ps ok h = absurd (omega arith)
pad_properties_lem (suc rounds) [] ok h = refl
pad_properties_lem (suc rounds) (p ∷ ps) (lo, hi, oks) h =
    let n : ℕ = 4 + length p.value in
    let rest = properties_of ps in
    let size : n / 256 % 256 * 256 + n % 256 ≡ n = omega (arith, hi) in
    let whole : length (property_bytes p) ≡ n = omega arith in
    let long : leb (length (property_bytes p ++ rest)) 4 ≡ false =
      ground (arith, length-append (property_bytes p) rest, lo) in
    let fits : (ltb (length (property_bytes p ++ rest)) n || ltb n 4) ≡ false =
      ground (arith, length-append (property_bytes p) rest, whole) in
    let first : take n (property_bytes p ++ rest) ≡ property_bytes p =
      take-append_all n (property_bytes p) rest (sym whole) in
    let others : drop n (property_bytes p ++ rest) ≡ rest =
      drop-append_more n 0 (property_bytes p) rest (omega arith) in
    let e : pad_properties rounds rest ≡ some (padded_of ps) =
      pad_properties_lem rounds ps oks (omega arith) in
    rw (size, long, fits, first, others, e) refl

length-properties_of : (ps : List Property) → length ps ≤ length (properties_of ps)
unfolding properties_of
length-properties_of [] = omega arith
length-properties_of (p ∷ ps) =
    omega (arith, length-append (property_bytes p) (properties_of ps), length-properties_of ps)

-- A queue, its port, and its properties.
pub record Queue : Type 0 where
  pub queue_id : ℕ
  pub port : ℕ
  pub properties : List Property

-- The header of a queue, in which `len` counts the properties without padding.
unfoldable pub queue_header : Queue → List ℕ
queue_header q =
    bytes32 q.queue_id
    ++ (bytes32 q.port ++ (bytes16 (16 + length (properties_of q.properties)) ++ replicate 6 0))

unfoldable pub queues_of : List Queue → List ℕ
queues_of [] = []
queues_of (q ∷ qs) = (queue_header q ++ properties_of q.properties) ++ queues_of qs

unfoldable pub padded_queues_of : List Queue → List ℕ
padded_queues_of [] = []
padded_queues_of (q ∷ qs) = queue_header q ++ (padded_of q.properties ++ padded_queues_of qs)

-- Each has properties, with values, and a length of 16 bits.
unfoldable pub AreQueues : List Queue → Type 0
AreQueues [] = Bool
AreQueues (q ∷ qs) =
    AreValues q.properties
    × (1 ≤ length q.properties)
    × (16 + length (properties_of q.properties) < 65536)
    × AreQueues qs

length-queues_of : (qs : List Queue) → length qs ≤ length (queues_of qs)
unfolding queues_of queue_header
length-queues_of [] = omega arith
length-queues_of (q ∷ qs) = omega (
  arith,
  length-append (queue_header q ++ properties_of q.properties) (queues_of qs),
  length-append (queue_header q) (properties_of q.properties),
  length-queues_of qs,
)

pad_queues_lem :
    (rounds : ℕ) (qs : List Queue)
    → AreQueues qs
    → length qs < rounds
    → pad_queues rounds (queues_of qs) ≡ some (padded_queues_of qs)
unfolding pad_queues queues_of padded_queues_of AreQueues big16 queue_header
pad_queues_lem zero qs ok h = absurd (omega arith)
pad_queues_lem (suc rounds) [] ok h = refl
pad_queues_lem (suc rounds) (q ∷ qs) (values, some_property, small, oks) h =
    let props = properties_of q.properties in
    let n : ℕ = 16 + length props in
    let queue = queue_header q ++ props in
    let rest = queues_of qs in
    let len : n / 256 % 256 * 256 + n % 256 ≡ n = omega (arith, small) in
    let whole : length queue ≡ n = omega arith in
    let all : length (queue ++ rest) ≡ n + length rest =
      omega (arith, length-append queue rest, whole) in
    let some_bytes : 1 ≤ length props =
      omega (arith, length-properties_of q.properties, some_property) in
    let long : leb (length (queue ++ rest)) 16 ≡ false = ground (arith, all, some_bytes) in
    let fits : (ltb (length (queue ++ rest)) n || ltb n 16) ≡ false = ground (arith, all) in
    let first : take n (queue ++ rest) ≡ queue = take-append_all n queue rest (sym whole) in
    let others : drop n (queue ++ rest) ≡ rest = drop-append_more n 0 queue rest (omega arith) in
    let padded : pad_properties (length (queue ++ rest)) props ≡ some (padded_of q.properties) =
      pad_properties_lem (length (queue ++ rest)) q.properties values
        (omega (arith, length-properties_of q.properties, all)) in
    let e : pad_queues rounds rest ≡ some (padded_queues_of qs) =
      pad_queues_lem rounds qs oks (omega arith) in
    rw (len, long, fits, first, others, padded, e) refl

-- In a reply with queues, each of which has properties, and each of these a value, every property is
-- padded to a multiple of 8 bytes, if the message has room for this. The headers of the queues stay,
-- the lengths in which count no padding.
pub norm_queue_reply_v2_lem :
    (head : List ℕ) (qs : List Queue)
    → length head ≡ 16
    → 16 ≤ header_length (head ++ queues_of qs)
    → AreQueues qs
    → length (padded_queues_of qs) ≤ 65519
    → norm_queue_reply_v2 (head ++ queues_of qs) ≡ head ++ padded_queues_of qs
unfolding norm_queue_reply_v2
norm_queue_reply_v2_lem head qs sixteen enough ok room =
    let bytes = queues_of qs in
    let ok_length : ltb (header_length (head ++ bytes)) 16 ≡ false = ground arith in
    let behind : drop 16 (head ++ bytes) ≡ bytes = drop-append_more 16 0 head bytes (omega arith) in
    let before : take 16 (head ++ bytes) ≡ head = take-append_all 16 head bytes (sym sixteen) in
    let padded : pad_queues (suc (length bytes)) bytes ≡ some (padded_queues_of qs) =
      pad_queues_lem (suc (length bytes)) qs ok (omega (arith, length-queues_of qs)) in
    let fits : ltb (65535 - 16) (length (padded_queues_of qs)) ≡ false = ground arith in
    rw (ok_length, behind, padded, fits, before) refl
