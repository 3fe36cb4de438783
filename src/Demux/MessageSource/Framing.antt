-- ===== src/Demux/MessageSource/Framing.antt =====
-- Messages do not depend on how the stream is cut into pieces.
use libofp.Base.{
  ℕ, zero, suc, ◌+◌, ◌≤◌, ◌<◌, ◌≡◌, ◌⊎◌, inl, inr, List, [], ◌∷◌, ◌++◌, All, length, take, drop,
  ltb, leb, length-append, length-take, length-drop, take-append, drop-append, get_or-append, arith,
  refl, ap, sym, ◌∙◌, take-drop, Bool-cases, leb→le, ltb→lt,
}
use libofp.Demux.MessageSource.{header_size, message_length, frames}

-- The bytes are one whole message.
abbrev pub IsMessage : List ℕ → Type 0
IsMessage m = (header_size ≤ length m) × (length m ≡ message_length m)

-- The bytes do not begin with a whole message, nor with a header to skip.
abbrev pub IsPartial : List ℕ → Type 0
IsPartial r =
    (length r < header_size) ⊎ ((header_size ≤ message_length r) × (length r < message_length r))

-- More fuel than bytes changes nothing.
pub frames_enough :
    (f g : ℕ) (bytes : List ℕ)
    → length bytes ≤ f
    → length bytes ≤ g
    → frames f bytes ≡ frames g bytes
unfolding frames
frames_enough zero zero bytes h k = refl
frames_enough zero (suc g) [] h k = refl
frames_enough zero (suc g) (x ∷ bytes) h k = absurd (omega arith)
frames_enough (suc f) zero [] h k = refl
frames_enough (suc f) zero (x ∷ bytes) h k = absurd (omega arith)
frames_enough (suc f) (suc g) bytes h k = ground (
  arith,
  length-drop (message_length bytes) bytes,
  length-drop header_size bytes,
  frames_enough f g (drop (message_length bytes) bytes),
  frames_enough f g (drop header_size bytes),
)

message_length-append :
    (xs ys : List ℕ) → header_size ≤ length xs → message_length (xs ++ ys) ≡ message_length xs
message_length-append xs ys h =
    omega (arith, get_or-append xs ys 2 0 (omega arith), get_or-append xs ys 3 0 (omega arith))

take-IsMessage :
    (bytes : List ℕ)
    → header_size ≤ message_length bytes
    → message_length bytes ≤ length bytes
    → IsMessage (take (message_length bytes) bytes)
take-IsMessage bytes h k =
    let len = message_length bytes in
    let size : length (take len bytes) ≡ len = omega (arith, length-take len bytes) in
    let same : message_length (take len bytes ++ drop len bytes) ≡ message_length (take len bytes) =
      message_length-append (take len bytes) (drop len bytes) (omega arith) in
    (omega arith, size ∙ sym (ap message_length (take-drop len bytes)) ∙ same)

-- The three rounds of the loop.
abbrev pub Whole : List ℕ → Type 0
Whole bytes = (header_size ≤ message_length bytes) × (message_length bytes ≤ length bytes)

abbrev pub Skipped : List ℕ → Type 0
Skipped bytes = (message_length bytes < header_size) × (header_size ≤ length bytes)

pub frame_cases : (bytes : List ℕ) → IsPartial bytes ⊎ Whole bytes ⊎ Skipped bytes
frame_cases bytes = elim (Bool-cases (ltb (length bytes) header_size)) [
  | inl a ↦ inl (inl (ltb→lt _ _ a))
  | inr a ↦ elim (Bool-cases (ltb (message_length bytes) header_size)) [
    | inl b ↦ inr (inr (ltb→lt _ _ b, ground arith))
    | inr b ↦ elim (Bool-cases (leb (message_length bytes) (length bytes))) [
      | inl c ↦ inr (inl (ground arith, leb→le _ _ c))
      | inr c ↦ inl (inr (ground arith))
    ]
  ]
]

pub frames-IsPartial : (f : ℕ) (bytes : List ℕ) → IsPartial bytes → frames f bytes ≡ ([], bytes)
unfolding frames
frames-IsPartial zero bytes h = refl
frames-IsPartial (suc f) bytes (inl h) = ground arith
frames-IsPartial (suc f) bytes (inr h) = ground arith

pub frames-Whole :
    (f : ℕ) (bytes : List ℕ)
    → Whole bytes
    → frames (suc f) bytes ≡ (
      take (message_length bytes) bytes ∷ (frames f (drop (message_length bytes) bytes)).0,
      (frames f (drop (message_length bytes) bytes)).1,
    )
unfolding frames
frames-Whole f bytes h = ground arith

pub frames-Skipped :
    (f : ℕ) (bytes : List ℕ)
    → Skipped bytes
    → frames (suc f) bytes ≡ frames f (drop header_size bytes)
unfolding frames
frames-Skipped f bytes h = ground arith

-- What is cut out is whole messages, and what remains is the beginning of one.
pub frames_lem :
    (f : ℕ) (bytes : List ℕ)
    → length bytes ≤ f
    → All IsMessage (frames f bytes).0 × IsPartial (frames f bytes).1
frames_lem zero bytes h =
    rw (frames-IsPartial zero bytes (inl (omega arith))) (tt, inl (omega arith))
frames_lem (suc f) bytes h =
    let len = message_length bytes in
    elim (frame_cases bytes) [
      | inl a ↦ rw (frames-IsPartial (suc f) bytes a) (tt, a)
      | inr (inl a) ↦
          let ih = frames_lem f (drop len bytes) (omega (arith, length-drop len bytes)) in
          rw (frames-Whole f bytes a) ((take-IsMessage bytes a.0 a.1, ih.0), ih.1)
      | inr (inr a) ↦
          rw (frames-Skipped f bytes a)
            (frames_lem f (drop header_size bytes) (omega (arith, length-drop header_size bytes)))
    ]

-- The pieces of a stream, one after the other: the messages of the first, then those of what remained
-- of it with the second.
abbrev pub continue_with : ℕ → List (List ℕ) × List ℕ → List ℕ → List (List ℕ) × List ℕ
continue_with h (messages, remaining) ys =
    (messages ++ (frames h (remaining ++ ys)).0, (frames h (remaining ++ ys)).1)

pub frames-append :
    (f g h : ℕ) (xs ys : List ℕ)
    → length xs ≤ f
    → length xs + length ys ≤ g
    → length xs + length ys ≤ h
    → frames g (xs ++ ys) ≡ continue_with h (frames f xs) ys
frames-append zero g h xs ys p q r = rw (frames-IsPartial zero xs (inl (omega arith))) (
    frames_enough g h (xs ++ ys) (omega (arith, length-append xs ys))
      (omega (arith, length-append xs ys)))
frames-append (suc f) zero h xs ys p q r = rw (frames-IsPartial (suc f) xs (inl (omega arith))) (
    frames_enough zero h (xs ++ ys) (omega (arith, length-append xs ys))
      (omega (arith, length-append xs ys)))
frames-append (suc f) (suc g) h xs ys p q r =
    let len = message_length xs in
    elim (frame_cases xs) [
      | inl a ↦ rw (frames-IsPartial (suc f) xs a) (
          frames_enough (suc g) h (xs ++ ys) (omega (arith, length-append xs ys))
            (omega (arith, length-append xs ys)))
      | inr (inl a) ↦
          let same = message_length-append xs ys (omega arith) in
          let size = length-append xs ys in
          rw
            (
              frames-Whole f xs a,
              frames-Whole g (xs ++ ys) (omega (arith, same, size)),
              same,
              take-append len xs ys a.1,
              drop-append len xs ys a.1,
              frames-append f g h (drop len xs) ys (omega (arith, length-drop len xs))
                  (omega (arith, length-drop len xs)) (omega (arith, length-drop len xs)),
            )
            refl
      | inr (inr a) ↦
          let same = message_length-append xs ys (omega arith) in
          let size = length-append xs ys in
          rw
            (
              frames-Skipped f xs a,
              frames-Skipped g (xs ++ ys) (omega (arith, same, size)),
              drop-append header_size xs ys a.1,
              frames-append f g h (drop header_size xs) ys
                  (omega (arith, length-drop header_size xs))
                  (omega (arith, length-drop header_size xs))
                  (omega (arith, length-drop header_size xs)),
            )
            refl
    ]
