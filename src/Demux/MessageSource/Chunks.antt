-- ===== src/Demux/MessageSource/Chunks.antt =====
-- `submitPayload` on a stream that comes in pieces: the client keeps the bytes that were not used.
use libofp.Base.{
  ℕ, zero, suc, ◌+◌, ◌-◌, ◌≤◌, ◌≡◌, inl, inr, false, List, [], ◌++◌, All, length, drop,
  length-append, length-drop, drop-drop, arith, refl, ap, sym, ◌∙◌,
}
use libofp.Demux.MessageSource.{header_size, message_length, frames, submit_payload}
use libofp.Demux.MessageSource.Framing.{
  frames_enough, IsMessage, IsPartial, frame_cases, frames-IsPartial, frames-Whole, frames-Skipped,
  frames_lem, frames-append,
}

frames-zero : (xs : List ℕ) → frames zero xs ≡ ([], xs)
unfolding frames
frames-zero xs = refl

drop_none : (xs : List ℕ) → (length xs ≤ length xs) × (drop (length xs - length xs) xs ≡ xs)
drop_none xs =
    let e : length xs - length xs ≡ 0 = omega arith in (omega arith, ap (λ k. drop k xs) e)

-- The same, after one round that uses `n` bytes.
suffix_step :
    (n : ℕ) (xs r : List ℕ)
    → n ≤ length xs
    → (length r ≤ length (drop n xs)) × (drop (length (drop n xs) - length r) (drop n xs) ≡ r)
    → (length r ≤ length xs) × (drop (length xs - length r) xs ≡ r)
suffix_step n xs r h (short, e) = (
  omega (arith, length-drop n xs),
  ap (λ k. drop k xs) (omega (arith, length-drop n xs))
      ∙ sym (drop-drop (length (drop n xs) - length r) n xs)
      ∙ e,
)

-- What remains is the end of the bytes.
frames_suffix :
    (f : ℕ) (xs : List ℕ)
    → (length (frames f xs).1 ≤ length xs)
      × (drop (length xs - length (frames f xs).1) xs ≡ (frames f xs).1)
frames_suffix zero xs = rw (frames-zero xs) (drop_none xs)
frames_suffix (suc f) xs =
    let len = message_length xs in
    elim (frame_cases xs) [
      | inl a ↦ rw (frames-IsPartial (suc f) xs a) (drop_none xs)
      | inr (inl a) ↦
          rw (frames-Whole f xs a) (suffix_step len xs _ a.1 (frames_suffix f (drop len xs)))
      | inr (inr a) ↦
          rw (frames-Skipped f xs a)
            (suffix_step header_size xs _ a.1 (frames_suffix f (drop header_size xs)))
    ]

-- A stream that comes in two pieces gives the messages, and uses up the bytes, that it gives in one
-- piece, where the bytes not used of the first piece are submitted again before the second.
pub submit_payload-append :
    (xs ys : List ℕ)
    → let (first, used) = submit_payload false xs in
      let (second, more) = submit_payload false (drop used xs ++ ys) in
      submit_payload false (xs ++ ys) ≡ (first ++ second, used + more)
unfolding submit_payload
submit_payload-append xs ys =
    let r = (frames (length xs) xs).1 in
    let (short, rest) = frames_suffix (length xs) xs in
    let (short', _) = frames_suffix (length (r ++ ys)) (r ++ ys) in
    let fuel : length xs + length ys ≤ length (xs ++ ys) = omega (arith, length-append xs ys) in
    let whole =
      frames-append (length xs) (length (xs ++ ys)) (length (xs ++ ys)) xs ys (omega arith) fuel
        fuel in
    let counts : length (xs ++ ys) - length (frames (length (r ++ ys)) (r ++ ys)).1
        ≡ length xs
          - length r
          + (length (r ++ ys) - length (frames (length (r ++ ys)) (r ++ ys)).1) =
      omega (arith, short, short', length-append xs ys, length-append r ys) in
    let less =
      frames_enough (length (xs ++ ys)) (length (r ++ ys)) (r ++ ys)
        (omega (arith, short, fuel, length-append r ys)) (omega arith) in
    rw (rest, whole, less)
      (ap (λ k. ((frames (length xs) xs).0 ++ (frames (length (r ++ ys)) (r ++ ys)).0, k)) counts)

-- What is delivered is whole messages, each as long as its header says, and what is not used up of
-- the bytes does not begin with a whole message or a header too short.
pub submit_payload_lem :
    (xs : List ℕ)
    → let (messages, used) = submit_payload false xs in
      All IsMessage messages × (used ≤ length xs) × IsPartial (drop used xs)
unfolding submit_payload
submit_payload_lem xs =
    let (messages, partial) = frames_lem (length xs) xs (omega arith) in
    let (short, rest) = frames_suffix (length xs) xs in (messages, omega arith, rw rest partial)
