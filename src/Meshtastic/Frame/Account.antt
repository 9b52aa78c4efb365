-- ===== src/Meshtastic/Frame/Account.antt =====
-- What `ReadFrame` does with each byte that it takes from the stream.
use meshbbs.Common.{
  ℕ, suc, ◌+◌, ◌≡◌, ◌≤◌, ◌<◌, ◌⊎◌, refl, ◌∙◌, List, [], ◌∷◌, length, length-take, length-drop, take,
  drop, arith, inl, inr, Bool-cases, ltb, Result, ok, err,
}
use meshbbs.Meshtastic.Frame.{
  header_len, max_frame, FrameReader, FrameError, eof, unexpected_eof, skip_byte, skip_all,
  read_payload, no_start, length_field, read_loop, read_frame,
}
use meshbbs.Meshtastic.Frame.Stream.{Counts, flush_line-Counts, skip_byte-Counts}

-- How many of `total` bytes were skipped where the stream ends within a frame: all of them, where
-- less than a header is left; all but the header and the `k` bytes of a payload that is short.
abbrev CutOff : ℕ → ℕ → Type 0
CutOff total skipped =
    (skipped ≡ total) ⊎ ((k : ℕ) × (k < max_frame) × (total ≡ skipped + header_len + k))

-- What one call of `ReadFrame` did with the bytes `bs` of a reader that had skipped `n` and found
-- `m` frames.
abbrev pub Accounts : List ℕ → ℕ → ℕ → FrameReader × Result FrameError (List ℕ) → Type 0
Accounts bs n m r =
    ((p : List ℕ) × (r.1 ≡ ok p)
      × (length p ≤ max_frame)
      × (length bs + n ≡ r.0.skipped + header_len + length p + length r.0.input)
      × (r.0.frames ≡ m + 1))
    ⊎ (((r.1 ≡ err eof) × (r.0.skipped ≡ length bs + n) × (r.0.frames ≡ m))
        ⊎ ((r.1 ≡ err unexpected_eof)
            × (r.0.input ≡ [])
            × (r.0.frames ≡ m)
            × CutOff (length bs + n) r.0.skipped))

skip_all-Counts :
    (bs : List ℕ) (fr : FrameReader)
    → fr.input ≡ bs
    → Counts (skip_all bs fr) [] (fr.skipped + length bs) fr.frames
unfolding skip_all
skip_all-Counts [] fr h = record { rest = h; lost = omega arith; found = refl }
skip_all-Counts (b ∷ bs) fr h =
    let c = skip_byte-Counts b bs fr in
    let d = skip_all-Counts bs (skip_byte b bs fr) c.rest in
    record { rest = d.rest; lost = omega (arith, d.lost, c.lost); found = d.found ∙ c.found }

read_payload-Accounts :
    (a : ℕ) (bs : List ℕ) (fr : FrameReader)
    → 3 ≤ length bs
    → length_field bs ≤ max_frame
    → Accounts (a ∷ bs) fr.skipped fr.frames (read_payload (length_field bs) (drop 3 bs) fr)
unfolding read_payload
read_payload-Accounts a bs fr l f =
    let c =
      flush_line-Counts fr fr.input fr.skipped fr.frames
        (record { rest = refl; lost = refl; found = refl }) in
    elim (Bool-cases (ltb (length (drop 3 bs)) (length_field bs))) [
      | inl short ↦
          rw (short, read_payload)
            (inr (
              inr (
                refl,
                refl,
                c.found,
                inr (
                  length (drop 3 bs),
                  ground (arith, short),
                  ground (arith, c.lost, length-drop 3 bs),
                ),
              )))
      | inr full ↦
          rw (full, read_payload)
            (inl (
              take (length_field bs) (drop 3 bs),
              refl,
              ground (arith, length-take (length_field bs) (drop 3 bs)),
              ground (
                arith,
                c.lost,
                length-take (length_field bs) (drop 3 bs),
                length-drop (length_field bs) (drop 3 bs),
                length-drop 3 bs,
              ),
              omega (arith, c.found),
            ))
    ]

skipped_one :
    (a : ℕ) (bs : List ℕ) (fr : FrameReader) (r : FrameReader × Result FrameError (List ℕ))
    → Accounts bs (skip_byte a bs fr).skipped (skip_byte a bs fr).frames r
    → Accounts (a ∷ bs) fr.skipped fr.frames r
skipped_one a bs fr r h =
    let c = skip_byte-Counts a bs fr in
    elim h [
      | inl (p, got, small, total, one) ↦
          inl (p, got, small, omega (arith, total, c.lost), omega (arith, one, c.found))
      | inr (inl (end, total, none_found)) ↦
          inr (inl (end, omega (arith, total, c.lost), none_found ∙ c.found))
      | inr (inr (cut, gone, none_found, inl all)) ↦
          inr (inr (cut, gone, none_found ∙ c.found, inl (omega (arith, all, c.lost))))
      | inr (inr (cut, gone, none_found, inr (k, small, total))) ↦
          inr (inr (cut, gone, none_found ∙ c.found, inr (k, small, omega (arith, total, c.lost))))
    ]

read_loop-Accounts :
    (bs : List ℕ) (fr : FrameReader)
    → fr.input ≡ bs
    → Accounts bs fr.skipped fr.frames (read_loop bs fr)
unfolding read_loop
read_loop-Accounts [] fr h =
    let c =
      flush_line-Counts fr fr.input fr.skipped fr.frames
        (record { rest = refl; lost = refl; found = refl }) in
    inr (inl (refl, omega (arith, c.lost), c.found))
read_loop-Accounts (a ∷ bs) fr h =
    let c = skip_byte-Counts a bs fr in
    let onward =
      skipped_one a bs fr (read_loop bs (skip_byte a bs fr))
        (read_loop-Accounts bs (skip_byte a bs fr) c.rest) in
    elim (Bool-cases (no_start a bs)) [
      | inl skip ↦ rw (skip, read_loop) onward
      | inr start ↦
          rw (start, read_loop)
            (elim (Bool-cases (ltb (suc (length bs)) header_len)) [
              | inl short ↦
                  rw (short, read_loop)
                    (let d = skip_all-Counts (a ∷ bs) fr h in
                      let e =
                        flush_line-Counts (skip_all (a ∷ bs) fr) [] (fr.skipped + length (a ∷ bs))
                          fr.frames d in
                      inr (inr (refl, e.rest, e.found, inl (omega (arith, e.lost)))))
              | inr room ↦
                  rw (room, read_loop)
                    (elim (Bool-cases (ltb max_frame (length_field bs))) [
                      | inl large ↦ rw (large, read_loop) onward
                      | inr fits ↦
                          rw (fits, read_loop)
                            (read_payload-Accounts a bs fr (ground arith) (ground arith))
                    ])
            ])
    ]

-- One call of `ReadFrame` on any stream: it returns a frame of at most MaxFrame bytes, and then the
-- bytes it took are those it counted as skipped, the four of the header and the payload; or it
-- reports the end, after it counted all the bytes that were left as skipped; or it reports a frame
-- that was cut off, at the end of the stream, and then it counted all the bytes as skipped, or all
-- but a header and the bytes, fewer than MaxFrame, of a payload that is short, which it neither counts
-- nor returns. Only the first counts a frame.
pub read_frame-Accounts :
    (fr : FrameReader) → Accounts fr.input fr.skipped fr.frames (read_frame fr)
unfolding read_frame
read_frame-Accounts fr = read_loop-Accounts fr.input fr refl
