-- ===== src/Meshtastic/Frame/Text.antt =====
-- What the reader hands to the log is fit for a terminal.
use meshbbs.Common.{
  ℕ, suc, ◌≤◌, ◌≢◌, ◌||◌, not, List, [], ◌∷◌, length, length-append, All, All-append, drop, arith,
  inl, inr, Bool-cases, if_keeps, ltb, nat_beq, Result,
}
use meshbbs.Meshtastic.Frame.{
  header_len, max_frame, max_log_line, FrameReader, FrameError, sanitise, flush_line, log_byte,
  skip_byte, skip_all, read_payload, no_start, length_field, read_loop, read_frame,
}

-- No control byte.
abbrev pub IsShown : ℕ → Type 0
IsShown b = (0x20 ≤ b) × (b ≢ 0x7f)

abbrev pub IsLine : List ℕ → Type 0
IsLine l = (length l ≤ max_log_line) × All IsShown l

-- The line so far, and every line that was handed on.
abbrev pub IsLogged : FrameReader → Type 0
IsLogged fr = IsLine fr.line × All IsLine fr.texts

sanitise-IsShown : (b : ℕ) → IsShown (sanitise b)
unfolding sanitise
sanitise-IsShown b = ground arith

flush_line-IsLogged : (fr : FrameReader) → IsLogged fr → IsLogged (flush_line fr)
unfolding flush_line
flush_line-IsLogged fr h =
    if_keeps IsLogged (not fr.on_text || nat_beq (length fr.line) 0) _ _ h
      ((omega arith, tt), All-append _ fr.texts (fr.line ∷ []) h.1 (h.0, tt))

log_byte-IsLogged : (b : ℕ) (fr : FrameReader) → IsLogged fr → IsLogged (log_byte b fr)
unfolding log_byte
log_byte-IsLogged b fr h = if_keeps IsLogged (nat_beq b 10) _ _ (flush_line-IsLogged fr h) (
    if_keeps IsLogged (nat_beq b 13) _ _ h (elim (Bool-cases (ltb (length fr.line) max_log_line)) [
      | inr full ↦ rw full h
      | inl room ↦ rw room (
        (
          ground (arith, length-append fr.line (sanitise b ∷ [])),
          All-append _ fr.line (sanitise b ∷ []) h.0.1 (sanitise-IsShown b, tt),
        ),
        h.1,
      )
    ]))

skip_byte-IsLogged :
    (b : ℕ) (rest : List ℕ) (fr : FrameReader) → IsLogged fr → IsLogged (skip_byte b rest fr)
unfolding skip_byte
skip_byte-IsLogged b rest fr h = if_keeps IsLogged fr.on_text _ _ (log_byte-IsLogged b _ h) h

skip_all-IsLogged : (bs : List ℕ) (fr : FrameReader) → IsLogged fr → IsLogged (skip_all bs fr)
unfolding skip_all
skip_all-IsLogged [] fr h = h
skip_all-IsLogged (b ∷ bs) fr h =
    skip_all-IsLogged bs (skip_byte b bs fr) (skip_byte-IsLogged b bs fr h)

read_payload-IsLogged :
    (n : ℕ) (bs : List ℕ) (fr : FrameReader) → IsLogged fr → IsLogged (read_payload n bs fr).0
unfolding read_payload
read_payload-IsLogged n bs fr h =
    let flushed = flush_line-IsLogged fr h in
    if_keeps {A = FrameReader × Result FrameError (List ℕ)} (λ r. IsLogged r.0) (ltb (length bs) n)
      _ _ flushed flushed

read_loop-IsLogged : (bs : List ℕ) (fr : FrameReader) → IsLogged fr → IsLogged (read_loop bs fr).0
unfolding read_loop
read_loop-IsLogged [] fr h = flush_line-IsLogged fr h
read_loop-IsLogged (a ∷ bs) fr h =
    let onward = read_loop-IsLogged bs (skip_byte a bs fr) (skip_byte-IsLogged a bs fr h) in
    let P : FrameReader × Result FrameError (List ℕ) → Type 0 = λ r. IsLogged r.0 in
    if_keeps P (no_start a bs) _ _ onward (
      if_keeps P (ltb (suc (length bs)) header_len) _ _
        (flush_line-IsLogged (skip_all (a ∷ bs) fr) (skip_all-IsLogged (a ∷ bs) fr h))
        (if_keeps P (ltb max_frame (length_field bs)) _ _ onward
          (read_payload-IsLogged (length_field bs) (drop 3 bs) fr h)))

-- Whatever bytes arrive, no line that `ReadFrame` hands to the log holds a control byte or is longer
-- than maxLogLine, if that was so of the lines before.
pub read_frame-IsLogged : (fr : FrameReader) → IsLogged fr → IsLogged (read_frame fr).0
unfolding read_frame
read_frame-IsLogged fr h = read_loop-IsLogged fr.input fr h
