-- ===== src/Meshtastic/Frame/Stream.antt =====
-- What `AppendFrame` wrote, `ReadFrame` finds again, whatever noise stands between the frames.
use meshbbs.Common.{
  ℕ, zero, suc, ◌+◌, ◌/◌, ◌%◌, ◌≡◌, ◌≤◌, refl, sym, ap, ◌∙◌, Bool, true, false, ◌||◌, not, List, [],
  ◌∷◌, ◌++◌, append_assoc, append-nil, length, length-append, drop, take-length-append,
  drop-length-append, All, arith, inl, inr, Bool-cases, if_keeps, ltb, nat_beq, Result, ok, err,
  ◌>>=◌,
}
use mathlib.Core.Path.{subst}
use meshbbs.Meshtastic.Frame.{
  start1, start2, header_len, max_frame, max_log_line, append_frame, FrameReader, FrameError,
  flush_line, log_byte, skip_byte, read_payload, no_start, length_field, read_loop, read_frame,
  new_frame_reader,
}

-- The bytes of a frame.
abbrev frame_bytes : List ℕ → List ℕ
frame_bytes p = start1 ∷ start2 ∷ (length p / 256 % 256) ∷ (length p % 256) ∷ p

-- The counters and the input of a reader, without its text.
pub record Counts (fr : FrameReader) (input : List ℕ) (skipped frames : ℕ) : Type 0 where
  pub rest : fr.input ≡ input
  pub lost : fr.skipped ≡ skipped
  pub found : fr.frames ≡ frames

pub flush_line-Counts :
    (fr : FrameReader) (input : List ℕ) (n m : ℕ)
    → Counts fr input n m
    → Counts (flush_line fr) input n m
unfolding flush_line
flush_line-Counts fr input n m c =
    if_keeps (λ x. Counts x input n m) (not fr.on_text || nat_beq (length fr.line) 0) _ _ c
      (record { rest = c.rest; lost = c.lost; found = c.found })

log_byte-Counts :
    (b : ℕ) (fr : FrameReader) (input : List ℕ) (n m : ℕ)
    → Counts fr input n m
    → Counts (log_byte b fr) input n m
unfolding log_byte
log_byte-Counts b fr input n m c =
    let P : FrameReader → Type 0 = λ x. Counts x input n m in
    if_keeps P (nat_beq b 10) _ _ (flush_line-Counts fr input n m c) (
      if_keeps P (nat_beq b 13) _ _ c (
        if_keeps P (ltb (length fr.line) max_log_line) _ _
          (record { rest = c.rest; lost = c.lost; found = c.found }) c))

pub skip_byte-Counts :
    (b : ℕ) (rest : List ℕ) (fr : FrameReader)
    → Counts (skip_byte b rest fr) rest (fr.skipped + 1) fr.frames
unfolding skip_byte
skip_byte-Counts b rest fr =
    let fr' : FrameReader = record fr { input = rest; skipped = fr.skipped + 1 } in
    let c : Counts fr' rest (fr.skipped + 1) fr.frames = record {
      rest = refl;
      lost = refl;
      found = refl;
    } in
    if_keeps (λ x. Counts x rest (fr.skipped + 1) fr.frames) fr.on_text _ _
      (log_byte-Counts b fr' rest (fr.skipped + 1) fr.frames c) c

-- Skipping a list of bytes before `tail`.
skips : List ℕ → List ℕ → FrameReader → FrameReader
skips [] tail fr = fr
skips (b ∷ bs) tail fr = skips bs tail (skip_byte b (bs ++ tail) fr)

skips-Counts :
    (bs tail : List ℕ) (fr : FrameReader)
    → fr.input ≡ bs ++ tail
    → Counts (skips bs tail fr) tail (fr.skipped + length bs) fr.frames
unfolding skips
skips-Counts [] tail fr h = record { rest = h; lost = omega arith; found = refl }
skips-Counts (b ∷ bs) tail fr h =
    let c = skip_byte-Counts b (bs ++ tail) fr in
    let d = skips-Counts bs tail (skip_byte b (bs ++ tail) fr) c.rest in
    record { rest = d.rest; lost = omega (arith, d.lost, c.lost); found = d.found ∙ c.found }

-- Nowhere do the two start bytes follow each other.
abbrev pub IsNoise : List ℕ → Type 0
IsNoise [] = Unit {0}
IsNoise (a ∷ []) = Unit {0}
IsNoise (a ∷ b ∷ bs) = (no_start a (b ∷ []) ≡ true) × IsNoise (b ∷ bs)

read_loop_skip :
    (a : ℕ) (bs : List ℕ) (fr : FrameReader)
    → no_start a bs ≡ true
    → read_loop (a ∷ bs) fr ≡ read_loop bs (skip_byte a bs fr)
unfolding read_loop
read_loop_skip a bs fr h = rw h refl

read_loop-noise :
    (bs tail : List ℕ) (fr : FrameReader)
    → IsNoise bs
    → read_loop (bs ++ (start1 ∷ tail)) fr ≡ read_loop (start1 ∷ tail) (skips bs (start1 ∷ tail) fr)
unfolding skips no_start
read_loop-noise [] tail fr h = refl
read_loop-noise (a ∷ []) tail fr h = read_loop_skip a (start1 ∷ tail) fr (ground arith)
read_loop-noise (a ∷ b ∷ bs) tail fr (h, hs) =
    read_loop_skip a (b ∷ (bs ++ (start1 ∷ tail))) fr h
    ∙ read_loop-noise (b ∷ bs) tail (skip_byte a (b ∷ (bs ++ (start1 ∷ tail))) fr) hs

read_loop_start :
    (bs : List ℕ) (fr : FrameReader) (n : ℕ)
    → no_start start1 bs ≡ false
    → 3 ≤ length bs
    → length_field bs ≡ n
    → n ≤ max_frame
    → read_loop (start1 ∷ bs) fr ≡ read_payload n (drop 3 bs) fr
unfolding read_loop
read_loop_start bs fr n h l e f =
    let short : ltb (suc (length bs)) header_len ≡ false = ground arith in
    let small : ltb max_frame (length_field bs) ≡ false = ground arith in
    rw (h, short, small) (ap (λ k. read_payload k (drop 3 bs) fr) e)

read_payload-append :
    (p rest : List ℕ) (fr : FrameReader)
    → let r = read_payload (length p) (p ++ rest) fr in
      (r.1 ≡ ok p) × Counts r.0 rest fr.skipped (fr.frames + 1)
unfolding read_payload
read_payload-append p rest fr =
    let enough : ltb (length (p ++ rest)) (length p) ≡ false =
      ground (arith, length-append p rest) in
    let c =
      flush_line-Counts fr fr.input fr.skipped fr.frames
        (record { rest = refl; lost = refl; found = refl }) in
    simp enough (
      ap ok (take-length-append p rest),
      record { rest = drop-length-append p rest; lost = c.lost; found = omega (arith, c.found) },
    )

no_start_frame : (bs : List ℕ) → no_start start1 (start2 ∷ bs) ≡ false
unfolding no_start
no_start_frame bs = refl

-- A frame behind noise.
read_loop-frame :
    (noise p rest : List ℕ) (fr : FrameReader)
    → IsNoise noise
    → length p ≤ max_frame
    → fr.input ≡ noise ++ (frame_bytes p ++ rest)
    → let r = read_frame fr in
      (r.1 ≡ ok p) × Counts r.0 rest (fr.skipped + length noise) (fr.frames + 1)
unfolding read_frame
read_loop-frame noise p rest fr h fits e =
    let tail = start2 ∷ (length p / 256 % 256) ∷ (length p % 256) ∷ (p ++ rest) in
    let c = skips-Counts noise (start1 ∷ tail) fr e in
    let passed = skips noise (start1 ∷ tail) fr in
    let same =
      read_loop-noise noise tail fr h
      ∙ read_loop_start tail passed (length p) (no_start_frame _) (ground arith) (omega arith)
          fits in
    let (found, d) = read_payload-append p rest passed in
    subst (λ x. (x.1 ≡ ok p) × Counts x.0 rest (fr.skipped + length noise) (fr.frames + 1))
      (sym (ap (λ i. read_loop i fr) e ∙ same))
      (
        found,
        record { rest = d.rest; lost = d.lost ∙ c.lost; found = omega (arith, d.found, c.found) },
      )

-- Noise and then a payload, as the writers of the stream put them.
abbrev pub Piece : Type 0
Piece = List ℕ × List ℕ

unfoldable pub write_all : List ℕ → List Piece → Result FrameError (List ℕ)
write_all dst [] = ok dst
write_all dst ((noise, p) ∷ ps) = do out ← append_frame (dst ++ noise) p; write_all out ps

-- Reading the given number of frames, or up to an error: the payloads.
unfoldable pub read_frames : ℕ → FrameReader → FrameReader × List (List ℕ)
read_frames zero fr = (fr, [])
read_frames (suc n) fr =
    let (fr', r) = read_frame fr in
    let (last, ps) = read_frames n fr' in elim r [ ok p ↦ (last, p ∷ ps) | err e ↦ (fr', []) ]

abbrev pub noise_of : List Piece → ℕ
noise_of [] = 0
noise_of ((noise, p) ∷ ps) = length noise + noise_of ps

abbrev pub payloads : List Piece → List (List ℕ)
payloads [] = []
payloads ((noise, p) ∷ ps) = p ∷ payloads ps

abbrev AllFit : List Piece → Type 0
AllFit = All (λ x. length x.1 ≤ max_frame)

-- The bytes that the pieces become.
abbrev wire : List Piece → List ℕ
wire [] = []
wire ((noise, p) ∷ ps) = noise ++ (frame_bytes p ++ wire ps)

write_all-wire :
    (dst : List ℕ) (ps : List Piece) (out : List ℕ)
    → write_all dst ps ≡ ok out
    → (out ≡ dst ++ wire ps) × AllFit ps
unfolding write_all append_frame
write_all-wire dst [] out h = (ground (arith, append-nil dst), tt)
write_all-wire dst ((noise, p) ∷ ps) out h = elim (Bool-cases (ltb max_frame (length p))) [
  | inl long ↦ absurd (ground arith)
  | inr fits ↦
      let (e, fs) = write_all-wire ((dst ++ noise) ++ frame_bytes p) ps out (ground arith) in
      (e ∙ simp append_assoc, (ground arith, fs))
]

read_frames-wire :
    (ps : List Piece) (fr : FrameReader)
    → All (λ x. IsNoise x.0) ps
    → AllFit ps
    → fr.input ≡ wire ps
    → let r = read_frames (length ps) fr in
      (r.1 ≡ payloads ps) × Counts r.0 [] (fr.skipped + noise_of ps) (fr.frames + length ps)
unfolding read_frames
read_frames-wire [] fr h f e = (refl, record { rest = e; lost = omega arith; found = omega arith })
read_frames-wire ((noise, p) ∷ ps) fr (h, hs) (f, fs) e =
    let (got, c) = read_loop-frame noise p (wire ps) fr h f e in
    let (later, d) = read_frames-wire ps (read_frame fr).0 hs fs c.rest in
    rw (got, read_frames)
      (
        ap (λ l. p ∷ l) later,
        record {
          rest = d.rest;
          lost = omega (arith, d.lost, c.lost);
          found = omega (arith, d.found, c.found);
        },
      )

-- Payloads that `AppendFrame` accepts come back from `ReadFrame` one by one, in order and unchanged,
-- whatever bytes stand between the frames, as long as the two start bytes never follow each other
-- there: a stray start byte just before a frame does no harm. All of the input is read, and the
-- counters tell the noise from the frames.
pub read_frames-write_all :
    (ps : List Piece) (bytes : List ℕ) (on_text : Bool)
    → write_all [] ps ≡ ok bytes
    → All (λ x. IsNoise x.0) ps
    → let r = read_frames (length ps) (new_frame_reader bytes on_text) in
      (r.1 ≡ payloads ps)
      × (r.0.input ≡ [])
      × (r.0.skipped ≡ noise_of ps)
      × (r.0.frames ≡ length ps)
read_frames-write_all ps bytes on_text h noisy =
    let (e, fits) = write_all-wire [] ps bytes h in
    let (got, c) = read_frames-wire ps (new_frame_reader bytes on_text) noisy fits e in
    (got, c.rest, omega (arith, c.lost), omega (arith, c.found))
