-- ===== src/Meshtastic/Frame.antt =====
-- internal/meshtastic/frame.go: frames in a stream of bytes that also carries other things.
-- The stream behind the reader is the list of the bytes that are still to come, and it ends in EOF.
-- What `OnText` is called with is collected in `texts`.
pub mod Stream
pub mod Account
pub mod Text
mod Tests
use meshbbs.Common.{
  ℕ, zero, suc, ◌+◌, ◌*◌, ◌/◌, ◌%◌, Bool, true, false, ◌&&◌, ◌||◌, not, List, [], ◌∷◌, ◌++◌, length,
  take, drop, get_or, if◌then◌else◌, ltb, nat_beq, Result, ok, err,
}
use meshbbs.Common.Bytes.{be16}

abbrev pub start1 : ℕ
start1 = 0x94

abbrev pub start2 : ℕ
start2 = 0xc3

abbrev pub header_len : ℕ
header_len = 4

-- `MaxFrame` and `maxLogLine`
abbrev pub max_frame : ℕ
max_frame = 512

abbrev pub max_log_line : ℕ
max_log_line = 512

-- `ErrFrameTooLarge`, `io.EOF` and `io.ErrUnexpectedEOF`
pub data FrameError : Type 0 where
  frame_too_large eof unexpected_eof : FrameError

-- `AppendFrame`
unfoldable pub append_frame : List ℕ → List ℕ → Result FrameError (List ℕ)
append_frame dst payload =
    if ltb max_frame (length payload)
    then err frame_too_large
    else ok (dst ++ ((start1 ∷ start2 ∷ be16 (length payload)) ++ payload))

pub record FrameReader : Type 0 where
  pub input : List ℕ
  pub skipped : ℕ
  pub frames : ℕ
  pub on_text : Bool  -- whether there is a handler
  pub line : List ℕ
  pub texts : List (List ℕ)

-- `sanitise`
unfoldable pub sanitise : ℕ → ℕ
sanitise b = if ltb b 0x20 || nat_beq b 0x7f then 46 else b

-- `flushLine`
unfoldable pub flush_line : FrameReader → FrameReader
flush_line fr =
    if not fr.on_text || nat_beq (length fr.line) 0
    then fr
    else record fr { line = []; texts = fr.texts ++ (fr.line ∷ []) }

-- What `skipByte` does with a byte that it has read and counted, if there is a handler.
unfoldable pub log_byte : ℕ → FrameReader → FrameReader
log_byte b fr =
    if nat_beq b 10
    then flush_line fr
    else (if nat_beq b 13
        then fr
        else (if ltb (length fr.line) max_log_line
            then record fr { line = fr.line ++ (sanitise b ∷ []) }
            else fr))

-- `skipByte` of the next byte `b`, before `rest`.
unfoldable pub skip_byte : ℕ → List ℕ → FrameReader → FrameReader
skip_byte b rest fr =
    let fr' = record fr { input = rest; skipped = fr.skipped + 1 } in
    if fr.on_text then log_byte b fr' else fr'

-- `for range hdr { fr.skipByte() }`
unfoldable pub skip_all : List ℕ → FrameReader → FrameReader
skip_all [] fr = fr
skip_all (b ∷ bs) fr = skip_all bs (skip_byte b bs fr)

-- The payload behind a header, `bs` being what follows it: `Discard`, `flushLine`, `ReadFull`.
unfoldable pub read_payload : ℕ → List ℕ → FrameReader → FrameReader × Result FrameError (List ℕ)
read_payload n bs fr =
    let fr' = flush_line fr in
    if ltb (length bs) n
    then (record fr' { input = [] }, err unexpected_eof)
    else (record fr' { input = drop n bs; frames = fr'.frames + 1 }, ok (take n bs))

-- Whether the bytes do not open a frame: either of the two start bytes is wrong, as far as they go.
unfoldable pub no_start : ℕ → List ℕ → Bool
no_start a [] = not (nat_beq a start1)
no_start a (b ∷ bs) = not (nat_beq a start1) || not (nat_beq b start2)

-- The length field of the header that `a` opens, `bs` being the bytes after it.
abbrev pub length_field : List ℕ → ℕ
length_field bs = get_or bs 1 0 * 256 + get_or bs 2 0

-- The loop of `ReadFrame`, on the bytes still to come. Each round that goes on has skipped one.
unfoldable pub read_loop : List ℕ → FrameReader → FrameReader × Result FrameError (List ℕ)
read_loop [] fr = (flush_line fr, err eof)
read_loop (a ∷ bs) fr =
    let onward = read_loop bs (skip_byte a bs fr) in
    if no_start a bs
    then onward
    else (if ltb (suc (length bs)) header_len
        then (flush_line (skip_all (a ∷ bs) fr), err unexpected_eof)
        else (if ltb max_frame (length_field bs)
            then onward
            else read_payload (length_field bs) (drop 3 bs) fr))

-- `ReadFrame`
unfoldable pub read_frame : FrameReader → FrameReader × Result FrameError (List ℕ)
unfolding read_loop
read_frame fr = read_loop fr.input fr

-- `NewFrameReader`
abbrev pub new_frame_reader : List ℕ → Bool → FrameReader
new_frame_reader input on_text = record {
  input = input;
  skipped = 0;
  frames = 0;
  on_text = on_text;
  line = [];
  texts = [];
}

-- The loop of `sanitiseText`, and `sanitiseText`.
unfoldable pub needs_sanitising : List ℕ → Bool
needs_sanitising [] = false
needs_sanitising (b ∷ bs) = (ltb b 0x20 || nat_beq b 0x7f) || needs_sanitising bs

unfoldable pub sanitise_all : List ℕ → List ℕ
sanitise_all [] = []
sanitise_all (b ∷ bs) = sanitise b ∷ sanitise_all bs

unfoldable pub sanitise_text : List ℕ → List ℕ
sanitise_text s = if needs_sanitising s then sanitise_all s else s
