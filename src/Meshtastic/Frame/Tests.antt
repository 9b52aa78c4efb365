-- ===== src/Meshtastic/Frame/Tests.antt =====
-- Concrete streams: runs, and the theorems at inputs where their hypotheses hold.
use meshbbs.Common.{ℕ, ◌≡◌, refl, true, false, List, [], ◌∷◌, ok, err}
use meshbbs.Meshtastic.Frame.{
  append_frame, eof, new_frame_reader, read_frame, read_loop, skip_byte, log_byte, flush_line,
  sanitise, no_start, read_payload,
}
use meshbbs.Meshtastic.Frame.Stream.{Piece, write_all, read_frames, read_frames-write_all}
use meshbbs.Meshtastic.Frame.Account.{Accounts, read_frame-Accounts}

-- A log line, and a start byte that a frame before has left behind.
abbrev pieces : List Piece
pieces = (104 ∷ 105 ∷ 27 ∷ 10 ∷ [], 7 ∷ 8 ∷ []) ∷ (0x94 ∷ 0x94 ∷ [], []) ∷ []

abbrev bytes : List ℕ
bytes = 104 ∷ 105 ∷ 27 ∷ 10 ∷ 0x94 ∷ 0xc3 ∷ 0 ∷ 2 ∷ 7 ∷ 8 ∷ 0x94 ∷ 0x94 ∷ 0x94 ∷ 0xc3 ∷ 0 ∷ 0 ∷ []

pieces_written : write_all [] pieces ≡ ok bytes
unfolding write_all append_frame
pieces_written = refl

logged : (read_frame (new_frame_reader bytes true)).0.texts ≡ (104 ∷ 105 ∷ 46 ∷ []) ∷ []
unfolding read_frame read_loop skip_byte log_byte flush_line sanitise no_start read_payload
logged = refl

-- A header whose length is above MaxFrame is noise.
too_long : (read_frame (new_frame_reader (0x94 ∷ 0xc3 ∷ 2 ∷ 1 ∷ 5 ∷ []) false)).1 ≡ err eof
unfolding read_frame read_loop skip_byte log_byte flush_line sanitise no_start read_payload
too_long = refl

read_frames-write_all_example :
    let r = read_frames 2 (new_frame_reader bytes true) in
    (r.1 ≡ (7 ∷ 8 ∷ []) ∷ [] ∷ []) × (r.0.input ≡ []) × (r.0.skipped ≡ 6) × (r.0.frames ≡ 2)
unfolding no_start
read_frames-write_all_example =
    read_frames-write_all pieces bytes true pieces_written
      ((refl, (refl, (refl, tt))), ((refl, tt), tt))

read_frame-Accounts_example : Accounts bytes 0 0 (read_frame (new_frame_reader bytes true))
read_frame-Accounts_example = read_frame-Accounts (new_frame_reader bytes true)
