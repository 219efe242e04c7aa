-- ===== src/Containers/Demux.antt =====
-- supervisor/internal/agentcontainer/demux.go. The source is the bytes that it gives and how it
-- ends; the two pipes are what is written to them, in order, and the error that closes both. The
-- readers of the pipes do not close them before the end.
pub mod Frames
use garrison.Common.{
  ℕ, zero, suc, ◌+◌, ◌-◌, ◌*◌, ◌/◌, ◌%◌, ◌≤◌, ◌<◌, ◌≡◌, Bool, true, false, Option, none, some, List,
  [], ◌∷◌, ◌++◌, ltb, leb, ◌==◌, length, take, if◌then◌else◌,
}

-- `io.EOF` closes a pipe as if there were no error, so `clean` stands for both.
pub data Closed : Type 0 where
  clean unexpected_eof : Closed
  read_error : ℕ → Closed
  unknown_stream : ℕ → Closed

pub record Demuxed : Type 0 where
  pub stdout : List ℕ
  pub stderr : List ℕ
  pub closed : Closed

pub record Header : Type 0 where
  pub stream : ℕ
  pub size : ℕ

-- The end of the source: an error, or `io.EOF`.
abbrev at_end : Option ℕ → Closed
at_end none = clean
at_end (some e) = read_error e

-- The end within a header, for `io.ReadFull`.
abbrev in_header : Option ℕ → Closed
in_header none = unexpected_eof
in_header (some e) = read_error e

abbrev finished : Closed → Demuxed
finished c = record { stdout = []; stderr = []; closed = c }

-- `io.ReadFull` of a header
read_header : List ℕ → Option (Header × List ℕ)
read_header (s ∷ a ∷ b ∷ c ∷ n3 ∷ n2 ∷ n1 ∷ n0 ∷ rest) =
    some (record { stream = s; size = n3 * 16777216 + n2 * 65536 + n1 * 256 + n0 }, rest)
read_header _ = none

abbrev pub drop : ℕ → List ℕ → List ℕ
drop zero xs = xs
drop (suc n) [] = []
drop (suc n) (x ∷ xs) = drop n xs

-- Whether a stream byte is known, and goes to stdout.
pub data Target : Type 0 where
  to_stdout to_stderr : Target

abbrev target_of : ℕ → Option Target
target_of s = if leb s 1 then some to_stdout else if s == 2 then some to_stderr else none

abbrev pub write : Target → List ℕ → Demuxed → Demuxed
write to_stdout payload d = record d { stdout = payload ++ d.stdout }
write to_stderr payload d = record d { stderr = payload ++ d.stderr }

module _ (end : Option ℕ) where
  -- What is written for a header and the bytes behind it, given what the rest gives.
  with_header : Header → List ℕ → Demuxed → Demuxed
  with_header h rest later = elim (target_of h.stream) [
    | none ↦ finished (unknown_stream h.stream)
    | some target ↦
        if ltb (length rest) h.size
        then write target rest (finished (at_end end))
        else write target (take h.size rest) later
  ]

  -- The loop, on fuel: each round but the last takes a header of eight bytes.
  frames : ℕ → List ℕ → Demuxed
  unfolding read_header with_header
  frames zero raw = finished (at_end end)
  frames (suc fuel) [] = finished (at_end end)
  frames (suc fuel) (x ∷ raw) = elim (read_header (x ∷ raw)) [
    | none ↦ finished (in_header end)
    | some (h, rest) ↦ let later = frames fuel (drop h.size rest) in with_header h rest later
  ]

  unfoldable pub demux_raw_stream : List ℕ → Demuxed
  unfolding frames
  demux_raw_stream raw = frames (length raw) raw
