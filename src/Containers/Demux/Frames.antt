-- ===== src/Containers/Demux/Frames.antt =====
-- Frames that are written one after the other come apart again.
use garrison.Common.{
  append-nil, ℕ, zero, suc, ◌+◌, ◌-◌, ◌*◌, ◌/◌, ◌%◌, ◌≤◌, ◌<◌, ◌≡◌, refl, ◌∙◌, ap, sym, true, false,
  Option, List, [], ◌∷◌, ◌++◌, ltb, length, take, All, arith, length-append, if-elim,
}
use garrison.Containers.Demux.{
  Demuxed, at_end, finished, read_header, drop, Target, to_stdout, to_stderr, write, with_header,
  frames, demux_raw_stream,
}

pub record Frame : Type 0 where
  pub target : Target
  pub payload : List ℕ

abbrev pub stream_byte : Target → ℕ
stream_byte to_stdout = 1
stream_byte to_stderr = 2

-- The frame on the wire: the stream, three zeros, and the length as a big-endian word of 32 bits.
abbrev pub header : Target → ℕ → List ℕ → List ℕ
header t n rest =
    stream_byte t ∷ 0 ∷ 0 ∷ 0 ∷ n / 16777216 ∷ n / 65536 % 256 ∷ n / 256 % 256 ∷ n % 256 ∷ rest

abbrev pub encode : Frame → List ℕ
encode f = header f.target (length f.payload) f.payload

abbrev pub encode_all : List Frame → List ℕ
encode_all [] = []
encode_all (f ∷ fs) = encode f ++ encode_all fs

abbrev pub of_target : Target → List Frame → List ℕ
of_target t [] = []
of_target to_stdout (f ∷ fs) = elim (f.target) [
  | to_stdout ↦ f.payload ++ of_target to_stdout fs
  | to_stderr ↦ of_target to_stdout fs
]
of_target to_stderr (f ∷ fs) = elim (f.target) [
  | to_stdout ↦ of_target to_stderr fs
  | to_stderr ↦ f.payload ++ of_target to_stderr fs
]

abbrev pub IsShort : Frame → Type 0
IsShort f = length f.payload < 4294967296

take-append : (xs ys : List ℕ) → take (length xs) (xs ++ ys) ≡ xs
take-append [] [] = refl
take-append [] (y ∷ ys) = refl
take-append (x ∷ xs) ys = ap (λ zs. x ∷ zs) (take-append xs ys)

drop-append : (xs ys : List ℕ) → drop (length xs) (xs ++ ys) ≡ ys
drop-append [] ys = refl
drop-append (x ∷ xs) ys = drop-append xs ys

word :
    (n : ℕ)
    → n < 4294967296
    → (n / 16777216) * 16777216 + (n / 65536 % 256) * 65536 + (n / 256 % 256) * 256 + n % 256 ≡ n
word n h = omega arith

abbrev joined : Option ℕ → List Frame → Demuxed
joined end fs = record {
  stdout = of_target to_stdout fs;
  stderr = of_target to_stderr fs;
  closed = at_end end;
}

short : (xs ys : List ℕ) → ¬ (ltb (length (xs ++ ys)) (length xs) ≡ true)
short xs ys h = let e = length-append xs ys in ground arith

append_assoc : (xs ys zs : List ℕ) → (xs ++ ys) ++ zs ≡ xs ++ (ys ++ zs)
append_assoc [] ys zs = refl
append_assoc (x ∷ xs) ys zs = ap (λ ws. x ∷ ws) (append_assoc xs ys zs)

length-encode_all : (fs : List Frame) → length fs ≤ length (encode_all fs)
length-encode_all [] = omega arith
length-encode_all (f ∷ fs) =
    omega (arith, length-append (encode f) (encode_all fs), length-encode_all fs)

abbrev more : List Frame → ℕ → ℕ
more [] n = n
more (f ∷ fs) n = suc (more fs n)

more-length : (fs : List Frame) (n : ℕ) → more fs n ≡ length fs + n
more-length [] n = omega arith
more-length (f ∷ fs) n = omega (arith, more-length fs n)

not_less : (a b : ℕ) → a < b → ¬ (ltb a b ≡ false)
not_less a b h e = ground arith

-- What the frames give before the rest.
abbrev prepend : List Frame → Demuxed → Demuxed
prepend [] d = d
prepend (f ∷ fs) d = write f.target f.payload (prepend fs d)

module _ (end : Option ℕ) where
  -- A header whose length is there.
  with_header-full :
      (t : Target) (size : ℕ) (payload tail : List ℕ) (later : Demuxed)
      → size ≡ length payload
      → with_header end (record { stream = stream_byte t; size = size }) (payload ++ tail) later
        ≡ write t payload later
  unfolding with_header
  with_header-full to_stdout size payload tail later e = rw e (
      if-elim (λ d. d ≡ write to_stdout payload later)
        (ltb (length (payload ++ tail)) (length payload)) _ _ (λ y. absurd (short payload tail y))
        (λ n. ap (λ xs. write to_stdout xs later) (take-append payload tail)))
  with_header-full to_stderr size payload tail later e = rw e (
      if-elim (λ d. d ≡ write to_stderr payload later)
        (ltb (length (payload ++ tail)) (length payload)) _ _ (λ y. absurd (short payload tail y))
        (λ n. ap (λ xs. write to_stderr xs later) (take-append payload tail)))

  frames-step :
      (n : ℕ) (f : Frame) (tail : List ℕ)
      → IsShort f
      → frames end (suc n) (encode f ++ tail) ≡ write f.target f.payload (frames end n tail)
  unfolding frames read_header
  frames-step n f tail s =
      let w = word (length f.payload) s in
      rw (w, drop-append f.payload tail)
        (with_header-full f.target (length f.payload) f.payload tail (frames end n tail) refl)

  frames-all :
      (fs : List Frame) (n : ℕ) (tail : List ℕ)
      → All IsShort fs
      → frames end (more fs n) (encode_all fs ++ tail) ≡ prepend fs (frames end n tail)
  frames-all [] n tail s = refl
  frames-all (f ∷ fs) n tail s = rw (append_assoc (encode f) (encode_all fs) tail) (
      frames-step (more fs n) f (encode_all fs ++ tail) s.0
      ∙ ap (write f.target f.payload) (frames-all fs n tail s.1))

  -- Any fuel from the number of the frames on is enough.
  frames-enough :
      (fs : List Frame) (n : ℕ) (tail : List ℕ)
      → All IsShort fs
      → length fs ≤ n
      → frames end n (encode_all fs ++ tail) ≡ prepend fs (frames end (n - length fs) tail)
  frames-enough fs n tail s h =
      let e : n ≡ more fs (n - length fs) = omega (arith, more-length fs (n - length fs)) in
      ap (λ k. frames end k (encode_all fs ++ tail)) e ∙ frames-all fs (n - length fs) tail s

  frames-nil : (n : ℕ) → frames end n [] ≡ finished (at_end end)
  unfolding frames
  frames-nil zero = refl
  frames-nil (suc n) = refl

  write-joined :
      (t : Target) (p : List ℕ) (fs : List Frame)
      → write t p (joined end fs) ≡ joined end (record { target = t; payload = p } ∷ fs)
  write-joined to_stdout p fs = refl
  write-joined to_stderr p fs = refl

  prepend-joined : (fs : List Frame) → prepend fs (finished (at_end end)) ≡ joined end fs
  prepend-joined [] = refl
  prepend-joined (f ∷ fs) =
      ap (write f.target f.payload) (prepend-joined fs) ∙ write-joined f.target f.payload fs

  -- Frames of less than 2 ^ 32 bytes, written one after the other, come apart again: the payloads of
  -- each target arrive on its pipe, in order and whole, and the pipes close as the source ends.
  pub demux_raw_stream-encode :
      (fs : List Frame)
      → All IsShort fs
      → demux_raw_stream end (encode_all fs) ≡ record {
        stdout = of_target to_stdout fs;
        stderr = of_target to_stderr fs;
        closed = at_end end;
      }
  unfolding demux_raw_stream
  demux_raw_stream-encode fs s =
      let e = append-nil (encode_all fs) in
      ap (frames end (length (encode_all fs))) (sym e)
      ∙ frames-enough fs (length (encode_all fs)) [] s (length-encode_all fs)
      ∙ ap (prepend fs) (frames-nil _)
      ∙ prepend-joined fs

  -- What is left of a frame that was cut within its payload.
  cut-End :
      (n : ℕ) (t : Target) (size : ℕ) (p : List ℕ)
      → size < 4294967296
      → length p < size
      → frames end (suc n) (header t size p) ≡ write t p (finished (at_end end))
  unfolding frames read_header with_header
  cut-End n to_stdout size p s h = rw (word size s) (
      if-elim (λ d. d ≡ write to_stdout p (finished (at_end end))) (ltb (length p) size) _ _
        (λ y. refl) (λ m. absurd (not_less (length p) size h m)))
  cut-End n to_stderr size p s h = rw (word size s) (
      if-elim (λ d. d ≡ write to_stderr p (finished (at_end end))) (ltb (length p) size) _ _
        (λ y. refl) (λ m. absurd (not_less (length p) size h m)))

  frames-whole :
      (fs : List Frame) (f : Frame)
      → All IsShort fs
      → IsShort f
      → demux_raw_stream end (encode_all fs ++ encode f)
        ≡ prepend fs (write f.target f.payload (finished (at_end end)))
  unfolding demux_raw_stream
  frames-whole fs f s b =
      let raw = encode_all fs ++ encode f in
      let room : suc (length fs) ≤ length raw =
        omega (arith, length-append (encode_all fs) (encode f), length-encode_all fs) in
      let k = length raw - suc (length fs) in
      let e : length raw ≡ more fs (suc k) = omega (arith, more-length fs (suc k)) in
      ap (λ n. frames end n raw) e
      ∙ frames-all fs (suc k) (encode f) s
      ∙ ap (prepend fs) (
          ap (frames end (suc k)) (sym (append-nil (encode f)))
          ∙ frames-step k f [] b
          ∙ ap (write f.target f.payload) (frames-nil k))

  frames-cut :
      (fs : List Frame) (t : Target) (size : ℕ) (p : List ℕ)
      → All IsShort fs
      → size < 4294967296
      → length p < size
      → demux_raw_stream end (encode_all fs ++ header t size p)
        ≡ prepend fs (write t p (finished (at_end end)))
  unfolding demux_raw_stream
  frames-cut fs t size p s b h =
      let raw = encode_all fs ++ header t size p in
      let room : suc (length fs) ≤ length raw =
        omega (arith, length-append (encode_all fs) (header t size p), length-encode_all fs) in
      let e : length raw ≡ more fs (suc (length raw - suc (length fs))) =
        omega (arith, more-length fs (suc (length raw - suc (length fs)))) in
      ap (λ k. frames end k raw) e
      ∙ frames-all fs (suc (length raw - suc (length fs))) (header t size p) s
      ∙ ap (prepend fs) (cut-End (length raw - suc (length fs)) t size p b h)

  prepend-append : (fs gs : List Frame) → prepend fs (joined end gs) ≡ joined end (fs ++ gs)
  prepend-append [] gs = refl
  prepend-append (f ∷ fs) gs =
      ap (write f.target f.payload) (prepend-append fs gs)
      ∙ write-joined f.target f.payload (fs ++ gs)

  -- A source that ends within the payload of a frame gives what came of that frame, behind the frames
  -- before it, and the pipes close as the source ends: without an error if the source ended without
  -- one. So it cannot be told from a source whose last frame is whole and shorter.
  pub demux_raw_stream-cut :
      (fs : List Frame) (t : Target) (size : ℕ) (p : List ℕ)
      → All IsShort fs
      → size < 4294967296
      → length p < size
      → (demux_raw_stream end (encode_all fs ++ header t size p) ≡ record {
        stdout = of_target to_stdout (fs ++ record { target = t; payload = p } ∷ []);
        stderr = of_target to_stderr (fs ++ record { target = t; payload = p } ∷ []);
        closed = at_end end;
      })
        × (demux_raw_stream end (encode_all fs ++ header t size p)
            ≡ demux_raw_stream end (encode_all fs ++ header t (length p) p))
  unfolding demux_raw_stream
  demux_raw_stream-cut fs t size p s b h =
      let whole : Frame = record { target = t; payload = p } in
      let cut = frames-cut fs t size p s b h in
      (
        cut ∙ ap (prepend fs) (write-joined t p []) ∙ prepend-append fs (whole ∷ []),
        cut ∙ sym (frames-whole fs whole s (omega arith)),
      )
