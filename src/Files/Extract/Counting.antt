-- ===== src/Files/Extract/Counting.antt =====
-- desktop/app/file_transfer.go: how many bytes one entry of an archive makes the extraction write.
use clip_cascade_go_fork.Prelude.{
  ℕ, ◌+◌, ◌-◌, ◌≤◌, ◌<◌, ◌≡◌, ◌≢◌, refl, not, Option, none, some, List, [], ◌∷◌, arith, All, length,
  if_cases, match_cases, ltb, ◌==◌, if◌then◌else◌,
}
use clip_cascade_go_fork.Protocol.Text.{text_beq, split}
use clip_cascade_go_fork.Clipboard.Capture.{Bytes}
use clip_cascade_go_fork.Files.Extract.{
  word, add_word, Write, directory, directories_above, file, Extraction, ZipEntry, ExtractError,
  write, extract_at, extract_file, count_copied, copy_reader, Copied, make_dir,
  advertised_bytes_from, first_part, size_overflow, over_limit,
}
use clip_cascade_go_fork.Files.Extract.Copying.{
  AcceptsAtMost, IsCopy, copy_reader-IsCopy, contents, add_word_exact,
}

-- The size that an archive advertises for its files.
abbrev pub file_size : ZipEntry → ℕ
file_size f = if f.is_dir then 0 else f.uncompressed_size

abbrev pub size_sum : List ZipEntry → ℕ
size_sum [] = 0
size_sum (f ∷ files) = file_size f + size_sum files

-- The bytes that were written to files.
abbrev pub bytes_written : List Write → ℕ
bytes_written [] = 0
bytes_written (directory p ∷ ws) = bytes_written ws
bytes_written (directories_above p ∷ ws) = bytes_written ws
bytes_written (file p content ∷ ws) = length content + bytes_written ws

-- The sizes are 64-bit numbers and the writers keep to `io.Writer`.
abbrev pub IsEntry : ZipEntry → Type 0
IsEntry f = (f.uncompressed_size < word) × AcceptsAtMost f.reads

-- What `zipAdvertisedExtractBytes` returns: the exact sum, if it fits in a 64-bit number.
abbrev pub Advertises : ℕ → Option ℕ → Type 0
Advertises total none = word ≤ total
Advertises total (some n) = (n ≡ total) × (total < word)

pub advertised-Advertises :
    (total : ℕ) (files : List ZipEntry) (whole : ℕ)
    → All IsEntry files
    → total < word
    → whole ≡ total + size_sum files
    → Advertises whole (advertised_bytes_from total files)
unfolding advertised_bytes_from
advertised-Advertises total [] whole h k e = (omega arith, omega arith)
advertised-Advertises total (f ∷ files) whole h k e =
    if_cases (Advertises whole) f.is_dir
      (λ d.
        let none_here : file_size f ≡ 0 = rw d refl in
        advertised-Advertises total files whole h.1 k (omega arith))
      (λ d.
        let here : file_size f ≡ f.uncompressed_size = rw d refl in
        if_cases (Advertises whole) (ltb (word - 1 - f.uncompressed_size) total)
          (λ over.
            let above : word - 1 - f.uncompressed_size < total = ground arith in
            (let size = h.0.0 in omega arith))
          (λ fits.
            let below : total ≤ word - 1 - f.uncompressed_size = ground arith in
            let size = h.0.0 in
            let exact = add_word_exact total f.uncompressed_size (omega arith) in
            advertised-Advertises (add_word total f.uncompressed_size) files whole h.1 (omega arith)
              (omega arith)))

-- A step of the extraction that started with the bytes `before` leaves at most `limit` more of them,
-- and goes on only with a counter that is exact; the checks of the counter do not fail.
abbrev pub NeverOver : Option ExtractError → Type 0
NeverOver e = (e ≢ some size_overflow) × (e ≢ some over_limit)

abbrev pub Bounded : ℕ → Extraction × Option ExtractError → Type 0
Bounded limit done =
    (bytes_written done.0.writes ≤ limit)
    × (done.1 ≡ none → done.0.extracted ≡ bytes_written done.0.writes)
    × NeverOver done.1

pub stopped :
    (limit : ℕ) (x : Extraction) (e : ExtractError)
    → bytes_written x.writes ≤ limit
    → NeverOver (some e)
    → Bounded limit (x, some e)
stopped limit x e h n = (h, (λ q. absurd (ground arith)), n)

pub count_copied-Bounded :
    (required limit : ℕ) (x : Extraction) (f : ZipEntry) (c : Copied) (dest whole : Bytes)
    → required < word
    → bytes_written x.writes + f.uncompressed_size ≤ limit
    → limit ≤ required
    → x.extracted ≡ bytes_written x.writes
    → IsCopy f.uncompressed_size whole c
    → Bounded limit (count_copied required (write x (file dest c.out)) f c)
unfolding count_copied
count_copied-Bounded required limit x f c dest whole hr hl hw e h =
    let room : bytes_written (file dest c.out ∷ x.writes) ≤ limit =
      (let size = h.1 in omega arith) in
    let counter = h.0 in
    let exact = add_word_exact x.extracted c.written (let size = h.1 in omega arith) in
    match_cases (Bounded limit) c.error
      (λ q.
        if_cases (Bounded limit) (not f.closes)
          (λ q.
            stopped limit (write x (file dest c.out)) _ room
              ((λ n. ground arith), (λ n. ground arith)))
          (λ q.
            if_cases (Bounded limit) (not (c.written == f.uncompressed_size))
              (λ q.
                stopped limit (write x (file dest c.out)) _ room
                  ((λ n. ground arith), (λ n. ground arith)))
              (λ q.
                if_cases (Bounded limit) (ltb (word - 1 - c.written) x.extracted)
                  (λ q. absurd (
                    let below : word - 1 - c.written < x.extracted = ground arith in
                    (let size = h.1 in omega arith)))
                  (λ q.
                    if_cases (Bounded limit) (ltb required (add_word x.extracted c.written))
                      (λ q. absurd (
                        let below : required < add_word x.extracted c.written = ground arith in
                        (let size = h.1 in omega arith)))
                      (λ q.
                        (room, (λ n. omega arith), ((λ n. ground arith), (λ n. ground arith))))))))
      (λ a q.
        stopped limit (write x (file dest c.out)) _ room ((λ n. ground arith), (λ n. ground arith)))

pub extract_file-Bounded :
    (required limit : ℕ) (dest : Bytes) (x : Extraction) (f : ZipEntry)
    → IsEntry f
    → required < word
    → bytes_written x.writes + f.uncompressed_size ≤ limit
    → limit ≤ required
    → x.extracted ≡ bytes_written x.writes
    → Bounded limit (extract_file required dest x f)
unfolding extract_file
extract_file-Bounded required limit dest x f hf hr hl hw e =
    let above = write x (directories_above dest) in
    let c = copy_reader f.uncompressed_size [] 0 f.reads in
    let room : bytes_written x.writes ≤ limit = omega arith in
    if_cases (Bounded limit) (not f.makes_dir)
      (λ q. stopped limit above _ room ((λ n. ground arith), (λ n. ground arith)))
      (λ q.
        if_cases (Bounded limit) (not f.opens)
          (λ q. stopped limit above _ room ((λ n. ground arith), (λ n. ground arith)))
          (λ q.
            if_cases (Bounded limit) (not f.creates)
              (λ q. stopped limit above _ room ((λ n. ground arith), (λ n. ground arith)))
              (λ q.
                count_copied-Bounded required limit above f c dest (contents f.reads) hr hl hw e (
                  copy_reader-IsCopy f.uncompressed_size [] 0 f.reads hf.0 hf.1 refl
                    (omega arith)))))

pub extract_at-Bounded :
    (target : Bytes) (required limit : ℕ) (sanitized dest : Bytes) (x : Extraction) (f : ZipEntry)
    → IsEntry f
    → required < word
    → bytes_written x.writes + file_size f ≤ limit
    → limit ≤ required
    → x.extracted ≡ bytes_written x.writes
    → Bounded limit (extract_at target required sanitized dest x f)
unfolding extract_at
extract_at-Bounded target required limit sanitized dest x f hf hr hl hw e =
    let done =
      if f.is_dir
      then (write x (directory dest), if f.makes_dir then none else some make_dir)
      else extract_file required dest x f in
    let room : bytes_written x.writes ≤ limit = omega arith in
    let kept : Bounded limit done =
      if_cases (Bounded limit) f.is_dir
        (λ q.
          if_cases (λ (o : Option ExtractError). Bounded limit (write x (directory dest), o))
            f.makes_dir (λ m. (room, (λ n. e), ((λ n. ground arith), (λ n. ground arith))))
            (λ m.
              stopped limit (write x (directory dest)) _ room
                ((λ n. ground arith), (λ n. ground arith))))
        (λ q.
          let size : file_size f ≡ f.uncompressed_size = rw q refl in
          extract_file-Bounded required limit dest x f hf hr (omega arith) hw e) in
    if_cases (Bounded limit) f.is_symlink
      (λ q. stopped limit x _ room ((λ n. ground arith), (λ n. ground arith)))
      (λ q.
        match_cases (Bounded limit) done.1
          (λ n.
            let more : Bounded limit (done.0, none) =
              (kept.0, (λ q. kept.1 n), ((λ m. ground arith), (λ m. ground arith))) in
            if_cases (λ (y : Extraction). Bounded limit (y, none))
              (text_beq (first_part (split b'/' sanitized)) []) (λ t. more) (λ t. more))
          (λ a n. kept))
