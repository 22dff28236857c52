-- ===== src/Writer/File.antt =====
-- src/basicwriter.cc, include/basicwriter.hh: the writer's state and its methods.
use levbdim.Base.{
  ℕ, zero, suc, ◌+◌, ◌*◌, List, [], ◌∷◌, ◌++◌, Option, some, none, Bool, true, false, not, ◌>>=◌,
  if◌then◌else◌, ltb, Str, codes, length,
}
use levbdim.Buffer.{
  Bytes, Buffer, to_bytes, u32, new_buffer, set_detector_id, set_data_source_id, set_event_id,
  set_bx_id, set_payload, size, image,
}
use levbdim.Buffer.Compress.{Zlib, compress}
use levbdim.Shm.Name.{dec}
use levbdim.Shm.Driver.{ShmProcessor}

-- The calls of the operating system, over the world `W`: the text that `strftime` gives, `open`
-- (`none` is a negative descriptor), `write` and `close`. The code does not look at what `write`
-- returns.
pub record Output (W : Type 0) : Type 0 where
  pub date : W → Str
  pub open_file : Str → W → Option ℕ × W
  pub write : ℕ → Bytes → W → W
  pub close : ℕ → W → W

pub record BasicWriter : Type 0 where
  pub directory : Str
  pub run : ℕ
  pub event : ℕ
  pub total_size : ℕ
  -- `none` is a negative descriptor.
  pub fd_out : Option ℕ
  pub started : Bool

unfoldable pub new : Str → BasicWriter
new dire = record {
  directory = dire;
  run = 0;
  event = 0;
  total_size = 0;
  fd_out = none;
  started = false;
}

-- 1900*1024*1024
abbrev pub max_file_size : ℕ
max_file_size = 1900 * 1024 * 1024

-- `_fdOut>0`: descriptor 0 does not count as open.
abbrev pub open_fd : Option ℕ → Option ℕ
open_fd none = none
open_fd (some zero) = none
open_fd (some (suc n)) = some (suc n)

abbrev pub word : ℕ → Bytes
word n = to_bytes 4 n

-- `ibuf`, the words of a run header.
unfoldable pub header_bytes : List ℕ → Bytes
header_bytes [] = []
header_bytes (x ∷ xs) = word x ++ header_bytes xs

-- The block that carries the header. `junk` is what its 128 + size bytes happen to hold.
unfoldable pub header_buffer : Zlib → Bytes → List ℕ → Option Buffer
unfolding header_bytes new_buffer set_detector_id set_data_source_id set_event_id set_bx_id
    set_payload compress
header_buffer zlib junk header =
    set_payload (header_bytes header)
      (set_bx_id 0 (set_event_id 0 (set_data_source_id 1 (set_detector_id 255 (new_buffer junk)))))
    >>= compress zlib

module _ {W : Type 0} (out : Output W) where
  unfoldable pub write_all : ℕ → List Bytes → W → W
  write_all fd [] w = w
  write_all fd (c ∷ cs) w = write_all fd cs (out.write fd c w)

  abbrev opened : ℕ → Option ℕ × W → BasicWriter → W × BasicWriter
  opened run (none, w) s = (w, record s { run = run; fd_out = none })
  opened run (some fd, w) s =
      (w, record s { run = run; fd_out = some fd; event = 0; started = true })

  abbrev file_name : Str → Str → ℕ → Str
  file_name dire date run = dire ++ (codes "/" ++ (date ++ (codes "_" ++ dec run (codes ".dat"))))

  unfoldable pub start : ℕ → W → BasicWriter → W × BasicWriter
  unfolding dec
  start run w s = opened run (out.open_file (file_name s.directory (out.date w) run) w) s

  unfoldable pub stop : W → BasicWriter → W × BasicWriter
  stop w s = elim (open_fd s.fd_out) [
    | none ↦ (w, record s { started = false })
    | some fd ↦ (out.close fd w, record s { started = false; fd_out = none })
  ]

  module _ (zlib : Zlib) where
    -- The loop over the buffers: each is compressed in place, its size is added up, and its size
    -- and its bytes are written.
    unfoldable pub write_buffers : ℕ → List Buffer → ℕ → W → Option (W × List Buffer × ℕ)
    unfolding compress size image
    write_buffers fd [] total w = some (w, [], total)
    write_buffers fd (b ∷ bs) total w = compress zlib b >>= λ c.
        write_buffers fd bs (u32 (total + size c))
          (out.write fd (image c) (out.write fd (word (size c)) w))
        >>= λ r. some (r.0, c ∷ r.1, r.2)

    abbrev close_out : Option ℕ → W → W
    close_out none w = w
    close_out (some fd) w = out.close fd w

    -- The test at the end of `processEvent`: a file that is too large is closed, and the run goes
    -- on in a new one.
    unfoldable pub roll_over : W × List Buffer × BasicWriter → W × List Buffer × BasicWriter
    unfolding start
    roll_over (w, bufs, s) =
        if ltb max_file_size s.total_size
        then (let (w', s') = start s.run (close_out s.fd_out w) (record s { total_size = 0 }) in
            (w', bufs, s'))
        else (w, bufs, s)

    unfoldable pub write_event :
        Option ℕ → List Buffer → W → BasicWriter → Option (W × List Buffer × BasicWriter)
    unfolding write_buffers
    write_event none bufs w s = some (w, bufs, s)
    write_event (some fd) bufs w s =
        write_buffers fd bufs s.total_size
          (out.write fd (word (u32 (length bufs))) (out.write fd (word s.event) w))
        >>= λ r. some (r.0, r.1, record s { total_size = r.2; event = u32 (s.event + 1) })

    unfoldable pub process_event :
        ℕ → List Buffer → W → BasicWriter → Option (W × List Buffer × BasicWriter)
    unfolding write_event roll_over
    process_event key bufs w s =
        if not s.started
        then some (w, bufs, s)
        else write_event (open_fd s.fd_out) bufs w s >>= λ r. some (roll_over r)

    unfoldable pub write_header :
        Option ℕ → Bytes → List ℕ → W → BasicWriter → Option (W × BasicWriter)
    unfolding header_buffer size image
    write_header none junk header w s = some (w, s)
    write_header (some fd) junk header w s = header_buffer zlib junk header >>= λ b. some (
      write_all fd (word s.run ∷ word 1 ∷ word (size b) ∷ image b ∷ []) w,
      record s { total_size = u32 (s.total_size + size b) },
    )

    unfoldable pub process_run_header : Bytes → List ℕ → W → BasicWriter → Option (W × BasicWriter)
    unfolding write_header write_all
    process_run_header junk header w s =
        if ltb (length header) 256
        then write_header (open_fd s.fd_out) junk header w s
        else some (w, s)

    -- The writer as a processor of the driver.
    abbrev pub writer_processor : (ℕ → Bytes) → ShmProcessor W BasicWriter
    writer_processor junk = record {
      start = start;
      stop = stop;
      process_event = process_event;
      process_run_header = λ header w s. process_run_header (junk (128 + length header)) header w s;
    }
