-- ===== src/Shm/Files.antt =====
-- src/shmdriver.cxx, the stored events: `store`, `ls`, `pull`, `purgeShm`. An event is a file in
-- the directory; once it is written, an empty file of its name in `closed/` says so.
use levbdim.Base.{
  ℕ, ◌+◌, ◌-◌, ◌^◌, List, [], ◌∷◌, ◌++◌, Option, some, none, Bool, true, false, ◌||◌, if◌then◌else◌,
  leb, ◌==◌, Str, str_eq, codes, length, keep,
}
use levbdim.Buffer.{Bytes, Buffer, overwrite, u32}
use levbdim.Shm.Posix.{FileSystem}
use levbdim.Shm.Name.{name}

-- The filter of `scandir`: every entry but `.` and `..`.
unfoldable pub file_select_2 : Str → Bool
unfolding str_eq
file_select_2 entry = if str_eq entry (codes ".") || str_eq entry (codes "..") then false else true

abbrev pub event_path : Str → Str → Str
event_path dir file = dir ++ (codes "/" ++ file)

abbrev pub closed_dir : Str → Str
closed_dir dir = dir ++ codes "/closed/"

abbrev pub closed_path : Str → Str → Str
closed_path dir file = dir ++ (codes "/closed/" ++ file)

-- `char name[512]`: a path that does not fit overruns it.
abbrev pub path_fits : Str → Bool
path_fits path = leb (length path + 1) 512

-- 0x20000, the most that `pull` reads; `new buffer(0x80000)`.
abbrev pub max_read : ℕ
max_read = 0x20000

abbrev pub block_size : ℕ
block_size = 0x80000

module _ (fs : FileSystem) where
  open fs use {Disk, open_create, write, read, unlink, mkdir, scandir}

  unfoldable pub create_directories : Str → Disk → Disk
  create_directories memdir d = mkdir (memdir ++ codes "/closed") d

  unfoldable pub ls : Str → Disk → List Str
  unfolding file_select_2 keep
  ls dir d = keep file_select_2 (scandir (closed_dir dir) d)

  -- What a read leaves in the block; the size of one that failed is computed from its -1.
  abbrev pub pulled : Buffer → Option Bytes → Buffer
  pulled b none = record b { psize = u32 (2 ^ 32 - 1 + 2 ^ 32 - 20) }
  pulled b (some bytes) = record {
    mem = overwrite bytes b.mem;
    psize = u32 (length bytes + 2 ^ 32 - 20);
  }

  -- The buffer and the disk after `pull`. A file that cannot be opened leaves both alone; one that
  -- cannot be read is unlinked like any other.
  unfoldable pub pull : Str → Buffer → Str → Disk → Buffer × Disk
  unfolding overwrite
  pull file b dir d = elim (read (event_path dir file) max_read d) [
    | none ↦ (b, d)
    | some bytes ↦ (pulled b bytes, unlink (event_path dir file) (unlink (closed_path dir file) d))
  ]

  -- Once the data are written: the empty file in `closed/`, whatever its `open` returns.
  abbrev pub mark_closed : Str → Str → Disk → Option Disk
  mark_closed dir file d =
      if path_fits (closed_path dir file)
      then some (elim (open_create (closed_path dir file) d) [ none ↦ d | some d' ↦ d' ])
      else none

  abbrev pub write_event : Str → Str → Bytes → Disk → Option Disk
  write_event dir file bytes d =
      let (ier, d') = write (event_path dir file) bytes d in
      if ier == length bytes then mark_closed dir file d' else some d'

  -- `store`; `none` where a path overruns its buffer.
  unfoldable pub store : ℕ → ℕ → ℕ → ℕ → Bytes → Str → Disk → Option Disk
  unfolding name
  store detid sourceid eventid bxid bytes dir d =
      let file = name detid sourceid eventid bxid in
      if path_fits (event_path dir file)
      then (elim (open_create (event_path dir file) d) [
        | none ↦ some d
        | some d' ↦ write_event dir file bytes d'
      ])
      else none

  -- `purgeShm`: both files of every entry of `closed/`. Its paths have 256 bytes.
  unfoldable pub purge_files : Str → List Str → Disk → Option Disk
  purge_files dir [] d = some d
  purge_files dir (file ∷ files) d =
      let rest =
        purge_files dir files
          (unlink (dir ++ (codes "/closed//" ++ file)) (unlink (event_path dir file) d)) in
      if leb (length (dir ++ (codes "/closed//" ++ file)) + 1) 256 then rest else none

  unfoldable pub purge_shm : Str → Disk → Option Disk
  unfolding purge_files ls
  purge_shm dir d = purge_files dir (ls dir d) d
