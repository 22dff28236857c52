-- ===== src/Tests/Systems.antt =====
-- Small instances of the systems that the program calls: files, zlib, times, an output.
use levbdim.Base.{
  ℕ, zero, suc, ◌-◌, ◌≡◌, ◌≢◌, refl, ap, ◌∙◌, List, [], ◌∷◌, ◌++◌, Option, some, none, not,
  if◌then◌else◌, ltb, ◌==◌, Str, str_eq, str_eq_iff, str_eq_refl, length, take, drop, length-take,
  take_all, arith,
}
use mathlib.Core.List.{append-nil}
use levbdim.Buffer.{Bytes}
use levbdim.Buffer.Compress.{Zlib}
use levbdim.Shm.Posix.{FileSystem, Laws}
use levbdim.Shm.Driver.{Double}
use levbdim.Writer.File.{Output}

-- A compression that copies what there is room for.
abbrev pub zlib : Zlib
zlib = record {
  deflate = take;
  inflate = take;
  bound = λ n. n;
  deflate_room = λ room bytes. omega (arith, length-take room bytes);
  inflate_room = λ room bytes. omega (arith, length-take room bytes);
  inflate-deflate = λ room room' bytes fits fits'.
      ap (take room') (take_all room bytes fits) ∙ take_all room' bytes fits';
}

abbrev pub real : Double
real = record {
  Real = ℕ;
  time_of = λ n. n;
  exceeds = λ last time delay. ltb delay (last - time);
  nonzero = λ t. not (t == 0);
  real_zero = 0;
}

-- An output that keeps the chunks.
abbrev pub out : Output (List Bytes)
out = record {
  date = λ w. [];
  open_file = λ path w. (some 3, w);
  write = λ fd chunk w. w ++ chunk ∷ [];
  close = λ fd w. w;
}

-- A block of zeros.
unfoldable pub zeros : ℕ → Bytes
zeros zero = []
zeros (suc n) = 0 ∷ zeros n

pub length-zeros : (n : ℕ) → length (zeros n) ≡ n
unfolding zeros
length-zeros zero = refl
length-zeros (suc n) = ap suc (length-zeros n)

-- Files by their paths.
abbrev pub Files : Type 0
Files = Str → Option Bytes

abbrev pub put : Str → Option Bytes → Files → Files
put p content d = λ q. if str_eq q p then content else d q

abbrev pub or_new : Option Bytes → Bytes
or_new none = []
or_new (some bytes) = bytes

abbrev pub read_of : ℕ → Option Bytes → Option (Option Bytes)
read_of n none = none
read_of n (some bytes) = some (some (take n bytes))

pub put_self : (p : Str) (content : Option Bytes) (d : Files) → put p content d p ≡ content
put_self p content d = rw (str_eq_refl p)

pub put_other : (p q : Str) (content : Option Bytes) (d : Files) → q ≢ p → put p content d q ≡ d q
put_other p q content d other = ground (arith, str_eq_iff q p, other)

abbrev pub fs : FileSystem
fs = record {
  Disk = Files;
  open_create = λ p d. some (put p (some (or_new (d p))) d);
  write = λ p bytes d. (length bytes, put p (some (bytes ++ drop (length bytes) (or_new (d p)))) d);
  read = λ p n d. read_of n (d p);
  unlink = λ p d. put p none d;
  mkdir = λ p d. d;
  scandir = λ p d. [];
}

abbrev pub disk : Files
disk = λ q. none

pub drop-nil : (n : ℕ) → drop {A = ℕ} n [] ≡ []
drop-nil zero = refl
drop-nil (suc n) = refl

pub same_files :
    (d d' : Files) (p : Str) (new : Option Bytes) → some (put p new d) ≡ some d' → d' ≡ put p new d
same_files d d' p new e = cc e

abbrev pub fs_laws : Laws fs
fs_laws = record {
  file = λ q d. d q;
  open-new = λ p d d' e fresh.
      ap (λ (f : Files). f p) (same_files d d' p _ e)
      ∙ put_self p _ d
      ∙ ap (λ o. some (or_new o)) fresh;
  open-other =
      λ p q d d' e other. ap (λ (f : Files). f q) (same_files d d' p _ e) ∙ put_other p q _ d other;
  write-empty = λ p bytes d empty full.
      put_self p _ d
      ∙ rw empty
          (ap (λ t. some (bytes ++ t)) (drop-nil (length bytes)) ∙ ap some (append-nil bytes));
  write-other = λ p q bytes d other. put_other p q _ d other;
  read-file = λ p n d bytes here. ap (read_of n) here;
  unlink-self = λ p d. put_self p none d;
  unlink-other = λ p q d other. put_other p q none d other;
}
