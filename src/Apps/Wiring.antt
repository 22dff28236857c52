-- ===== src/Apps/Wiring.antt =====
-- example/src/exBuilder.cxx: the sockets of the event builder and the sources that its driver
-- knows.
pub mod Run
use mathlib.Core.List.{append_assoc, append-nil}
use levbdim.Base.{
  ℕ, ◌≡◌, ◌≢◌, ◌⊎◌, inl, inr, refl, sym, ap, ◌∙◌, List, [], ◌∷◌, ◌++◌, Option, some, none, true,
  false, Str, str_eq, codes, length, map, Option-cases, arith, All, All-append,
}
use levbdim.Json.{JsonLib, Laws}
use levbdim.Buffer.{Bytes, u32}
use levbdim.Buffer.Compress.{Zlib}
use levbdim.Shm.Posix.{FileSystem}
use levbdim.Shm.Files.{create_directories, purge_shm}
use levbdim.Shm.Driver.{
  ShmProcessor, Double, ShmDriver, dskey, register_processor, register_data_source,
}
use levbdim.Shm.Driver
use levbdim.Shm.Scan
use levbdim.Source.Datasocket.{Datasocket, new_datasocket, save2disk}
use levbdim.Writer.File.{Output, BasicWriter, writer_processor}
use levbdim.Fsm.Message.{FsmMessage, content, key_ne}
use levbdim.Fsm.Machine.{Fsm, FsmTransition, new_fsm, add_state, add_transition}
use levbdim.Fsm.Reach.{
  Reachable, Reachable-Inv, AllKeep, AllKeep-add_transition, AllKeep-no_transitions,
}
use levbdim.Apps.Builder.{
  Builder, App, ready, overrun, null_driver, new_builder, add_sources, new_driver, configure,
  addsources, register_done, start, stop, halt, without_sources, destroy, builder_machine, states,
  add, detector, listed_sources, callback,
}

-- The keys of the sources that sockets listen to.
abbrev pub socket_keys : List Datasocket → List ℕ
socket_keys [] = []
socket_keys (s ∷ ss) = dskey s.detid s.sourceid ∷ socket_keys ss

socket_keys-append :
    (ss ts : List Datasocket) → socket_keys (ss ++ ts) ≡ socket_keys ss ++ socket_keys ts
socket_keys-append [] ts = refl
socket_keys-append (s ∷ ss) ts = ap (λ ks. dskey s.detid s.sourceid ∷ ks) (socket_keys-append ss ts)

-- A driver that scans the builder's directory, into which every socket stores, with one processor,
-- and in whose list the sockets' sources come last, after those registered before a `HALT`.
pub record IsWired (s : Builder) (d : ShmDriver BasicWriter) : Type 0 where
  pub same_memdir : d.memdir ≡ s.memdir
  pub store_there : All (λ socket. socket.memdir ≡ s.memdir) s.sources
  pub one_writer : length d.processors ≡ 1
  pub before : List ℕ
  pub registered : d.datasources ≡ before ++ socket_keys s.sources

-- In every state but `CREATED` the driver is there, and wired; the null pointer is never called.
unfoldable pub IsInOrder : {Disk : Type 0} → Str → App Disk → Type 0
IsInOrder state (ready w s) =
    (state ≡ codes "CREATED") ⊎ ((d : ShmDriver BasicWriter) × (s.driver ≡ some d) × IsWired s d)
IsInOrder state overrun = Unit
IsInOrder state null_driver = ⊥

-- The wiring is that of the fields it names: a driver of the same kind in place of another.
pub IsWired-replace :
    (s : Builder) (d d' : ShmDriver BasicWriter) (o : Option (ShmDriver BasicWriter))
    → d'.memdir ≡ d.memdir
    → length d'.processors ≡ length d.processors
    → d'.datasources ≡ d.datasources
    → IsWired s d
    → IsWired (record s { driver = o }) d'
IsWired-replace s d d' o same_dir same_number same_sources i = record {
  same_memdir = same_dir ∙ i.same_memdir;
  store_there = i.store_there;
  one_writer = same_number ∙ i.one_writer;
  before = i.before;
  registered = same_sources ∙ i.registered;
}

-- One more socket, and its source.
module _ (junk : ℕ → Bytes) (det sid : ℕ) (s : Builder) (d : ShmDriver BasicWriter) where
  abbrev socket : Datasocket
  socket = save2disk s.memdir (new_datasocket det sid (junk sid))

  abbrev one_more : Builder
  one_more = record s { sources = s.sources ++ socket ∷ [] }

  IsWired-one_more : IsWired s d → IsWired one_more (register_data_source det sid d)
  unfolding register_data_source save2disk new_datasocket
  IsWired-one_more i = record {
    same_memdir = i.same_memdir;
    store_there =
        All-append (λ (x : Datasocket). x.memdir ≡ s.memdir) s.sources (socket ∷ []) i.store_there
          (refl, tt);
    one_writer = i.one_writer;
    before = i.before;
    registered =
        ap (λ ks. ks ++ dskey det sid ∷ []) i.registered
        ∙ append_assoc i.before (socket_keys s.sources) (dskey det sid ∷ [])
        ∙ ap (◌++◌ i.before) (sym (socket_keys-append s.sources (socket ∷ [])));
  }

-- The loop of `addsources` wires each new source.
pub add_sources-IsWired :
    (junk : ℕ → Bytes) (det : ℕ) (sids : List ℕ) (s : Builder) (d : ShmDriver BasicWriter)
    → IsWired s d
    → (d' : ShmDriver BasicWriter) × ((add_sources junk det sids s d).driver ≡ some d')
      × IsWired (add_sources junk det sids s d) d'
unfolding add_sources
add_sources-IsWired junk det [] s d i = (d, refl, IsWired-replace s d d (some d) refl refl refl i)
add_sources-IsWired junk det (sid ∷ sids) s d i =
    add_sources-IsWired junk det sids (one_more junk det sid s d) (register_data_source det sid d)
      (IsWired-one_more junk det sid s d i)

-- The ids of a socket, and the directory that it stores to.
abbrev pub setting : Datasocket → ℕ × ℕ × Str
setting socket = (socket.detid, socket.sourceid, socket.memdir)

settings-append :
    (ss ts : List Datasocket) → map setting (ss ++ ts) ≡ map setting ss ++ map setting ts
settings-append [] ts = refl
settings-append (s ∷ ss) ts = ap (λ ks. setting s ∷ ks) (settings-append ss ts)

-- What the loop adds to the sockets and to the driver's list.
pub add_sources_lem :
    (junk : ℕ → Bytes) (det : ℕ) (sids : List ℕ) (s : Builder) (d : ShmDriver BasicWriter)
    → (d' : ShmDriver BasicWriter) × ((add_sources junk det sids s d).driver ≡ some d')
      × (map setting (add_sources junk det sids s d).sources
          ≡ map setting s.sources ++ map (λ sid. (det, sid, s.memdir)) sids)
      × (d'.datasources ≡ d.datasources ++ map (dskey det) sids)
unfolding add_sources register_data_source save2disk new_datasocket
add_sources_lem junk det [] s d =
    (d, refl, sym (append-nil (map setting s.sources)), sym (append-nil d.datasources))
add_sources_lem junk det (sid ∷ sids) s d =
    let (d', e, sockets, keys) =
      add_sources_lem junk det sids (one_more junk det sid s d) (register_data_source det sid d) in
    (
      d',
      e,
      sockets
          ∙ ap (λ ss. ss ++ map (λ n. (det, n, s.memdir)) sids)
              (settings-append s.sources (socket junk det sid s d ∷ []))
          ∙ append_assoc (map setting s.sources) ((det, sid, s.memdir) ∷ [])
              (map (λ n. (det, n, s.memdir)) sids),
      keys ∙ append_assoc d.datasources (dskey det sid ∷ []) (map (dskey det) sids),
    )
