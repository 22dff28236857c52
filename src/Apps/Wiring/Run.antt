-- ===== src/Apps/Wiring/Run.antt =====
-- example/src/exBuilder.cxx: the methods of the event builder keep its wiring, and so do all runs
-- of its state machine.
pub mod Machine
use mathlib.Core.List.{append-nil}
use levbdim.Base.{
  ℕ, ◌≡◌, ◌≢◌, ◌⊎◌, inl, inr, refl, sym, ap, ◌∙◌, List, [], ◌∷◌, ◌++◌, Option, some, none, Bool,
  true, false, Str, str_eq, codes, length, map, Option-cases, arith, All, All-append,
}
use levbdim.Json.{JsonLib, Laws}
use levbdim.Buffer.{Bytes}
use levbdim.Buffer.Compress.{Zlib}
use levbdim.Shm.Posix.{FileSystem}
use levbdim.Shm.Files.{create_directories, purge_shm}
use levbdim.Shm.Driver.{
  ShmProcessor, Double, ShmDriver, dskey, register_processor, register_data_source,
}
use levbdim.Shm.Driver
use levbdim.Shm.Scan
use levbdim.Writer.File.{Output, BasicWriter, writer_processor}
use levbdim.Fsm.Message.{FsmMessage, thrown_by, content, key_ne}
use levbdim.Fsm.Machine.{Fsm, new_fsm, add_state}
use levbdim.Fsm.Reach.{
  Reachable, Reachable-Inv, AllKeep, AllKeep-add_transition, left_at, at_both, MethodKeeps,
  AllKeep-no_transitions,
}
use levbdim.Apps.Builder.{
  Builder, App, ready, overrun, null_driver, new_builder, add_sources, new_driver, configure,
  addsources, register_done, start, stop, halt, without_sources, destroy, builder_machine, states,
  add, detector, listed_sources, callback,
}
use levbdim.Apps.Wiring.{
  setting, socket_keys, IsWired, IsInOrder, IsWired-replace, add_sources-IsWired, add_sources_lem,
}

module _ (json : JsonLib) (fs : FileSystem) (out : Output fs.Disk) (zlib : Zlib) (real : Double)
    (junk : ℕ → Bytes) where
  open fs use {Disk}

  -- In the states that a builder passes through with a driver.
  abbrev Wired : Builder → Type 0
  Wired s = (d : ShmDriver BasicWriter) × (s.driver ≡ some d) × IsWired s d

  abbrev IsReady : App Disk → Type 0
  IsReady (ready w s) = Wired s
  IsReady overrun = Unit
  IsReady null_driver = ⊥

  in_order : (state : Str) (a : App Disk) → IsReady a → IsInOrder state a
  unfolding IsInOrder
  in_order state (ready w s) i = inr i
  in_order state overrun i = tt
  in_order state null_driver i = elim i [ ]

  abbrev Step : Type 0
  Step = Disk → Builder → FsmMessage json → App Disk × FsmMessage json

  -- A method that a wired builder survives keeps the order as a callback.
  with_driver :
      (istate fstate : Str) (method : Step)
      → istate ≢ codes "CREATED"
      → ((w : Disk) (s : Builder) (m : FsmMessage json)
          → Wired s
          → IsInOrder
              (left_at json (App Disk) IsInOrder (thrown_by json m (method w s m).1) istate fstate)
              (method w s m).0)
      → MethodKeeps json
          (App Disk)
          IsInOrder
          istate
          fstate
          (callback json fs out zlib real junk method)
  unfolding IsInOrder
  with_driver istate fstate method other keeps (ready w s) m (inl e) = absurd (other e)
  with_driver istate fstate method other keeps (ready w s) m (inr i) = keeps w s m i
  with_driver istate fstate method other keeps overrun m i = tt
  with_driver istate fstate method other keeps null_driver m i = elim i [ ]

  new_driver-IsWired :
      (jc : json.Value)
      → IsWired
          (record {
            memdir = json.as_string (json.get (codes "memdir") jc);
            sources = [];
            driver = some (new_driver json fs out zlib real junk jc);
          })
          (new_driver json fs out zlib real junk jc)
  unfolding new_driver register_processor Driver.new
  new_driver-IsWired jc = record {
    same_memdir = refl;
    store_there = tt;
    one_writer = refl;
    before = [];
    registered = refl;
  }

  configure-IsReady :
      (w : Disk) (s : Builder) (m : FsmMessage json)
      → IsReady (configure json fs out zlib real junk w s m).0
  unfolding configure
  configure-IsReady w s m =
      let memdir : Str = json.as_string (json.get (codes "memdir") (content json m)) in
      elim (Option-cases (purge_shm fs memdir (create_directories fs memdir w))) [
        | inl e ↦ rw (e, configure) tt
        | inr (w', e) ↦ rw (e, configure) (_, refl, new_driver-IsWired (content json m))
      ]

  -- A method after which the builder is ready, whether it throws or not.
  left-IsInOrder :
      (thrown : Bool) (istate fstate : Str) (a : App Disk)
      → IsReady a
      → IsInOrder (left_at json (App Disk) IsInOrder thrown istate fstate) a
  left-IsInOrder thrown istate fstate a i =
      at_both json (App Disk) IsInOrder thrown istate fstate a (in_order istate a i)
        (in_order fstate a i)

  configure-keeps :
      (state : Str) (a : App Disk) (m : FsmMessage json)
      → IsInOrder (codes "CREATED") a
      → IsInOrder state
          (callback json fs out zlib real junk (configure json fs out zlib real junk) a m).0
  unfolding IsInOrder
  configure-keeps state (ready w s) m i = in_order state _ (configure-IsReady w s m)
  configure-keeps state overrun m i = tt
  configure-keeps state null_driver m i = elim i [ ]

  addsources-IsReady :
      (w : Disk) (s : Builder) (m : FsmMessage json)
      → Wired s
      → IsReady (addsources json fs out zlib real junk w s m).0
  unfolding addsources
  addsources-IsReady w s m (d, e, i) =
      rw (e, addsources)
        (add_sources-IsWired junk (detector json fs out zlib real junk m)
          (listed_sources json fs out zlib real junk m) (record s { driver = some d }) d
          (IsWired-replace s d d (some d) refl refl refl i))

  abbrev proc : ShmProcessor Disk BasicWriter
  proc = writer_processor out zlib junk

  length-start_processors :
      (nr : ℕ) (w : Disk) (ps : List BasicWriter)
      → length (Scan.start_processors proc real nr w ps).1 ≡ length ps
  unfolding Scan.start_processors
  length-start_processors nr w [] = refl
  length-start_processors nr w (p ∷ ps) =
      omega (arith, length-start_processors nr (proc.start nr w p).0 ps)

  length-stop_processors :
      (w : Disk) (ps : List BasicWriter)
      → length (Scan.stop_processors proc real w ps).1 ≡ length ps
  unfolding Scan.stop_processors
  length-stop_processors w [] = refl
  length-stop_processors w (p ∷ ps) = omega (arith, length-stop_processors (proc.stop w p).0 ps)

  start-IsReady :
      (w : Disk) (s : Builder) (m : FsmMessage json)
      → Wired s
      → IsReady (start json fs out zlib real junk w s m).0
  unfolding start Scan.start
  start-IsReady w s m (d, e, i) =
      rw (e, start)
        (_, refl, IsWired-replace s d _ _ refl (length-start_processors _ w d.processors) refl i)

  stop-IsReady :
      (w : Disk) (s : Builder) (m : FsmMessage json)
      → Wired s
      → IsReady (stop json fs out zlib real junk w s m).0
  unfolding stop Scan.stop
  stop-IsReady w s m (d, e, i) =
      rw (e, stop)
        (_, refl, IsWired-replace s d _ _ refl (length-stop_processors w d.processors) refl i)

  without_sources-IsReady :
      (r : App Disk × FsmMessage json)
      → IsReady r.0
      → IsReady (without_sources json fs out zlib real junk r).0
  without_sources-IsReady (ready w s, m) (d, e, i) = (
    d,
    e,
    record {
      same_memdir = i.same_memdir;
      store_there = tt;
      one_writer = i.one_writer;
      before = d.datasources;
      registered = sym (append-nil d.datasources);
    },
  )
  without_sources-IsReady (overrun, m) i = tt
  without_sources-IsReady (null_driver, m) i = elim i [ ]

  halt-IsReady :
      (w : Disk) (s : Builder) (m : FsmMessage json)
      → Wired s
      → IsReady (halt json fs out zlib real junk w s m).0
  unfolding halt
  halt-IsReady w s m i =
      without_sources-IsReady (stop json fs out zlib real junk w s m) (stop-IsReady w s m i)

  -- What `HALT` and then `ADDSOURCES` leave: the sockets are one for each source of the message,
  -- with the detector id of the message and the builder's directory, and no other; while in the
  -- driver's list the keys of these sources come after those of before the `HALT`.
  pub addsources-halt :
      (w : Disk) (s : Builder) (d : ShmDriver BasicWriter) (m m' : FsmMessage json)
      → s.driver ≡ some d
      → (w' : Disk) × (s' : Builder) × (s'' : Builder) × (d' : ShmDriver BasicWriter) × ((halt json
            fs out zlib real junk w s m).0
          ≡ ready w' s')
        × ((addsources json fs out zlib real junk w' s' m').0 ≡ ready w' s'')
        × (s''.driver ≡ some d')
        × (map setting s''.sources
            ≡ map
                (λ sid. (json.as_int (json.get (codes "detid") (content json m')), sid, s.memdir))
                (listed_sources json fs out zlib real junk m'))
        × (d'.datasources
            ≡ d.datasources
              ++ map
                  (dskey (json.as_int (json.get (codes "detid") (content json m'))))
                  (listed_sources json fs out zlib real junk m'))
  unfolding halt stop Scan.stop addsources
  addsources-halt w s d m m' e =
      let (w', d1) = Scan.stop proc real w d in
      let sids = listed_sources json fs out zlib real junk m' in
      let halted : Builder = record s { sources = []; driver = some d1 } in
      let (d', has, sockets, keys) =
        add_sources_lem junk (detector json fs out zlib real junk m') sids halted d1 in
      rw (e, halt)
        (
          w',
          halted,
          add_sources junk (detector json fs out zlib real junk m') sids halted d1,
          d',
          refl,
          refl,
          has,
          sockets,
          keys,
        )
