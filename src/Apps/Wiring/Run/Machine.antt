-- ===== src/Apps/Wiring/Run/Machine.antt =====
-- example/src/exBuilder.cxx: all runs of the event builder's state machine.
use levbdim.Base.{
  ℕ, ◌≡◌, ◌≢◌, ◌⊎◌, inl, inr, refl, sym, ap, ◌∙◌, List, [], ◌∷◌, ◌++◌, Option, some, none, true,
  false, Str, str_eq, codes, length, map, Option-cases, arith, All, All-append,
}
use levbdim.Json.{JsonLib, Laws}
use levbdim.Buffer.{Bytes}
use levbdim.Buffer.Compress.{Zlib}
use levbdim.Shm.Posix.{FileSystem}
use levbdim.Shm.Driver.{Double}
use levbdim.Writer.File.{Output}
use levbdim.Fsm.Message.{FsmMessage, thrown_by, key_ne}
use levbdim.Fsm.Machine.{Fsm, new_fsm, add_state}
use levbdim.Fsm.Reach.{
  Reachable, Reachable-Inv, AllKeep, AllKeep-add_transition, left_at, at_both, quietly,
  AllKeep-no_transitions,
}
use levbdim.Apps.Builder.{
  Builder, App, ready, overrun, null_driver, list, new_builder, configure, addsources,
  register_done, start, stop, halt, destroy, builder_machine, states, add, callback,
}
use levbdim.Apps.Wiring.{IsInOrder}
use levbdim.Apps.Wiring.Run.{
  Wired, Step, left-IsInOrder, with_driver, configure-keeps, addsources-IsReady, start-IsReady,
  stop-IsReady, halt-IsReady,
}

module _ (json : JsonLib) (fs : FileSystem) (out : Output fs.Disk) (zlib : Zlib) (real : Double)
    (junk : ℕ → Bytes) where
  open fs use {Disk}

  abbrev machine : Fsm json (App Disk)
  machine = builder_machine json fs out zlib real junk

  no_transitions : (states json fs out zlib real junk).transitions ≡ []
  unfolding add_state new_fsm
  no_transitions = refl

  abbrev Kept : Fsm json (App Disk) → Type 0
  Kept = AllKeep json (App Disk) IsInOrder

  -- The machine with one more transition, of a method that a wired builder survives.
  Kept-add :
      (cmd istate fstate : Str) (method : Step json fs out zlib real junk) (f : Fsm json (App Disk))
      → str_eq istate (codes "CREATED") ≡ false
      → ((w : Disk) (s : Builder) (m : FsmMessage json)
          → Wired json fs out zlib real junk s
          → IsInOrder
              (left_at json (App Disk) IsInOrder (thrown_by json m (method w s m).1) istate fstate)
              (method w s m).0)
      → Kept f
      → Kept (add json fs out zlib real junk cmd istate fstate method f)
  Kept-add cmd istate fstate method f other keeps all =
      AllKeep-add_transition json (App Disk) IsInOrder cmd istate fstate
        (callback json fs out zlib real junk method) f
        (with_driver json fs out zlib real junk istate fstate method
          (key_ne istate (codes "CREATED") other) keeps)
        all

  machine-AllKeep : Kept machine
  unfolding builder_machine register_done destroy str_eq IsInOrder
  machine-AllKeep =
      let f0 : Fsm json (App Disk) = states json fs out zlib real junk in
      let f1 : Fsm json (App Disk) =
        add json fs out zlib real junk (codes "CONFIGURE") (codes "CREATED") (codes "CONFIGURED")
          (configure json fs out zlib real junk) f0 in
      let f2 : Fsm json (App Disk) =
        add json fs out zlib real junk (codes "ADDSOURCES") (codes "CONFIGURED")
          (codes "CONFIGURED") (addsources json fs out zlib real junk) f1 in
      let f3 : Fsm json (App Disk) =
        add json fs out zlib real junk (codes "REGISTER") (codes "CONFIGURED") (codes "REGISTERED")
          (register_done json fs out zlib real junk) f2 in
      let f4 : Fsm json (App Disk) =
        add json fs out zlib real junk (codes "START") (codes "REGISTERED") (codes "RUNNING")
          (start json fs out zlib real junk) f3 in
      let f5 : Fsm json (App Disk) =
        add json fs out zlib real junk (codes "STOP") (codes "RUNNING") (codes "REGISTERED")
          (stop json fs out zlib real junk) f4 in
      let f6 : Fsm json (App Disk) =
        add json fs out zlib real junk (codes "HALT") (codes "RUNNING") (codes "CONFIGURED")
          (halt json fs out zlib real junk) f5 in
      let f7 : Fsm json (App Disk) =
        add json fs out zlib real junk (codes "DESTROY") (codes "CONFIGURED") (codes "CREATED")
          (destroy json fs out zlib real junk) f6 in
      let k1 : Kept f1 =
        AllKeep-add_transition json (App Disk) IsInOrder (codes "CONFIGURE") (codes "CREATED")
          (codes "CONFIGURED")
          (callback json fs out zlib real junk (configure json fs out zlib real junk)) f0
          (λ a m i.
            at_both json (App Disk) IsInOrder
              (thrown_by json m
                (callback json fs out zlib real junk (configure json fs out zlib real junk) a m).1)
              (codes "CREATED") (codes "CONFIGURED")
              (callback json fs out zlib real junk (configure json fs out zlib real junk) a m).0
              (configure-keeps json fs out zlib real junk (codes "CREATED") a m i)
              (configure-keeps json fs out zlib real junk (codes "CONFIGURED") a m i))
          (AllKeep-no_transitions json (App Disk) IsInOrder f0 no_transitions) in
      let k2 : Kept f2 =
        Kept-add (codes "ADDSOURCES") (codes "CONFIGURED") (codes "CONFIGURED")
          (addsources json fs out zlib real junk) f1 refl
          (λ w s m i.
            left-IsInOrder json fs out zlib real junk
              (thrown_by json m (addsources json fs out zlib real junk w s m).1)
              (codes "CONFIGURED") (codes "CONFIGURED")
              (addsources json fs out zlib real junk w s m).0
              (addsources-IsReady json fs out zlib real junk w s m i))
          k1 in
      let k3 : Kept f3 =
        Kept-add (codes "REGISTER") (codes "CONFIGURED") (codes "REGISTERED")
          (register_done json fs out zlib real junk) f2 refl
          (λ w s m i.
            at_both json (App Disk) IsInOrder
              (thrown_by json m (register_done json fs out zlib real junk w s m).1)
              (codes "CONFIGURED") (codes "REGISTERED") (ready w s) (inr i) (inr i))
          k2 in
      let k4 : Kept f4 =
        Kept-add (codes "START") (codes "REGISTERED") (codes "RUNNING")
          (start json fs out zlib real junk) f3 refl
          (λ w s m i.
            left-IsInOrder json fs out zlib real junk
              (thrown_by json m (start json fs out zlib real junk w s m).1) (codes "REGISTERED")
              (codes "RUNNING") (start json fs out zlib real junk w s m).0
              (start-IsReady json fs out zlib real junk w s m i))
          k3 in
      let k5 : Kept f5 =
        Kept-add (codes "STOP") (codes "RUNNING") (codes "REGISTERED")
          (stop json fs out zlib real junk) f4 refl
          (λ w s m i.
            left-IsInOrder json fs out zlib real junk
              (thrown_by json m (stop json fs out zlib real junk w s m).1) (codes "RUNNING")
              (codes "REGISTERED") (stop json fs out zlib real junk w s m).0
              (stop-IsReady json fs out zlib real junk w s m i))
          k4 in
      let k6 : Kept f6 =
        Kept-add (codes "HALT") (codes "RUNNING") (codes "CONFIGURED")
          (halt json fs out zlib real junk) f5 refl
          (λ w s m i.
            left-IsInOrder json fs out zlib real junk
              (thrown_by json m (halt json fs out zlib real junk w s m).1) (codes "RUNNING")
              (codes "CONFIGURED") (halt json fs out zlib real junk w s m).0
              (halt-IsReady json fs out zlib real junk w s m i))
          k5 in
      let k7 : Kept f7 =
        Kept-add (codes "DESTROY") (codes "CONFIGURED") (codes "CREATED")
          (destroy json fs out zlib real junk) f6 refl
          (λ w s m i.
            quietly json (App Disk) IsInOrder (codes "CONFIGURED") (codes "CREATED")
              (destroy json fs out zlib real junk w s m).0 m m refl (inl refl))
          k6 in
      k7

  -- The web command `LIST` finds a driver, in every state but `CREATED`.
  abbrev pub IsListing : Str → App Disk → Type 0
  IsListing state (ready w s) =
      (state ≡ codes "CREATED") ⊎ ((v : json.Value) × (list json fs out zlib real junk s ≡ some v))
  IsListing state overrun = Unit
  IsListing state null_driver = ⊥

  IsInOrder-IsListing : (state : Str) (a : App Disk) → IsInOrder state a → IsListing state a
  unfolding IsInOrder list
  IsInOrder-IsListing state (ready w s) (inl created') = inl created'
  IsInOrder-IsListing state (ready w s) (inr (d, e, i)) = inr (
    json.set (codes "event") (json.of_uint d.evt)
        (json.set (codes "run") (json.of_uint d.run) json.null),
    rw e refl,
  )
  IsInOrder-IsListing state overrun i = tt
  IsInOrder-IsListing state null_driver i = i

  -- In every state of the event builder that commands lead to, whatever they say: no method of a
  -- transition calls the driver through a null pointer; and in every state but `CREATED`, unless a
  -- file name overran the array of `purgeShm` before, there is a driver with one processor, it
  -- scans the directory that every socket stores to, the sources of the sockets are the last in its
  -- list, and the web command `LIST` finds it. Of `LIST` in the state `CREATED` nothing is said.
  pub builder-IsInOrder :
      Laws json
      → (w : Disk) (f' : Fsm json (App Disk)) (a' : App Disk)
      → Reachable json (App Disk) machine (ready w new_builder) f' a'
      → IsInOrder f'.state a' × IsListing f'.state a'
  unfolding builder_machine add_state new_fsm IsInOrder levbdim.Base.StdMap.str_less
  builder-IsInOrder laws w f' a' r =
      let i : IsInOrder f'.state a' =
        (Reachable-Inv json (App Disk) IsInOrder laws machine (ready w new_builder) f' a'
          machine-AllKeep (inl refl) r).1 in
      (i, IsInOrder-IsListing f'.state a' i)
