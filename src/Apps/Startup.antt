-- ===== src/Apps/Startup.antt =====
-- example/src/exBuilder.cc, example/src/exServer.cc: what the options come to.
use levbdim.Base.{
  ℕ, ◌≡◌, ◌≢◌, refl, List, [], ◌∷◌, ◌++◌, Option, some, none, ◌>>=◌, if◌then◌else◌, ◌==◌, Str,
  codes, arith, false, ap, ◌∙◌,
}
use levbdim.Apps.Server.{new_server, set_detector_id}
use levbdim.Apps.Mains.{
  Options, runs, take_option, take_options, web_port, builder_main, server_main,
}

module _ (atoi : Str → ℕ) where
  -- The argument of the last option of a letter, as a number; else a default.
  abbrev pub last_of {ℓ} : {A : Type ℓ} → (Str → A) → ℕ → List (ℕ × Str) → A → A
  last_of read letter [] default = default
  last_of read letter ((tmp, optarg) ∷ opts) default =
      last_of read letter opts (if tmp == letter then read optarg else default)

  take_option_lem :
      (tmp : ℕ) (optarg : Str) (o : Options)
      → take_option atoi (tmp, optarg) o ≡ record {
        port = if tmp == b'p' then atoi optarg else o.port;
        detid = if tmp == b'd' then some (atoi optarg) else o.detid;
      }
  unfolding take_option
  take_option_lem tmp optarg o = ground arith

  take_options_lem :
      (opts : List (ℕ × Str)) (o : Options)
      → take_options atoi opts o ≡ record {
        port = last_of atoi b'p' opts o.port;
        detid = last_of (λ s. some (atoi s)) b'd' opts o.detid;
      }
  unfolding take_options
  take_options_lem [] o = refl
  take_options_lem ((tmp, optarg) ∷ opts) o =
      take_options_lem opts (take_option atoi (tmp, optarg) o)
      ∙ ap
          (λ (p : Options). record {
            port = last_of atoi b'p' opts p.port;
            detid = last_of (λ s. some (atoi s)) b'd' opts p.detid;
          })
          (take_option_lem tmp optarg o)

  module _ (argc : ℕ) (opts : List (ℕ × Str)) (wp : Option Str) (hname : Str)
      (given : argc ≢ 1) where
    -- Both programs, with some arguments. Each takes the port from the environment, else from the
    -- last option `-p`, else its own default; the builder starts with it in any case. The server
    -- starts, with the detector of the last option `-d`, where there is one; without one it uses a
    -- variable that has no value.
    pub mains_lem :
        (builder_main atoi argc opts wp hname
          ≡ runs (record {
            name = codes "EXB-" ++ hname;
            port = web_port atoi wp (last_of atoi b'p' opts 45000);
          }))
        × (server_main atoi argc opts wp hname ≡ (
            last_of (λ s. some (atoi s)) b'd' opts none >>= λ detid. some (
              runs (
                record {
                  name = codes "EXS-" ++ hname;
                  port = web_port atoi wp (last_of atoi b'p' opts 46000);
                },
                set_detector_id detid new_server,
              ))))
    unfolding builder_main server_main
    mains_lem =
        let some_args : (argc == 1) ≡ false = ground (arith, given) in
        (
          rw (some_args, take_options_lem opts (record { port = 45000; detid = none })) refl,
          rw (some_args, take_options_lem opts (record { port = 46000; detid = none })) refl,
        )
