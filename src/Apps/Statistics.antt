-- ===== src/Apps/Statistics.antt =====
-- example/src/exServer.cxx, `configure` and `list`: the statistics of the sources.
use Prim.Native.Nat.{bit_and, bit_or}
use levbdim.Base.{
  ℕ, ◌+◌, ◌*◌, ◌/◌, ◌^◌, ◌<◌, ◌≡◌, ◌≢◌, refl, ap, ◌∙◌, [], Str, str_eq, codes, arith,
}
use levbdim.Base.Bits.{and-mask, or-fields}
use levbdim.Base.StdMap.{nat_key}
use levbdim.Json.{JsonLib, Laws}
use levbdim.Fsm.Message.{key_ne}
use levbdim.Buffer.{u32}
use levbdim.Apps.Server.{stat_key, stat_entry}

stat_key-fields :
    (det sid : ℕ) → det < 2 ^ 16 → sid < 2 ^ 16 → stat_key det sid ≡ det * 2 ^ 16 + sid
unfolding stat_key
stat_key-fields det sid small small' = ap (bit_or sid) fits ∙ or-fields 16 sid det small'
  where
    fits : u32 (det * 2 ^ 16) ≡ det * 2 ^ 16
    fits = omega (arith, small)

abbrev detid_key : Str
detid_key = codes "detid"

abbrev sourceid_key : Str
sourceid_key = codes "sourceid"

abbrev event_key : Str
event_key = codes "event"

detid-ne-sourceid : detid_key ≢ sourceid_key
unfolding str_eq
detid-ne-sourceid = key_ne detid_key sourceid_key refl

detid-ne-event : detid_key ≢ event_key
unfolding str_eq
detid-ne-event = key_ne detid_key event_key refl

sourceid-ne-event : sourceid_key ≢ event_key
unfolding str_eq
sourceid-ne-event = key_ne sourceid_key event_key refl

module _ (json : JsonLib) (laws : Laws json) where
  open json use {Value, null, get, set, as_uint, of_uint}
  open laws use {has_members-null, has_members-set, get-set_self, get-set_other, as_uint-of_uint}

  abbrev with_detid : ℕ → Value
  with_detid key = set detid_key (of_uint (bit_and (key / 2 ^ 16) 0xFFFF)) null

  abbrev with_sourceid : ℕ → Value
  with_sourceid key = set sourceid_key (of_uint (bit_and key 0xFFFF)) (with_detid key)

  read_uint : (n k : ℕ) → n ≡ k → k < 2 ^ 32 → as_uint (of_uint n) ≡ k
  read_uint n k e small = ap (λ (x : ℕ). as_uint (of_uint x)) e ∙ as_uint-of_uint k small

  -- The line that `LIST` gives for a source tells its detector, its number and its last event, of
  -- a detector and a number of sixteen bits.
  pub stat_entry_lem :
      (det sid event : ℕ)
      → det < 2 ^ 16
      → sid < 2 ^ 16
      → event < 2 ^ 32
      → let line = stat_entry json (λ n. []) (stat_key det sid, event) in
        (as_uint (get detid_key line) ≡ det)
        × (as_uint (get sourceid_key line) ≡ sid)
        × (as_uint (get event_key line) ≡ event)
  unfolding stat_entry
  stat_entry_lem det sid event small small' fits =
      let key : ℕ = stat_key det sid in
      let fields : key ≡ det * 2 ^ 16 + sid = stat_key-fields det sid small small' in
      (
        ap as_uint (
              get-set_other event_key detid_key (of_uint event) (with_sourceid key)
                (has_members-set (has_members-set has_members-null)) detid-ne-event
              ∙ get-set_other sourceid_key detid_key _ (with_detid key)
                  (has_members-set has_members-null) detid-ne-sourceid
              ∙ get-set_self detid_key _ null has_members-null)
            ∙ read_uint (bit_and (key / 2 ^ 16) 0xFFFF) det
                (and-mask 16 (key / 2 ^ 16) ∙ omega (arith, fields, small, small'))
                (omega (arith, small)),
        ap as_uint (
              get-set_other event_key sourceid_key (of_uint event) (with_sourceid key)
                (has_members-set (has_members-set has_members-null)) sourceid-ne-event
              ∙ get-set_self sourceid_key _ (with_detid key) (has_members-set has_members-null))
            ∙ read_uint (bit_and key 0xFFFF) sid (and-mask 16 key ∙ omega (arith, fields, small'))
                (omega (arith, small')),
        ap as_uint (
              get-set_self event_key (of_uint event) (with_sourceid key)
                (has_members-set (has_members-set has_members-null)))
            ∙ as_uint-of_uint event fits,
      )
