-- ===== src/Apps/Database.antt =====
-- src/mdbReader.cxx, include/mdbReader.hh: configurations and parameters in a database.
use levbdim.Base.{ℕ, List, [], ◌∷◌, ◌++◌, if◌then◌else◌, leb, Str, codes, length}

-- The client of the database, over the world `W`: `connect`; the documents of a collection, and
-- those of a name and a version; what a document has under `configuration` (as strict JSON),
-- `name` and `version`; and the insertion of a document with these three, of which the first is
-- given as JSON.
pub record Mongo (W : Type 0) : Type 1 where
  pub Doc : Type 0
  pub connect : Str → ℕ → W → W
  pub query_all : Str → W → List Doc
  pub query_version : Str → Str → ℕ → W → List Doc
  pub configuration : Doc → Str
  pub doc_name : Doc → Str
  pub doc_version : Doc → ℕ
  pub insert : Str → Str → ℕ → Str → W → W

pub record MdbReader : Type 0 where
  pub db : Str
  pub host : Str
  pub port : ℕ

unfoldable pub new_reader : Str → Str → ℕ → MdbReader
new_reader dbname host port = record { db = dbname; host = host; port = port }

-- The name of a collection in the database.
abbrev pub namespace_of : MdbReader → Str → Str
namespace_of r coll = r.db ++ (codes "." ++ coll)

abbrev daqparam : Str
daqparam = codes "daqparam"

-- The first text of more than three characters.
unfoldable pub first_long : List Str → Str
first_long [] = codes "{}"
first_long (sc ∷ scs) = if leb (length sc) 3 then first_long scs else sc

module _ {W : Type 0} (mongo : Mongo W) where
  open mongo use {
    Doc, connect, query_all, query_version, configuration, doc_name, doc_version, insert,
  }

  abbrev configurations : List Doc → List Str
  configurations [] = []
  configurations (b ∷ bs) = configuration b ∷ configurations bs

  abbrev versions : List Doc → List (Str × ℕ)
  versions [] = []
  versions (b ∷ bs) = (doc_name b, doc_version b) ∷ versions bs

  abbrev connected : MdbReader → W → W
  connected r w = connect r.host r.port w

  abbrev listed : Str → MdbReader → W → List (Str × ℕ) × W
  listed coll r w = let w' = connected r w in (versions (query_all (namespace_of r coll) w'), w')

  unfoldable pub list_daq_config : Str → MdbReader → W → List (Str × ℕ) × W
  list_daq_config coll r w = listed coll r w

  unfoldable pub list_daq_param : MdbReader → W → List (Str × ℕ) × W
  list_daq_param r w = listed daqparam r w

  abbrev queried : Str → Str → ℕ → MdbReader → W → Str × W
  queried coll name version r w =
      let w' = connected r w in
      (first_long (configurations (query_version (namespace_of r coll) name version w')), w')

  unfoldable pub query_daq_config : Str → Str → ℕ → MdbReader → W → Str × W
  unfolding first_long
  query_daq_config coll name version r w = queried coll name version r w

  unfoldable pub query_daq_param : Str → ℕ → MdbReader → W → Str × W
  unfolding first_long
  query_daq_param name version r w = queried daqparam name version r w

  -- `file` is the text of the file that is read.
  unfoldable pub insert_daq_config : Str → Str → ℕ → Str → MdbReader → W → W
  insert_daq_config coll name version file r w =
      insert (namespace_of r coll) name version file (connected r w)

  unfoldable pub insert_daq_param : Str → ℕ → Str → MdbReader → W → W
  insert_daq_param name version file r w =
      insert (namespace_of r daqparam) name version file (connected r w)
