-- ===== src/Tests/Parameters.antt =====
-- An application and its parameters.
use levbdim.Base.{◌≡◌, refl, inl, inr, [], ◌∷◌, ◌++◌, List, All, some, Str, str_eq, codes}
use levbdim.Apps.Process.{BaseApplication, env_ids, find_param}
use levbdim.Apps.Parameters.{IsOther, find_param_lem}
use levbdim.Tests.Json.{Node, nil, text, num, field, item, json}

abbrev application : BaseApplication json
application = record {
  hostname = codes "lyosdhcal";
  login = [];
  process_name = codes "daq";
  config = nil;
  param = nil;
  instance_number = 1;
  port = 45;
}

abbrev process : Str → Str → Node → Node
process port instance param = field (codes "NAME") (text (codes "daq")) (
    field (codes "ENV") (item (item nil (text port)) (text instance))
      (field (codes "PARAMETER") param nil))

abbrev second : Node
second = process (codes "WEBPORT=46") (codes "INSTANCE=1") (num 8)

abbrev third : Node
third = process (codes "WEBPORT=45") (codes "INSTANCE=1") (num 9)

-- One of another name, one with another port, and the application's own.
abbrev two : List Node
two = field (codes "NAME") (text (codes "ljc")) nil ∷ second ∷ []

others : All (IsOther json application) two
unfolding env_ids str_eq
others = (inl refl, (inr ((46, 1), refl, refl), tt))

find_param_lem_example :
    (find_param json (two ++ third ∷ second ∷ []) application
      ≡ some (json.get (codes "PARAMETER") third))
    × (find_param json two application ≡ some application.param)
unfolding env_ids str_eq
find_param_lem_example =
    find_param_lem json application two third (second ∷ []) (45, 1) others refl refl refl
