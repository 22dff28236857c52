-- ===== src/Tests/Json.antt =====
-- A small JSON library that meets the laws, with a text form in postfix notation.
use levbdim.Base.{
  ℕ, zero, suc, ◌≡◌, refl, sym, ap, ◌∙◌, List, [], ◌∷◌, ◌++◌, Bool, true, false, ◌||◌,
  if◌then◌else◌, ◌==◌, Str, str_eq, str_eq_iff, str_eq_refl, arith,
}
use mathlib.Core.List.{append_assoc, append-nil}
use levbdim.Json.{JsonLib, Laws, appended}

pub data Node : Type 0 where
  nil : Node
  text : Str → Node
  num : ℕ → Node
  field : Str → Node → Node → Node
  item : Node → Node → Node

abbrev field_of : Str → Node → Node
field_of k (field j x v) = if str_eq j k then x else field_of k v
field_of k _ = nil

abbrev has_field : Str → Node → Bool
has_field k (field j x v) = str_eq j k || has_field k v
has_field k _ = false

abbrev names : Node → List Str
names (field j x v) = j ∷ names v
names _ = []

abbrev elements : Node → List Node
elements (item v x) = elements v ++ x ∷ []
elements _ = []

abbrev as_text : Node → Str
as_text (text s) = s
as_text _ = []

abbrev as_num : Node → ℕ
as_num (num n) = n
as_num _ = 0

abbrev is_nil : Node → Bool
is_nil nil = true
is_nil _ = false

abbrev is_map : Node → Bool
is_map nil = true
is_map (field k x v) = true
is_map _ = false

-- Pairs of an instruction and its argument and one, for a machine with a stack.
abbrev spell : Str → Str → Str
spell [] r = 2 ∷ 1 ∷ r
spell (c ∷ s) r = spell s (3 ∷ suc c ∷ r)

abbrev print : Node → Str → Str
print nil r = 6 ∷ 1 ∷ r
print (num n) r = 1 ∷ suc n ∷ r
print (text s) r = spell s r
print (field k x v) r = spell k (print x (print v (4 ∷ 1 ∷ r)))
print (item v x) r = print v (print x (5 ∷ 1 ∷ r))

abbrev put_char : ℕ → List Node → List Node
put_char c (text s ∷ st) = text (c ∷ s) ∷ st
put_char c _ = []

abbrev put_field : List Node → List Node
put_field (v ∷ x ∷ text k ∷ st) = field k x v ∷ st
put_field _ = []

abbrev put_item : List Node → List Node
put_item (x ∷ v ∷ st) = item v x ∷ st
put_item _ = []

abbrev step : ℕ → ℕ → List Node → List Node
step op a st =
    if op == 6
    then nil ∷ st
    else if op == 1
    then num a ∷ st
    else if op == 2
    then text [] ∷ st
    else if op == 3
    then put_char a st
    else if op == 4
    then put_field st
    else put_item st

abbrev run : Str → List Node → List Node
run [] st = st
run (op ∷ []) st = st
run (op ∷ zero ∷ r) st = st
run (op ∷ suc a ∷ r) st = run r (step op a st)

abbrev result : List Node → Node × Bool
result [] = (nil, false)
result (v ∷ st) = (v, true)

run-spell : (s r : Str) (st : List Node) → run (spell s r) st ≡ run r (text s ∷ st)
run-spell [] r st = refl
run-spell (c ∷ s) r st = run-spell s (3 ∷ suc c ∷ r) st

run-print : (v : Node) (r : Str) (st : List Node) → run (print v r) st ≡ run r (v ∷ st)
run-print nil r st = refl
run-print (num n) r st = refl
run-print (text s) r st = run-spell s r st
run-print (field k x v) r st =
    run-spell k (print x (print v (4 ∷ 1 ∷ r))) st
    ∙ run-print x (print v (4 ∷ 1 ∷ r)) (text k ∷ st)
    ∙ run-print v (4 ∷ 1 ∷ r) (x ∷ text k ∷ st)
run-print (item v x) r st = run-print v (print x (5 ∷ 1 ∷ r)) st ∙ run-print x (5 ∷ 1 ∷ r) (v ∷ st)

abbrev pub json : JsonLib
json = record {
  Value = Node;
  null = nil;
  is_null = is_nil;
  has_members = is_map;
  get = field_of;
  set = field;
  is_member = has_field;
  of_string = text;
  as_string = as_text;
  of_int = num;
  as_uint = as_num;
  of_uint = num;
  as_int = as_num;
  append = item;
  items = elements;
  member_names = names;
  write = λ v. print v [];
  parse = λ s. result (run s []);
}

elements-appended : (v : Node) (xs : List Node) → elements (appended json v xs) ≡ elements v ++ xs
elements-appended v [] = sym (append-nil (elements v))
elements-appended v (x ∷ xs) =
    elements-appended (item v x) xs ∙ append_assoc (elements v) (x ∷ []) xs

pub json_laws : Laws json
json_laws = record {
  has_members-null = refl;
  has_members-set = λ h. refl;
  get-set_self = λ k x v h. rw (str_eq_refl k);
  get-set_other = λ k j x v h other. ground (arith, str_eq_iff k j, other);
  as_string-of_string = λ s. refl;
  parse-write = λ v. ap result (run-print v [] []);
  as_uint-of_int = λ n small. refl;
  as_uint-of_uint = λ n small. refl;
  as_int-of_int = λ n small. refl;
  items-appended = elements-appended nil;
}
