-- ===== src/Proxy/MessageParser/Readings.antt =====
-- What a passed test says of a field.
use mcp_debugger.Base.{◌≡◌, refl, String, true, not, Option, none, some, List, [], ◌∷◌, arith, ◌∙◌}
use mcp_debugger.Base.Json.{
  Json, Items, Fields, null, bool, num, str, arr, obj, nil, cons, field_of, truthy, has_type_string,
}
use mcp_debugger.Proxy.MessageParser.{
  one_of, is_text, is_string, is_optional, is_array, is_bool, is_number, is_port, is_literal,
  is_timeout, is_null,
}
use mcp_debugger.Proxy.MessageParser.Shapes.{
  Shape, anything, not_null, string, text, number, port, positive, boolean, literal, items, object,
  Members, none_more, required, optional, present, absent_or, all_items, is_among, conforms,
}

abbrev pub HasMember : String → Shape → Fields → Type 0
HasMember k shape fs = present (conforms shape) (field_of k fs) ≡ true

abbrev pub MayHaveMember : String → Shape → Fields → Type 0
MayHaveMember k shape fs = absent_or (conforms shape) (field_of k fs) ≡ true

abbrev pub Holds : Members → Fields → Type 0
Holds none_more fs = Unit {0}
Holds (required k shape members) fs = HasMember k shape fs × Holds members fs
Holds (optional k shape members) fs = MayHaveMember k shape fs × Holds members fs

pub conforms-object :
    (members : Members) (fs : Fields) → Holds members fs → conforms (object members) (obj fs) ≡ true
unfolding conforms
conforms-object none_more fs p = refl
conforms-object (required k shape members) fs p =
    ground (arith, p.0, conforms-object members fs p.1)
conforms-object (optional k shape members) fs p =
    ground (arith, p.0, conforms-object members fs p.1)

pub is_among_lem : (ts : List String) (s : String) → is_among s ts ≡ one_of ts s
is_among_lem [] s = refl
is_among_lem (t ∷ ts) s = ground (arith, is_among_lem ts s)

module _ (v : Option Json) where
  pub string-string : is_string v ≡ true → present (conforms string) v ≡ true
  unfolding conforms has_type_string
  string-string h = ground arith

  pub optional-string : is_optional is_string v ≡ true → absent_or (conforms string) v ≡ true
  unfolding conforms has_type_string
  optional-string h = ground arith

  pub number-number : is_number v ≡ true → present (conforms number) v ≡ true
  unfolding conforms
  number-number h = ground arith

  pub port-port : is_port v ≡ true → present (conforms port) v ≡ true
  unfolding conforms
  port-port h = ground arith

  pub timeout-positive : is_timeout v ≡ true → absent_or (conforms positive) v ≡ true
  unfolding conforms
  timeout-positive h = ground arith

  pub not_null_lem : not (is_null v) ≡ true → absent_or (conforms not_null) v ≡ true
  unfolding conforms
  not_null_lem h = ground arith

  pub optional-boolean : is_optional is_bool v ≡ true → absent_or (conforms boolean) v ≡ true
  unfolding conforms
  optional-boolean h = ground arith

pub text-text : (v : Option Json) → is_text v ≡ true → present (conforms text) v ≡ true
unfolding conforms truthy has_type_string
text-text (some (str String.[])) h = absurd cc
text-text (some (str (String.◌∷◌ c s))) h = refl
text-text (some null) h = absurd cc
text-text (some (bool b)) h = absurd (ground (arith, h))
text-text (some (num n)) h = absurd (ground (arith, h))
text-text (some (arr vs)) h = absurd cc
text-text (some (obj fs)) h = absurd cc
text-text none h = absurd cc

pub optional-literal :
    (v : Option Json) (ts : List String)
    → is_optional (is_literal ts) v ≡ true
    → absent_or (conforms (literal ts)) v ≡ true
unfolding conforms
optional-literal none ts h = refl
optional-literal (some (str s)) ts h = is_among_lem ts s ∙ h
optional-literal (some null) ts h = absurd cc
optional-literal (some (bool b)) ts h = absurd cc
optional-literal (some (num n)) ts h = absurd cc
optional-literal (some (arr vs)) ts h = absurd cc
optional-literal (some (obj fs)) ts h = absurd cc

all_items-anything : (vs : Items) → all_items (λ v. conforms anything v) vs ≡ true
unfolding all_items conforms
all_items-anything nil = refl
all_items-anything (cons v vs) = all_items-anything vs

pub optional-array :
    (v : Option Json)
    → is_optional is_array v ≡ true
    → absent_or (conforms (items anything)) v ≡ true
unfolding conforms
optional-array none h = refl
optional-array (some (arr vs)) h = all_items-anything vs
optional-array (some null) h = absurd cc
optional-array (some (bool b)) h = absurd cc
optional-array (some (num n)) h = absurd cc
optional-array (some (str s)) h = absurd cc
optional-array (some (obj fs)) h = absurd cc
