-- ===== src/Proxy/MessageParser/Accepted.antt =====
-- A payload of its type passes the parser, and is left as it is.
use mcp_debugger.Base.{
  sym, ◌∙◌, ◌≡◌, refl, ap, String, true, not, Option, none, some, List, [], ◌∷◌, str_eq, arith,
  Bool-cases, inl, inr,
}
use mcp_debugger.Base.Json.{
  Json, Items, Fields, null, bool, num, str, arr, obj, nil, cons, end, field, field_of, truthy,
  has_type_string,
}
use mcp_debugger.Proxy.MessageParser.{
  Checked, ok, Builtins, set, coerced_number, coerced_flag, coerce_number, coerce_flag, is_text,
  is_string, is_optional, is_array, is_bool, is_number, is_port, is_literal, is_timeout,
  check_array, check_items, breakpoint_guards, check_breakpoint, function_guards,
  check_function_breakpoint, is_null,
}
use mcp_debugger.Proxy.MessageParser.Shapes.{
  Shape, not_null, string, text, number, port, positive, boolean, literal, items, object, Members,
  none_more, required, optional, present, absent_or, all_items, conforms, breakpoint_members,
  function_breakpoint_members, breakpoint, function_breakpoint,
}
use mcp_debugger.Proxy.MessageParser.Steps.{Passes-guarded}
use mcp_debugger.Proxy.MessageParser.Readings.{Holds, is_among_lem}

pub object-Holds :
    (members : Members) (fs : Fields) → conforms (object members) (obj fs) ≡ true → Holds members fs
unfolding conforms
object-Holds none_more fs h = tt
object-Holds (required k shape members) fs h =
    (ground (arith, h), object-Holds members fs (ground (arith, h)))
object-Holds (optional k shape members) fs h =
    (ground (arith, h), object-Holds members fs (ground (arith, h)))

module _ (v : Option Json) where
  present-string : present (conforms string) v ≡ true → is_string v ≡ true
  unfolding conforms has_type_string
  present-string h = ground arith

  pub absent_or-string : absent_or (conforms string) v ≡ true → is_optional is_string v ≡ true
  unfolding conforms has_type_string
  absent_or-string h = ground arith

  present-number : present (conforms number) v ≡ true → is_number v ≡ true
  unfolding conforms
  present-number h = ground arith

  pub present-port : present (conforms port) v ≡ true → is_port v ≡ true
  unfolding conforms
  present-port h = ground arith

  pub absent_or-positive : absent_or (conforms positive) v ≡ true → is_timeout v ≡ true
  unfolding conforms
  absent_or-positive h = ground arith

  pub absent_or-not_null : absent_or (conforms not_null) v ≡ true → not (is_null v) ≡ true
  unfolding conforms
  absent_or-not_null h = ground arith

  pub absent_or-boolean : absent_or (conforms boolean) v ≡ true → is_optional is_bool v ≡ true
  unfolding conforms
  absent_or-boolean h = ground arith

  pub absent_or-items :
      (shape : Shape) → absent_or (conforms (items shape)) v ≡ true → is_optional is_array v ≡ true
  unfolding conforms
  absent_or-items shape h = ground arith

pub present-text : (v : Option Json) → present (conforms text) v ≡ true → is_text v ≡ true
unfolding conforms truthy has_type_string
present-text (some (str String.[])) h = absurd cc
present-text (some (str (String.◌∷◌ c s))) h = refl
present-text (some null) h = absurd cc
present-text (some (bool b)) h = absurd cc
present-text (some (num n)) h = absurd cc
present-text (some (arr vs)) h = absurd cc
present-text (some (obj fs)) h = absurd cc
present-text none h = absurd cc

pub absent_or-literal :
    (v : Option Json) (ts : List String)
    → absent_or (conforms (literal ts)) v ≡ true
    → is_optional (is_literal ts) v ≡ true
unfolding conforms
absent_or-literal none ts h = refl
absent_or-literal (some (str s)) ts h = sym (is_among_lem ts s) ∙ h
absent_or-literal (some null) ts h = absurd cc
absent_or-literal (some (bool b)) ts h = absurd cc
absent_or-literal (some (num n)) ts h = absurd cc
absent_or-literal (some (arr vs)) ts h = absurd cc
absent_or-literal (some (obj fs)) ts h = absurd cc

-- Writing what is there changes nothing.
set_same : (k : String) (v : Json) (fs : Fields) → field_of k fs ≡ some v → set k v fs ≡ fs
unfolding field_of set
set_same k v end h = absurd cc
set_same k v (field j w fs) h = elim (Bool-cases (str_eq j k)) [
  | inl e ↦ let same : w ≡ v = ground (arith, h, e) in ground (arith, e, same)
  | inr e ↦ let rest = set_same k v fs (ground (arith, h, e)) in ground (arith, e, rest)
]

coerced_number_same :
    (b : Builtins) (k : String) (v : Option Json) (fs : Fields)
    → is_number v ≡ true
    → coerced_number b k v fs ≡ fs
coerced_number_same b k (some (num n)) fs h = refl
coerced_number_same b k (some (str s)) fs h = absurd cc
coerced_number_same b k (some null) fs h = absurd cc
coerced_number_same b k (some (bool x)) fs h = absurd cc
coerced_number_same b k (some (arr x)) fs h = absurd cc
coerced_number_same b k (some (obj x)) fs h = absurd cc
coerced_number_same b k none fs h = absurd cc

pub coerce_number_same :
    (b : Builtins) (k : String) (fs : Fields)
    → is_number (field_of k fs) ≡ true
    → coerce_number b k fs ≡ fs
unfolding coerce_number
coerce_number_same b k fs h = coerced_number_same b k (field_of k fs) fs h

coerced_flag_same :
    (k : String) (v : Option Json) (fs : Fields)
    → is_optional is_bool v ≡ true
    → coerced_flag k v fs ≡ fs
coerced_flag_same k none fs h = refl
coerced_flag_same k (some (bool x)) fs h = refl
coerced_flag_same k (some (str s)) fs h = absurd cc
coerced_flag_same k (some null) fs h = absurd cc
coerced_flag_same k (some (num n)) fs h = absurd cc
coerced_flag_same k (some (arr x)) fs h = absurd cc
coerced_flag_same k (some (obj x)) fs h = absurd cc

pub coerce_flag_same :
    (k : String) (fs : Fields) → is_optional is_bool (field_of k fs) ≡ true → coerce_flag k fs ≡ fs
unfolding coerce_flag
coerce_flag_same k fs h = coerced_flag_same k (field_of k fs) fs h

-- A check that returns values of a shape as they are.
abbrev Accepts : Shape → (Json → Checked Json) → Type 0
Accepts shape check = (v : Json) → conforms shape v ≡ true → check v ≡ ok v

check_items-Accepts :
    (shape : Shape) (check : Json → Checked Json) (vs : Items)
    → Accepts shape check
    → all_items (λ v. conforms shape v) vs ≡ true
    → check_items check vs ≡ ok vs
unfolding check_items all_items
check_items-Accepts shape check nil accepts h = refl
check_items-Accepts shape check (cons v vs) accepts h =
    let first = accepts v (ground (arith, h)) in
    let rest = check_items-Accepts shape check vs accepts (ground (arith, h)) in
    rw (first, rest) refl

pub check_array-Accepts :
    (k : String) (shape : Shape) (check : Json → Checked Json) (v : Option Json) (fs : Fields)
    → field_of k fs ≡ v
    → Accepts shape check
    → absent_or (conforms (items shape)) v ≡ true
    → check_array k check v fs ≡ ok fs
unfolding conforms
check_array-Accepts k shape check none fs there accepts h = refl
check_array-Accepts k shape check (some (arr vs)) fs there accepts h =
    rw (check_items-Accepts shape check vs accepts h) (ap ok (set_same k (arr vs) fs there))
check_array-Accepts k shape check (some null) fs there accepts h = absurd cc
check_array-Accepts k shape check (some (bool x)) fs there accepts h = absurd cc
check_array-Accepts k shape check (some (num n)) fs there accepts h = absurd cc
check_array-Accepts k shape check (some (str s)) fs there accepts h = absurd cc
check_array-Accepts k shape check (some (obj x)) fs there accepts h = absurd cc

pub check_breakpoint-Accepts : (b : Builtins) → Accepts breakpoint (check_breakpoint b)
unfolding check_breakpoint conforms
check_breakpoint-Accepts b (obj fs) h =
    let (file, (line, (condition, (log_message, (policy, (id, _)))))) =
      object-Holds breakpoint_members fs h in
    let numbered = present-number (field_of "line" fs) line in
    let named = present-string (field_of "file" fs) file in
    let same = coerce_number_same b "line" fs numbered in
    rw same (
      Passes-guarded (breakpoint_guards fs) (ok (obj fs)) (
        ground (arith, numbered, named),
        (
          absent_or-string _ condition,
          (
            absent_or-string _ log_message,
            (
              absent_or-literal (field_of "suspendPolicy" fs) ("all" ∷ "thread" ∷ []) policy,
              (absent_or-string _ id, tt),
            ),
          ),
        ),
      ))
check_breakpoint-Accepts b (arr x) h = absurd cc
check_breakpoint-Accepts b null h = absurd cc
check_breakpoint-Accepts b (bool x) h = absurd cc
check_breakpoint-Accepts b (num n) h = absurd cc
check_breakpoint-Accepts b (str s) h = absurd cc

pub check_function_breakpoint-Accepts : Accepts function_breakpoint check_function_breakpoint
unfolding check_function_breakpoint conforms
check_function_breakpoint-Accepts (obj fs) h =
    let (name, (condition, _)) = object-Holds function_breakpoint_members fs h in
    Passes-guarded (function_guards fs) (ok (obj fs))
      (present-text _ name, (absent_or-string _ condition, tt))
check_function_breakpoint-Accepts (arr x) h = absurd cc
check_function_breakpoint-Accepts null h = absurd cc
check_function_breakpoint-Accepts (bool x) h = absurd cc
check_function_breakpoint-Accepts (num n) h = absurd cc
check_function_breakpoint-Accepts (str s) h = absurd cc
