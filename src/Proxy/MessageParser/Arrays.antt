-- ===== src/Proxy/MessageParser/Arrays.antt =====
-- The checked items of an array have their shape.
use mcp_debugger.Base.{
  ◌≡◌, refl, ◌∙◌, sym, subst, String, true, false, Option, none, some, str_eq, str_eq_iff, arith,
}
use mcp_debugger.Base.Json.{
  Json, Items, Fields, null, bool, num, str, arr, obj, nil, cons, field_of,
}
use mcp_debugger.Proxy.MessageParser.{
  Checked, ok, Builtins, set, coerce_number, is_string, is_number, check_array, check_items,
  breakpoint_guards, check_breakpoint, function_guards, check_function_breakpoint,
  check_breakpoints,
}
use mcp_debugger.Proxy.MessageParser.Shapes.{
  Shape, items, absent_or, all_items, conforms, breakpoint_members, function_breakpoint_members,
  breakpoint, function_breakpoint,
}
use mcp_debugger.Proxy.MessageParser.Steps.{
  guarded-ok, and_then-ok, ok-inj, field_of-set, check_array_else,
}
use mcp_debugger.Proxy.MessageParser.Readings.{
  MayHaveMember, conforms-object, text-text, string-string, optional-string, number-number,
  optional-literal,
}

-- A check of an item that returns values of a shape.
abbrev Returns : Shape → (Json → Checked Json) → Type 0
Returns shape check = (v w : Json) → check v ≡ ok w → conforms shape w ≡ true

check_items-Returns :
    (shape : Shape) (check : Json → Checked Json) (vs ws : Items)
    → Returns shape check
    → check_items check vs ≡ ok ws
    → all_items (λ v. conforms shape v) ws ≡ true
unfolding check_items all_items
check_items-Returns shape check nil ws sound h =
    subst (λ xs. all_items (λ v. conforms shape v) xs ≡ true) (ok-inj nil ws h) refl
check_items-Returns shape check (cons v vs) ws sound h =
    let (w, first, then_rest) = and_then-ok (check v) _ ws h in
    let (rest, checked, done) = and_then-ok (check_items check vs) _ ws then_rest in
    let good = sound v w first in
    let goods = check_items-Returns shape check vs rest sound checked in
    subst (λ xs. all_items (λ x. conforms shape x) xs ≡ true) (ok-inj (cons w rest) ws done)
      (ground (arith, good, goods))

check_array-Returns :
    (k : String) (shape : Shape) (check : Json → Checked Json) (fs out : Fields) (v : Option Json)
    → field_of k fs ≡ v
    → Returns shape check
    → check_array k check v fs ≡ ok out
    → MayHaveMember k (items shape) out
unfolding conforms
check_array-Returns k shape check fs out none there sound h =
    subst (λ gs. MayHaveMember k (items shape) gs) (ok-inj fs out h) (rw there refl)
check_array-Returns k shape check fs out (some (arr xs)) there sound h =
    let (ys, checked, done) = and_then-ok (check_items check xs) _ out h in
    let good = check_items-Returns shape check xs ys sound checked in
    let e : field_of k (set k (arr ys) fs) ≡ some (arr ys) =
      ground (arith, field_of-set k k (arr ys) fs, str_eq_iff k k) in
    subst (λ gs. MayHaveMember k (items shape) gs) (ok-inj (set k (arr ys) fs) out done) (rw e good)
check_array-Returns k shape check fs out (some null) there sound h = absurd cc
check_array-Returns k shape check fs out (some (bool b)) there sound h = absurd cc
check_array-Returns k shape check fs out (some (num n)) there sound h = absurd cc
check_array-Returns k shape check fs out (some (str s)) there sound h = absurd cc
check_array-Returns k shape check fs out (some (obj gs)) there sound h = absurd cc

check_breakpoint-Returns : (b : Builtins) → Returns breakpoint (check_breakpoint b)
unfolding check_breakpoint
check_breakpoint-Returns b (obj fs) w h =
    let gs = coerce_number b "line" fs in
    let ((place, (condition, (log_message, (policy, (id, _))))), done) =
      guarded-ok (breakpoint_guards gs) (ok (obj gs)) w h in
    let (file, line) : (is_string (field_of "file" gs) ≡ true)
        × (is_number (field_of "line" gs) ≡ true) =
      ground (arith, place) in
    subst (λ x. conforms breakpoint x ≡ true) (ok-inj (obj gs) w done)
      (conforms-object breakpoint_members gs (
        string-string _ file,
        (
          number-number _ line,
          (
            optional-string _ condition,
            (
              optional-string _ log_message,
              (optional-literal _ _ policy, (optional-string _ id, tt)),
            ),
          ),
        ),
      ))
check_breakpoint-Returns b (arr xs) w h = absurd cc
check_breakpoint-Returns b null w h = absurd cc
check_breakpoint-Returns b (bool x) w h = absurd cc
check_breakpoint-Returns b (num n) w h = absurd cc
check_breakpoint-Returns b (str s) w h = absurd cc

check_function_breakpoint-Returns : Returns function_breakpoint check_function_breakpoint
unfolding check_function_breakpoint
check_function_breakpoint-Returns (obj fs) w h =
    let ((name, (condition, _)), done) = guarded-ok (function_guards fs) (ok (obj fs)) w h in
    subst (λ x. conforms function_breakpoint x ≡ true) (ok-inj (obj fs) w done)
      (conforms-object function_breakpoint_members fs
        (text-text _ name, (optional-string _ condition, tt)))
check_function_breakpoint-Returns (arr xs) w h = absurd cc
check_function_breakpoint-Returns null w h = absurd cc
check_function_breakpoint-Returns (bool x) w h = absurd cc
check_function_breakpoint-Returns (num n) w h = absurd cc
check_function_breakpoint-Returns (str s) w h = absurd cc

pub check_breakpoints_else :
    (b : Builtins) (k : String) (fs out : Fields)
    → str_eq "initialBreakpoints" k ≡ false
    → str_eq "initialFunctionBreakpoints" k ≡ false
    → check_breakpoints b fs ≡ ok out
    → field_of k out ≡ field_of k fs
unfolding check_breakpoints
check_breakpoints_else b k fs out apart apart_too h =
    let (gs, first, second) =
      and_then-ok
        (check_array "initialBreakpoints" (check_breakpoint b) (field_of "initialBreakpoints" fs)
          fs)
        _ out h in
    check_array_else k "initialFunctionBreakpoints" check_function_breakpoint
      (field_of "initialFunctionBreakpoints" gs) gs out apart_too second
    ∙ check_array_else k "initialBreakpoints" (check_breakpoint b)
        (field_of "initialBreakpoints" fs) fs gs apart first

pub check_breakpoints-ok :
    (b : Builtins) (fs out : Fields)
    → check_breakpoints b fs ≡ ok out
    → MayHaveMember "initialBreakpoints" (items breakpoint) out
      × MayHaveMember "initialFunctionBreakpoints" (items function_breakpoint) out
unfolding check_breakpoints
check_breakpoints-ok b fs out h =
    let (gs, first, second) =
      and_then-ok
        (check_array "initialBreakpoints" (check_breakpoint b) (field_of "initialBreakpoints" fs)
          fs)
        _ out h in
    let kept =
      check_array_else "initialBreakpoints" "initialFunctionBreakpoints" check_function_breakpoint
        (field_of "initialFunctionBreakpoints" gs) gs out refl second in
    (
      subst (λ v. absent_or (conforms (items breakpoint)) v ≡ true) (sym kept)
          (check_array-Returns "initialBreakpoints" breakpoint (check_breakpoint b) fs gs
            (field_of "initialBreakpoints" fs) refl (check_breakpoint-Returns b) first),
      check_array-Returns "initialFunctionBreakpoints" function_breakpoint check_function_breakpoint
          gs out (field_of "initialFunctionBreakpoints" gs) refl check_function_breakpoint-Returns
          second,
    )
