-- ===== src/Proxy/MessageParser/Steps.antt =====
-- What the steps of the parser have checked when they go on, and what they leave alone.
use mcp_debugger.Base.{
  ◌≡◌, refl, ap, ◌∙◌, sym, String, Bool, true, false, Option, none, some, List, [], ◌∷◌,
  if◌then◌else◌, str_eq, str_eq_iff, arith,
}
use mcp_debugger.Base.Int.{ℤ}
use mcp_debugger.Base.Json.{Json, Fields, null, bool, num, str, arr, obj, end, field, field_of}
use mcp_debugger.Proxy.MessageParser.{
  ParseError, Checked, ok, failed, Builtins, set, remove, guarded, and_then, put_number,
  coerced_number, coerce_number, coerced_flag, coerce_flag, check_array, check_items,
}

abbrev pub Passes : List (Bool × ParseError) → Type 0
Passes [] = Unit {0}
Passes ((test, e) ∷ guards) = (test ≡ true) × Passes guards

pub guarded-ok {ℓ} :
    {A : Type ℓ} (guards : List (Bool × ParseError)) (next : Checked A) (a : A)
    → guarded guards next ≡ ok a
    → Passes guards × (next ≡ ok a)
unfolding guarded
guarded-ok [] next a h = (tt, h)
guarded-ok ((true, e) ∷ guards) next a h =
    let (passed, goes_on) = guarded-ok guards next a h in ((refl, passed), goes_on)
guarded-ok ((false, e) ∷ guards) next a h = absurd cc

pub Passes-guarded {ℓ} :
    {A : Type ℓ} (guards : List (Bool × ParseError)) (next : Checked A)
    → Passes guards
    → guarded guards next ≡ next
unfolding guarded
Passes-guarded [] next p = refl
Passes-guarded ((true, e) ∷ guards) next p = Passes-guarded guards next p.1
Passes-guarded ((false, e) ∷ guards) next p = absurd (let q = p.0 in cc)

pub and_then-ok {ℓ κ} :
    {A : Type ℓ} {B : Type κ} (x : Checked A) (f : A → Checked B) (b : B)
    → and_then x f ≡ ok b
    → (a : A) × (x ≡ ok a) × (f a ≡ ok b)
and_then-ok (ok a) f b h = (a, refl, h)
and_then-ok (failed e) f b h = absurd cc

pub ok-inj {ℓ} : {A : Type ℓ} (a b : A) → ok a ≡ ok b → a ≡ b
ok-inj a b e = cc

pub field_of-set :
    (k j : String) (v : Json) (fs : Fields)
    → field_of k (set j v fs) ≡ (if str_eq j k then some v else field_of k fs)
unfolding field_of set
field_of-set k j v end = refl
field_of-set k j v (field i w fs) =
    ground (arith, str_eq_iff i j, str_eq_iff i k, str_eq_iff j k, field_of-set k j v fs)

pub field_of-remove :
    (k j : String) (fs : Fields)
    → field_of k (remove j fs) ≡ (if str_eq j k then none else field_of k fs)
unfolding field_of remove
field_of-remove k j end = ground arith
field_of-remove k j (field i w fs) =
    ground (arith, str_eq_iff i j, str_eq_iff i k, str_eq_iff j k, field_of-remove k j fs)

-- Writing one field leaves the others alone.
field_of-set_else :
    (k j : String) (v : Json) (fs : Fields)
    → str_eq j k ≡ false
    → field_of k (set j v fs) ≡ field_of k fs
field_of-set_else k j v fs apart = ground (arith, field_of-set k j v fs)

put_number_else :
    (k j : String) (n : Option ℤ) (fs : Fields)
    → str_eq j k ≡ false
    → field_of k (put_number j n fs) ≡ field_of k fs
put_number_else k j none fs apart = refl
put_number_else k j (some n) fs apart = field_of-set_else k j (num n) fs apart

coerced_number_else :
    (b : Builtins) (k j : String) (v : Option Json) (fs : Fields)
    → str_eq j k ≡ false
    → field_of k (coerced_number b j v fs) ≡ field_of k fs
coerced_number_else b k j (some (str s)) fs apart = put_number_else k j (b.to_number s) fs apart
coerced_number_else b k j none fs apart = refl
coerced_number_else b k j (some null) fs apart = refl
coerced_number_else b k j (some (bool v)) fs apart = refl
coerced_number_else b k j (some (num v)) fs apart = refl
coerced_number_else b k j (some (arr v)) fs apart = refl
coerced_number_else b k j (some (obj v)) fs apart = refl

pub coerce_number_else :
    (b : Builtins) (k j : String) (fs : Fields)
    → str_eq j k ≡ false
    → field_of k (coerce_number b j fs) ≡ field_of k fs
unfolding coerce_number
coerce_number_else b k j fs apart = coerced_number_else b k j (field_of j fs) fs apart

coerced_flag_else :
    (k j : String) (v : Option Json) (fs : Fields)
    → str_eq j k ≡ false
    → field_of k (coerced_flag j v fs) ≡ field_of k fs
coerced_flag_else k j (some (str s)) fs apart =
    ground (
      arith,
      field_of-set_else k j (bool true) fs apart,
      field_of-set_else k j (bool false) fs apart,
    )
coerced_flag_else k j none fs apart = refl
coerced_flag_else k j (some null) fs apart = refl
coerced_flag_else k j (some (bool v)) fs apart = refl
coerced_flag_else k j (some (num v)) fs apart = refl
coerced_flag_else k j (some (arr v)) fs apart = refl
coerced_flag_else k j (some (obj v)) fs apart = refl

pub coerce_flag_else :
    (k j : String) (fs : Fields)
    → str_eq j k ≡ false
    → field_of k (coerce_flag j fs) ≡ field_of k fs
unfolding coerce_flag
coerce_flag_else k j fs apart = coerced_flag_else k j (field_of j fs) fs apart

pub check_array_else :
    (k j : String) (check : Json → Checked Json) (v : Option Json) (fs out : Fields)
    → str_eq j k ≡ false
    → check_array j check v fs ≡ ok out
    → field_of k out ≡ field_of k fs
check_array_else k j check none fs out apart h = ap (field_of k) (sym (ok-inj fs out h))
check_array_else k j check (some (arr xs)) fs out apart h =
    let (ys, checked, done) = and_then-ok (check_items check xs) _ out h in
    ap (field_of k) (sym (ok-inj (set j (arr ys) fs) out done))
    ∙ field_of-set_else k j (arr ys) fs apart
check_array_else k j check (some null) fs out apart h = absurd cc
check_array_else k j check (some (bool v)) fs out apart h = absurd cc
check_array_else k j check (some (num v)) fs out apart h = absurd cc
check_array_else k j check (some (str v)) fs out apart h = absurd cc
check_array_else k j check (some (obj v)) fs out apart h = absurd cc
