-- ===== src/Session/VariableCaps/Prefix.antt =====
-- What the caps keep: a front part of the list, each value cut at its cap, within the budgets.
use mcp_debugger.Base.{
  ℕ, zero, suc, ◌+◌, ◌≤◌, ◌<◌, ◌≡◌, ◌≢◌, refl, ◌∙◌, sym, true, false, Option, none, some, List, [],
  ◌∷◌, ◌++◌, arith, All, length, take, map, length-map, take_all, length-append, length-take,
  append_assoc, append-nil, Bool-cases, inl, inr, if◌then◌else◌,
}
use mcp_debugger.Base.Int.{pos, negsuc}
use mcp_debugger.Base.Number.{nan, infinite, finite, parse_int}
use mcp_debugger.Session.VariableCaps.{
  env_int, positive_or, default_max_variables_per_call, default_max_variables_total_chars, Env,
  Caps, Variable, Progress, CappedVariables, caps_of, value_or_empty, is_long, cut, is_full,
  cap_step, cap_loop, VariableTruncationSummary, no_progress, summarise, apply_variable_caps,
}

abbrev pub HasValue : Variable → Type 0
HasValue v = v.value ≢ none

-- The characters of a list of variables.
abbrev pub chars : List Variable → ℕ
chars [] = 0
chars (v ∷ vs) = length (value_or_empty v.value) + chars vs

chars-append : (xs ys : List Variable) → chars (xs ++ ys) ≡ chars xs + chars ys
chars-append [] ys = omega arith
chars-append (x ∷ xs) ys = omega (arith, chars-append xs ys)

-- How many of the variables are too long.
abbrev pub count_long : Caps → List Variable → ℕ
count_long caps [] = 0
count_long caps (v ∷ vs) = (if is_long caps v then 1 else 0) + count_long caps vs

length-cut_le :
    (caps : Caps) (v : Variable) → length (value_or_empty (cut caps v).value) ≤ caps.value_cap
unfolding cut
length-cut_le caps v = ground (arith, length-take caps.value_cap (value_or_empty v.value))

-- What the loop has done from `p` on, on the variables `vs`.
pub record Kept (caps : Caps) (p : Progress) (vs : List Variable) (q : Progress) (n : ℕ)
    : Type 0 where
  pub front : q.kept ≡ p.kept ++ map (cut caps) (take n vs)
  pub counted : n + q.omitted_count ≡ length vs + p.omitted_count
  pub longs : q.value_truncated_count ≡ p.value_truncated_count + count_long caps (take n vs)

-- The budgets.
pub record Within (caps : Caps) (p : Progress) : Type 0 where
  pub few : length p.kept ≤ caps.count_cap
  pub total : p.total_chars ≡ chars p.kept
  pub small : p.total_chars ≤ caps.total_cap + caps.value_cap

module _ (caps : Caps) where
  abbrev skipped : Progress → ℕ → Progress
  skipped p n = record p { omitted_count = p.omitted_count + n }

  -- The progress after a variable that is kept.
  abbrev added : Progress → Variable → Progress
  added p v = record p {
    kept = p.kept ++ cut caps v ∷ [];
    value_truncated_count =
        if is_long caps v then p.value_truncated_count + 1 else p.value_truncated_count;
    total_chars = p.total_chars + length (value_or_empty (cut caps v).value);
  }

  cap_step-full :
      (p : Progress) (v : Variable) → is_full caps p ≡ true → cap_step caps p v ≡ some (skipped p 1)
  unfolding cap_step
  cap_step-full p v h = rw h

  cap_step-added :
      (p : Progress) (v : Variable)
      → is_full caps p ≡ false
      → HasValue v
      → cap_step caps p v ≡ some (added p v)
  unfolding cap_step cut
  cap_step-added p v h some_value = ground arith

  cap_loop-full :
      (p : Progress) (vs : List Variable)
      → is_full caps p ≡ true
      → cap_loop caps p vs ≡ some (skipped p (length vs))
  unfolding cap_loop
  cap_loop-full p [] h = ground arith
  cap_loop-full p (v ∷ vs) h =
      rw (cap_step-full p v h, cap_loop) (cap_loop-full (skipped p 1) vs h ∙ ground arith)

  added-Within :
      (p : Progress) (v : Variable)
      → is_full caps p ≡ false
      → Within caps p
      → Within caps (added p v)
  added-Within p v h w = record {
    few = ground (arith, length-append p.kept (cut caps v ∷ []));
    total = omega (arith, w.total, chars-append p.kept (cut caps v ∷ []));
    small = ground (arith, length-cut_le caps v);
  }

  added-Kept :
      (p q : Progress) (v : Variable) (vs : List Variable) (n : ℕ)
      → Kept caps (added p v) vs q n
      → Kept caps p (v ∷ vs) q (suc n)
  added-Kept p q v vs n k = record {
    front = k.front ∙ append_assoc p.kept (cut caps v ∷ []) (map (cut caps) (take n vs));
    counted = omega (arith, k.counted);
    longs = rw k.longs (ground arith);
  }

  -- The loop ends, keeps a front part, and stays within the budgets.
  pub record Done (p : Progress) (vs : List Variable) : Type 0 where
    pub last : Progress
    pub size : ℕ
    pub ends : cap_loop caps p vs ≡ some last
    pub part : size ≤ length vs
    pub keeps : Kept caps p vs last size
    pub within : Within caps p → Within caps last

  cap_loop-Done : (p : Progress) (vs : List Variable) → All HasValue vs → Done p vs
  unfolding cap_loop
  cap_loop-Done p [] h = record {
    last = p;
    size = 0;
    ends = refl;
    part = omega arith;
    keeps = record { front = sym (append-nil p.kept); counted = refl; longs = omega arith };
    within = λ w. w;
  }
  cap_loop-Done p (v ∷ vs) (has, h) = elim (Bool-cases (is_full caps p)) [
    | inl full ↦ record {
      last = skipped p (length (v ∷ vs));
      size = 0;
      ends = cap_loop-full p (v ∷ vs) full;
      part = omega arith;
      keeps = record {
        front = sym (append-nil p.kept);
        counted = omega arith;
        longs = omega arith;
      };
      within = λ w. record { few = w.few; total = w.total; small = w.small };
    }
    | inr room ↦
        let d = cap_loop-Done (added p v) vs h in
        record {
          last = d.last;
          size = suc d.size;
          ends = rw (cap_step-added p v room has, cap_loop) d.ends;
          part = omega (arith, d.part);
          keeps = added-Kept p d.last v vs d.size d.keeps;
          within = λ w. d.within (added-Within p v room w);
        }
  ]

-- A capped response against the caps and the list that it was made from: it is a front part with each
-- value cut, within the count and the budget (which the last value may pass by one value's cap).
-- A summary counts what was left out and what was cut; without one the list is as it was.
pub record IsCapped (caps : Caps) (vars : List Variable) (r : CappedVariables) : Type 0 where
  pub front : r.variables ≡ map (cut caps) (take (length r.variables) vars)
  pub few : length r.variables ≤ caps.count_cap
  pub small : chars r.variables ≤ caps.total_cap + caps.value_cap
  pub silent : r.truncation ≡ none → r.variables ≡ vars
  pub counts :
      (s : VariableTruncationSummary)
      → r.truncation ≡ some s
      → (s.omitted_count + length r.variables ≡ length vars)
        × (s.value_truncated_count ≡ count_long caps (take (length r.variables) vars))

map-cut_short : (caps : Caps) (vs : List Variable) → count_long caps vs ≡ 0 → map (cut caps) vs ≡ vs
unfolding cut
map-cut_short caps [] h = refl
map-cut_short caps (v ∷ vs) h = ground (arith, map-cut_short caps vs)

module _ (caps : Caps) (vars : List Variable) (d : Done caps no_progress vars) where
  open d use {last, size}

  length-kept : length last.kept ≡ size
  length-kept =
      rw d.keeps.front (
        omega (arith, length-map {0, 0} (cut caps) (take size vars), length-take size vars, d.part))

  kept_front : last.kept ≡ map (cut caps) (take (length last.kept) vars)
  kept_front = rw length-kept d.keeps.front

  kept_all : last.omitted_count ≡ 0 → last.value_truncated_count ≡ 0 → last.kept ≡ vars
  kept_all none_out none_cut =
      let whole : take size vars ≡ vars = take_all size vars (omega (arith, d.keeps.counted)) in
      d.keeps.front ∙ map-cut_short caps (take size vars) (omega (arith, d.keeps.longs)) ∙ whole

  summarise-variables : (summarise last).variables ≡ last.kept
  unfolding summarise
  summarise-variables = ground arith

  summarise-IsCapped : IsCapped caps vars (summarise last)
  unfolding summarise
  summarise-IsCapped =
      let w = d.within (ground arith) in
      record {
        front = rw summarise-variables kept_front;
        few = rw summarise-variables w.few;
        small = rw summarise-variables (omega (arith, w.small, w.total));
        silent = λ e. rw summarise-variables (ground (arith, kept_all));
        counts = λ s e.
            rw (summarise-variables, length-kept) (ground (arith, d.keeps.counted, d.keeps.longs));
      }

-- If every variable has a value, the caps never throw, and what they return is a capped response.
pub apply_variable_caps-IsCapped :
    (env : Env) (vars : List Variable)
    → All HasValue vars
    → (r : CappedVariables) × (apply_variable_caps env vars ≡ some r)
      × IsCapped (caps_of env) vars r
unfolding apply_variable_caps
apply_variable_caps-IsCapped env vars h =
    let d = cap_loop-Done (caps_of env) no_progress vars h in
    (summarise d.last, rw (d.ends, apply_variable_caps), summarise-IsCapped (caps_of env) vars d)

env_int_pos : (raw : Option (List ℕ)) (fallback : ℕ) → 0 < fallback → 0 < env_int raw fallback
unfolding env_int
env_int_pos none fallback h = h
env_int_pos (some []) fallback h = h
env_int_pos (some (c ∷ raw)) fallback h =
    elim (parse_int (c ∷ raw)) as (λ r. 0 < positive_or fallback r) [
      | finite (pos zero) ↦ h
      | finite (pos (suc n)) ↦ omega arith
      | finite (negsuc n) ↦ h
      | nan ↦ h
      | infinite ↦ h
    ]

-- The fallback for a missing value does not protect the loop: whatever the settings, a list whose
-- first variable has no value makes the function throw.
pub apply_variable_caps-throws :
    (env : Env) (v : Variable) (vars : List Variable)
    → v.value ≡ none
    → apply_variable_caps env (v ∷ vars) ≡ none
unfolding apply_variable_caps cap_loop cap_step cut
apply_variable_caps-throws env v vars missing = ground (
  arith,
  env_int_pos env.max_variables default_max_variables_per_call,
  env_int_pos env.max_variables_total_chars default_max_variables_total_chars,
)
