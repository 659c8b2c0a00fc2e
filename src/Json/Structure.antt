-- ===== src/Json/Structure.antt =====
-- The scan of a message accepts exactly the safe texts.
use moshu.Common.{
  ℕ, zero, suc, ◌+◌, ◌-◌, ◌≤◌, ◌≡◌, refl, sym, ap, ◌∙◌, ◌↔◌, Bool, true, false, ◌&&◌, ◌||◌, ltb,
  ◌==◌, if◌then◌else◌, List, [], ◌∷◌, arith,
}
use moshu.Common.Text.{Text}
use moshu.Json.{
  Scan, scan_step, scan, has_safe_rpc_json_structure, max_rpc_json_depth, max_rpc_json_containers,
  max_rpc_json_values,
}
use moshu.Json.Symbols.{
  Symbol, opening, closing, comma, Place, outside, inside, after_backslash, move, symbol, symbols,
  last_place, count_opening, count_comma, IsNested, IsSafe,
}

abbrev is_outside : Place → Bool
is_outside outside = true
is_outside _ = false

abbrev scan_at : Place → ℕ → ℕ → ℕ → Scan
scan_at outside d c v = record {
  depth = d;
  containers = c;
  values = v;
  in_string = false;
  escaped = false;
}
scan_at inside d c v = record {
  depth = d;
  containers = c;
  values = v;
  in_string = true;
  escaped = false;
}
scan_at after_backslash d c v = record {
  depth = d;
  containers = c;
  values = v;
  in_string = true;
  escaped = true;
}

-- The checks of the scan on the symbols alone.
check : ℕ → ℕ → ℕ → Bool → List Symbol → Bool
check d c v complete [] = d == 0 && complete
check d c v complete (opening ∷ s) =
    let rest = check (d + 1) (c + 1) v complete s in
    if ltb max_rpc_json_depth (d + 1) || ltb max_rpc_json_containers (c + 1) then false else rest
check d c v complete (closing ∷ s) =
    let rest = check (d - 1) c v complete s in if d == 0 then false else rest
check d c v complete (comma ∷ s) =
    let rest = check d c (v + 1) complete s in
    if ltb max_rpc_json_values (v + 1) then false else rest

scan-eq-check :
    (p : Place) (d c v : ℕ) (text : Text)
    → scan (scan_at p d c v) text ≡ check d c v (is_outside (last_place p text)) (symbols p text)
unfolding scan symbols last_place check move symbol scan_step
scan-eq-check outside d c v [] = ground arith
scan-eq-check inside d c v [] = ground arith
scan-eq-check after_backslash d c v [] = ground arith
scan-eq-check inside d c v (x ∷ text) = ground (
  arith,
  scan-eq-check after_backslash d c v text,
  scan-eq-check outside d c v text,
  scan-eq-check inside d c v text,
)
scan-eq-check after_backslash d c v (x ∷ text) = scan-eq-check inside d c v text
scan-eq-check outside d c v (x ∷ text) = ground (
  arith,
  scan-eq-check inside d c v text,
  scan-eq-check outside d c v text,
  scan-eq-check outside (d + 1) (c + 1) v text,
  scan-eq-check outside (d - 1) c v text,
  scan-eq-check outside d c (v + 1) text,
)

-- What the checks ask of the symbols that are left.
record Fits (d c v : ℕ) (complete : Bool) (s : List Symbol) : Type 0 where
  nested : IsNested d s
  few_containers : c + count_opening s ≤ max_rpc_json_containers
  few_values : v + count_comma s ≤ max_rpc_json_values
  is_complete : complete ≡ true

check-Fits :
    (d c v : ℕ) (complete : Bool) (s : List Symbol)
    → check d c v complete s ≡ true
    → d ≤ max_rpc_json_depth
    → c ≤ max_rpc_json_containers
    → v ≤ max_rpc_json_values
    → Fits d c v complete s
unfolding check
check-Fits d c v b [] h i j k =
    let empty : d ≡ 0 = ground arith in
    record {
      nested = record {
        closes = elim [ zero ↦ omega arith | suc n ↦ omega arith ];
        shallow = elim [ zero ↦ omega arith | suc n ↦ omega arith ];
        balanced = omega arith;
      };
      few_containers = omega arith;
      few_values = omega arith;
      is_complete = ground arith;
    }
check-Fits d c v b (opening ∷ s) h i j k =
    let deep : d + 1 ≤ max_rpc_json_depth = ground arith in
    let many : c + 1 ≤ max_rpc_json_containers = ground arith in
    let r = check-Fits (d + 1) (c + 1) v b s (ground arith) deep many k in
    record {
      nested = record {
        closes = elim [ zero ↦ omega arith | suc n ↦ omega (arith, r.nested.closes n) ];
        shallow = elim [ zero ↦ omega arith | suc n ↦ omega (arith, r.nested.shallow n) ];
        balanced = omega (arith, r.nested.balanced);
      };
      few_containers = omega (arith, r.few_containers);
      few_values = r.few_values;
      is_complete = r.is_complete;
    }
check-Fits d c v b (closing ∷ s) h i j k =
    let open_one : 1 ≤ d = ground arith in
    let r = check-Fits (d - 1) c v b s (ground arith) (omega arith) j k in
    record {
      nested = record {
        closes = elim [ zero ↦ omega arith | suc n ↦ omega (arith, open_one, r.nested.closes n) ];
        shallow = elim [ zero ↦ omega arith | suc n ↦ omega (arith, open_one, r.nested.shallow n) ];
        balanced = omega (arith, open_one, r.nested.balanced);
      };
      few_containers = r.few_containers;
      few_values = r.few_values;
      is_complete = r.is_complete;
    }
check-Fits d c v b (comma ∷ s) h i j k =
    let few : v + 1 ≤ max_rpc_json_values = ground arith in
    let r = check-Fits d c (v + 1) b s (ground arith) i j few in
    record {
      nested = record {
        closes = elim [ zero ↦ omega arith | suc n ↦ r.nested.closes n ];
        shallow = elim [ zero ↦ omega arith | suc n ↦ r.nested.shallow n ];
        balanced = r.nested.balanced;
      };
      few_containers = r.few_containers;
      few_values = omega (arith, r.few_values);
      is_complete = r.is_complete;
    }

Fits-check :
    (d c v : ℕ) (complete : Bool) (s : List Symbol)
    → Fits d c v complete s
    → check d c v complete s ≡ true
unfolding check
Fits-check d c v b [] f = ground (arith, f.nested.balanced, f.is_complete)
Fits-check d c v b (opening ∷ s) f =
    let r = Fits-check (d + 1) (c + 1) v b s record {
      nested = record {
        closes = λ n. omega (arith, f.nested.closes (suc n));
        shallow = λ n. omega (arith, f.nested.shallow (suc n));
        balanced = omega (arith, f.nested.balanced);
      };
      few_containers = omega (arith, f.few_containers);
      few_values = f.few_values;
      is_complete = f.is_complete;
    } in
    ground (arith, r, f.nested.shallow 1, f.few_containers)
Fits-check d c v b (closing ∷ s) f =
    let r = Fits-check (d - 1) c v b s record {
      nested = record {
        closes = λ n. omega (arith, f.nested.closes 1, f.nested.closes (suc n));
        shallow = λ n. omega (arith, f.nested.closes 1, f.nested.shallow (suc n));
        balanced = omega (arith, f.nested.closes 1, f.nested.balanced);
      };
      few_containers = f.few_containers;
      few_values = f.few_values;
      is_complete = f.is_complete;
    } in
    ground (arith, r, f.nested.closes 1)
Fits-check d c v b (comma ∷ s) f =
    let r = Fits-check d c (v + 1) b s record {
      nested = record {
        closes = λ n. f.nested.closes (suc n);
        shallow = λ n. f.nested.shallow (suc n);
        balanced = f.nested.balanced;
      };
      few_containers = f.few_containers;
      few_values = omega (arith, f.few_values);
      is_complete = f.is_complete;
    } in
    ground (arith, r, f.few_values)

is_outside-outside : (p : Place) → is_outside p ≡ true → p ≡ outside
is_outside-outside outside h = refl
is_outside-outside inside h = cc
is_outside-outside after_backslash h = cc

-- `hasSafeRpcJsonStructure` accepts a text exactly if, of the brackets and commas that stand outside
-- of its strings, no closing bracket comes without an open one, at most 64 are open at each point,
-- none is open at the end, at most 4,096 open and at most 99,999 are commas, and no string is left
-- open.
pub has_safe_rpc_json_structure_lem :
    (text : Text) → (has_safe_rpc_json_structure text ≡ true) ↔ IsSafe text
unfolding has_safe_rpc_json_structure
has_safe_rpc_json_structure_lem text =
    let same = scan-eq-check outside 0 0 1 text in
    (
      (λ h.
          let f =
            check-Fits 0 0 1 (is_outside (last_place outside text)) (symbols outside text)
              (sym same ∙ h) (omega arith) (omega arith) (omega arith) in
          record {
            nested = f.nested;
            few_containers = omega (arith, f.few_containers);
            few_values = f.few_values;
            complete = is_outside-outside (last_place outside text) f.is_complete;
          }),
      (λ safe.
          same
          ∙ Fits-check 0 0 1 (is_outside (last_place outside text)) (symbols outside text) record {
            nested = safe.nested;
            few_containers = omega (arith, safe.few_containers);
            few_values = safe.few_values;
            is_complete = ap is_outside safe.complete;
          }),
    )
