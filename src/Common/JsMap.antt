-- ===== src/Common/JsMap.antt =====
-- A JavaScript `Map` whose keys are identifiers, in insertion order. `set` on a key that is there
-- keeps its place; a new key goes to the end.
use Prim.Native.Nat.{ℕ, suc}
use mathlib.Core.Path.{◌≡◌, refl, ap}
use mathlib.Core.Logic.{inl, inr}
use mathlib.Core.Bool.{Bool, true, false}
use mathlib.Core.Option.{Option, none, some, some-injective}
use mathlib.Core.List.{List, [], ◌∷◌, map}
use native.Mathlib.Omega.{arith}
use moshu.Common.Tests.{◌==◌, if◌then◌else◌, is_some, Bool-cases}

abbrev pub JsMap {ℓ} : Type ℓ → Type ℓ
JsMap V = List (ℕ × V)

module _ {ℓ} {V : Type ℓ} where
  unfoldable pub get : ℕ → JsMap V → Option V
  get k [] = none
  get k ((j, v) ∷ m) = if j == k then some v else get k m

  abbrev pub has : ℕ → JsMap V → Bool
  has k m = is_some (get k m)

  unfoldable pub set : ℕ → V → JsMap V → JsMap V
  set k v [] = (k, v) ∷ []
  set k v ((j, w) ∷ m) = if j == k then (j, v) ∷ m else (j, w) ∷ set k v m

  unfoldable pub delete : ℕ → JsMap V → JsMap V
  delete k [] = []
  delete k ((j, w) ∷ m) = let rest = delete k m in if j == k then rest else (j, w) ∷ rest

  unfoldable pub size : JsMap V → ℕ
  size [] = 0
  size (_ ∷ m) = suc (size m)

  unfoldable pub values : JsMap V → List V
  values [] = []
  values ((_, v) ∷ m) = v ∷ values m

  -- The first value that passes, in the order of iteration.
  unfoldable pub find : (V → Bool) → JsMap V → Option V
  find p [] = none
  find p ((_, v) ∷ m) = if p v then some v else find p m

  -- A loop that deletes the entries that fail the test.
  unfoldable pub keep : (V → Bool) → JsMap V → JsMap V
  keep p [] = []
  keep p ((j, v) ∷ m) = let rest = keep p m in if p v then (j, v) ∷ rest else rest

  -- A loop that assigns to every value.
  unfoldable pub map_values : (V → V) → JsMap V → JsMap V
  map_values f [] = []
  map_values f ((j, v) ∷ m) = (j, f v) ∷ map_values f m

  -- A loop that inserts each value of a list under its key.
  unfoldable pub set_all : (V → ℕ) → List V → JsMap V → JsMap V
  set_all key [] m = m
  set_all key (v ∷ vs) m = set_all key vs (set (key v) v m)

  -- No key stands twice, as in every `Map`.
  abbrev pub NodupKeys : JsMap V → Type ℓ
  NodupKeys [] = Unit
  NodupKeys ((k, _) ∷ m) = (get k m ≡ none) × NodupKeys m

  true-ne-false : (p : V → Bool) {w v : V} → w ≡ v → p v ≡ true → p w ≡ false → ⊥
  true-ne-false p e t f = cc (ap p e)

  pub get-nil : (k : ℕ) → get k [] ≡ none
  unfolding get
  get-nil k = refl

  pub get-set :
      (j k : ℕ) (v : V) (m : JsMap V) → get j (set k v m) ≡ (if k == j then some v else get j m)
  unfolding get set
  get-set j k v [] = refl
  get-set j k v ((i, w) ∷ m) = ground (arith, get-set j k v m)

  pub get-delete : (j k : ℕ) (m : JsMap V) → get j (delete k m) ≡ (if k == j then none else get j m)
  unfolding get delete
  get-delete j k [] = ground arith
  get-delete j k ((i, w) ∷ m) = ground (arith, get-delete j k m)

  pub get-map_values :
      (f : V → V) (j : ℕ) (m : JsMap V)
      → get j (map_values f m) ≡ elim (get j m) [ none ↦ none | some v ↦ some (f v) ]
  unfolding get map_values
  get-map_values f j [] = refl
  get-map_values f j ((i, w) ∷ m) = ground (arith, get-map_values f j m)

  pub get-keep-none :
      (p : V → Bool) (j : ℕ) (m : JsMap V) → get j m ≡ none → get j (keep p m) ≡ none
  unfolding get keep
  get-keep-none p j [] h = refl
  get-keep-none p j ((i, w) ∷ m) h = ground (arith, get-keep-none p j m)

  pub get-keep :
      (p : V → Bool) (j : ℕ) (m : JsMap V)
      → NodupKeys m
      → get j (keep p m) ≡ elim (get j m) [ none ↦ none | some v ↦ if p v then some v else none ]
  unfolding get keep
  get-keep p j [] u = refl
  get-keep p j ((i, w) ∷ m) u =
      ground (arith, get-keep p j m u.1, get-keep-none p j m, get-keep-none p i m)

  get-tail :
      (p : V → Bool) (k : ℕ) (v : V) (i : ℕ) (w : V) (m : JsMap V)
      → get k ((i, w) ∷ m) ≡ some v
      → p v ≡ true
      → p w ≡ false
      → get k m ≡ some v
  unfolding get
  get-tail p k v i w m h t e = elim (Bool-cases (i == k)) [
    | inl same ↦ absurd (true-ne-false p (some-injective w v (rw same at h)) t e)
    | inr other ↦ rw other at h
  ]

  pub find-get :
      (p : V → Bool) (k : ℕ) (v : V) (m : JsMap V)
      → get k m ≡ some v
      → p v ≡ true
      → (w : V) × (find p m ≡ some w) × (p w ≡ true)
  unfolding get find
  find-get p k v [] h t = ground arith
  find-get p k v ((i, w) ∷ m) h t = elim (Bool-cases (p w)) [
    | inl e ↦ (w, rw e, e)
    | inr e ↦ rw e (find-get p k v m (get-tail p k v i w m h t e) t)
  ]

  pub set-NodupKeys : (k : ℕ) (v : V) (m : JsMap V) → NodupKeys m → NodupKeys (set k v m)
  unfolding set
  set-NodupKeys k v [] u = (get-nil k, tt)
  set-NodupKeys k v ((i, w) ∷ m) u = ground (arith, set-NodupKeys k v m u.1, get-set i k v m)

  pub delete-NodupKeys : (k : ℕ) (m : JsMap V) → NodupKeys m → NodupKeys (delete k m)
  unfolding delete
  delete-NodupKeys k [] u = tt
  delete-NodupKeys k ((i, w) ∷ m) u = ground (arith, delete-NodupKeys k m u.1, get-delete i k m)

  pub keep-NodupKeys : (p : V → Bool) (m : JsMap V) → NodupKeys m → NodupKeys (keep p m)
  unfolding keep
  keep-NodupKeys p [] u = tt
  keep-NodupKeys p ((i, w) ∷ m) u = ground (arith, keep-NodupKeys p m u.1, get-keep-none p i m)

  pub map_values-NodupKeys : (f : V → V) (m : JsMap V) → NodupKeys m → NodupKeys (map_values f m)
  unfolding map_values
  map_values-NodupKeys f [] u = tt
  map_values-NodupKeys f ((i, w) ∷ m) u =
      ground (arith, map_values-NodupKeys f m u.1, get-map_values f i m)

  pub set_all-NodupKeys :
      (key : V → ℕ) (vs : List V) (m : JsMap V) → NodupKeys m → NodupKeys (set_all key vs m)
  unfolding set_all
  set_all-NodupKeys key [] m u = u
  set_all-NodupKeys key (v ∷ vs) m u =
      set_all-NodupKeys key vs (set (key v) v m) (set-NodupKeys (key v) v m u)

  pub values-map_values : (f : V → V) (m : JsMap V) → values (map_values f m) ≡ map f (values m)
  unfolding values map_values
  values-map_values f [] = refl
  values-map_values f ((i, w) ∷ m) = ap (λ (l : List V). f w ∷ l) (values-map_values f m)
