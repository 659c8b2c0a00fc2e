-- ===== src/EventRouter/Tables.antt =====
-- Maps of maps: what a reader sees after a write, and how many entries there are.
use moshu.Common.{
  ℕ, suc, ◌+◌, ◌<◌, ◌≤◌, ◌≡◌, refl, sym, subst, inl, inr, true, ◌==◌, if◌then◌else◌, Option, none,
  some, [], ◌∷◌, Bool-cases, Option-cases, arith,
}
use moshu.Common.JsMap.{
  JsMap, get, has, set, delete, size, NodupKeys, get-set, get-delete, get-nil, set-NodupKeys,
  delete-NodupKeys,
}
use moshu.Common.Entries.{AllEntries, AllEntries-get, AllEntries-set, AllEntries-delete}
use moshu.EventRouter.{Table, inner, put_back}

module _ {V : Type 0} where
  abbrev pub at : ℕ → ℕ → Table V → Option V
  at i k t = get k (inner i t)

  pub get-empty : (m : JsMap V) (k : ℕ) → size m ≡ 0 → get k m ≡ none
  unfolding get size
  get-empty [] k h = refl
  get-empty ((i, v) ∷ m) k h = absurd (omega arith)

  pub size-pos : (m : JsMap V) (k : ℕ) → has k m ≡ true → 0 < size m
  unfolding get size
  size-pos [] k h = cc
  size-pos ((i, v) ∷ m) k h = omega arith

  pub size-set :
      (k : ℕ) (v : V) (m : JsMap V) → size (set k v m) ≡ (if has k m then size m else suc (size m))
  unfolding get set size
  size-set k v [] = refl
  size-set k v ((i, w) ∷ m) = ground (arith, size-set k v m)

  pub size-delete-le : (k : ℕ) (m : JsMap V) → size (delete k m) ≤ size m
  unfolding delete size
  size-delete-le k [] = omega arith
  size-delete-le k ((i, w) ∷ m) = ground (arith, size-delete-le k m)

  delete-none : (k : ℕ) (m : JsMap V) → get k m ≡ none → size (delete k m) ≡ size m
  unfolding get delete size
  delete-none k [] h = refl
  delete-none k ((i, w) ∷ m) h = ground (arith, delete-none k m)

  pub size-delete :
      (k : ℕ) (m : JsMap V) → NodupKeys m → has k m ≡ true → size (delete k m) + 1 ≡ size m
  unfolding get delete size
  size-delete k [] u h = cc
  size-delete k ((i, w) ∷ m) u h = elim (Bool-cases (i == k)) [
    | inl same ↦ ground (arith, delete-none k m, u.0)
    | inr other ↦ ground (arith, size-delete k m u.1)
  ]

  pub inner-none : (i : ℕ) (t : Table V) → get i t ≡ none → inner i t ≡ []
  unfolding inner
  inner-none i t e = rw (e, inner) refl

  pub inner-some : (i : ℕ) (t : Table V) (m : JsMap V) → get i t ≡ some m → inner i t ≡ m
  unfolding inner
  inner-some i t m e = rw (e, inner) refl

  pub inner-set :
      (i j : ℕ) (m : JsMap V) (t : Table V)
      → inner j (set i m t) ≡ (if i == j then m else inner j t)
  unfolding inner
  inner-set i j m t = ground (arith, get-set j i m t)

  pub inner-delete :
      (i j : ℕ) (t : Table V) → inner j (delete i t) ≡ (if i == j then [] else inner j t)
  unfolding inner
  inner-delete i j t = ground (arith, get-delete j i t)

  pub at-put_back :
      (i j k : ℕ) (m : JsMap V) (t : Table V)
      → at j k (put_back i m t) ≡ (if i == j then get k m else at j k t)
  unfolding put_back get
  at-put_back i j k m t =
      ground (arith, inner-set i j m t, inner-delete i j t, get-empty m k, get-nil {V = V} k)

  pub size-inner-put_back :
      (i j : ℕ) (m : JsMap V) (t : Table V)
      → size (inner j (put_back i m t)) ≡ (if i == j then size m else size (inner j t))
  unfolding put_back size
  size-inner-put_back i j m t = ground (arith, inner-set i j m t, inner-delete i j t)

  -- No key stands twice, and no inner map is empty.
  abbrev IsInner : ℕ → JsMap V → Type 0
  IsInner _ m = NodupKeys m × (0 < size m)

  pub record IsTable (t : Table V) : Type 0 where
    pub keys : NodupKeys t
    pub inners : AllEntries IsInner t

  pub inner-NodupKeys : (i : ℕ) (t : Table V) → IsTable t → NodupKeys (inner i t)
  inner-NodupKeys i t h = elim (Option-cases (get i t)) [
    | inl e ↦ subst NodupKeys (sym (inner-none i t e)) tt
    | inr (m, e) ↦
        subst NodupKeys (sym (inner-some i t m e)) ((AllEntries-get IsInner i m t h.inners e).0)
  ]

  pub set-IsTable :
      (i : ℕ) (m : JsMap V) (t : Table V)
      → IsTable t
      → NodupKeys m
      → 0 < size m
      → IsTable (set i m t)
  set-IsTable i m t h u p = record {
    keys = set-NodupKeys i m t h.keys;
    inners = AllEntries-set IsInner i m t h.inners (u, p);
  }

  pub delete-IsTable : (i : ℕ) (t : Table V) → IsTable t → IsTable (delete i t)
  delete-IsTable i t h = record {
    keys = delete-NodupKeys i t h.keys;
    inners = AllEntries-delete IsInner i t h.inners;
  }

  pub put_back-IsTable :
      (i : ℕ) (m : JsMap V) (t : Table V) → IsTable t → NodupKeys m → IsTable (put_back i m t)
  unfolding put_back
  put_back-IsTable i m t h u = elim (Bool-cases (size m == 0)) [
    | inl e ↦ rw e (delete-IsTable i t h)
    | inr e ↦ rw e (set-IsTable i m t h u (ground arith))
  ]

  unfoldable pub total_size : Table V → ℕ
  total_size [] = 0
  total_size ((_, m) ∷ t) = size m + total_size t

  pub total_size-set :
      (i : ℕ) (m : JsMap V) (t : Table V)
      → total_size (set i m t) + size (inner i t) ≡ total_size t + size m
  unfolding total_size set inner get size
  total_size-set i m [] = omega arith
  total_size-set i m ((j, w) ∷ t) = ground (arith, total_size-set i m t)

  total_size-none : (i : ℕ) (t : Table V) → get i t ≡ none → total_size (delete i t) ≡ total_size t
  unfolding total_size delete get
  total_size-none i [] h = refl
  total_size-none i ((j, w) ∷ t) h = ground (arith, total_size-none i t)

  pub total_size-delete :
      (i : ℕ) (t : Table V)
      → NodupKeys t
      → total_size (delete i t) + size (inner i t) ≡ total_size t
  unfolding total_size delete inner get size
  total_size-delete i [] u = omega arith
  total_size-delete i ((j, w) ∷ t) u = elim (Bool-cases (j == i)) [
    | inl same ↦ ground (arith, total_size-none i t, u.0)
    | inr other ↦ ground (arith, total_size-delete i t u.1)
  ]

  pub total_size-put_back :
      (i : ℕ) (m : JsMap V) (t : Table V)
      → NodupKeys t
      → total_size (put_back i m t) + size (inner i t) ≡ total_size t + size m
  unfolding put_back
  total_size-put_back i m t u = ground (arith, total_size-set i m t, total_size-delete i t u)
