-- ===== src/Common/Entries.antt =====
-- A predicate on every entry of a `Map`, and the maps that a loop of `set` builds.
use mathlib.Core.Path.{◌≡◌, refl, subst, subst₂, sym, ◌∙◌}
use mathlib.Core.Logic.{inl, inr, ◌↔◌}
use mathlib.Core.Bool.{Bool, true}
use mathlib.Core.Option.{none, some, some-injective}
use mathlib.Core.List.{[], ◌∷◌}
use native.Mathlib.Omega.{arith}
use Prim.Native.Nat.{ℕ}
use moshu.Common.Tests.{◌==◌, Bool-cases, Option-cases}
use moshu.Common.JsMap.{
  JsMap, get, set, delete, values, keep, map_values, set_all, NodupKeys, get-set, get-nil,
}

pub ==_iff : (a b : ℕ) → ((a == b) ≡ true) ↔ (a ≡ b)
==_iff a b = ground arith

module _ {ℓ κ} {V : Type ℓ} (P : ℕ → V → Type κ) where
  abbrev pub AllEntries : JsMap V → Type κ
  AllEntries [] = Unit
  AllEntries ((k, v) ∷ m) = P k v × AllEntries m

  pub AllEntries-get : (k : ℕ) (v : V) (m : JsMap V) → AllEntries m → get k m ≡ some v → P k v
  unfolding get
  AllEntries-get k v [] h e = cc
  AllEntries-get k v ((i, w) ∷ m) h e = elim (Bool-cases (i == k)) [
    | inl same ↦ subst₂ P ((==_iff i k).0 same) (some-injective w v (rw same at e)) h.0
    | inr other ↦ AllEntries-get k v m h.1 (rw other at e)
  ]

  pub AllEntries-set : (k : ℕ) (v : V) (m : JsMap V) → AllEntries m → P k v → AllEntries (set k v m)
  unfolding set
  AllEntries-set k v [] h p = (p, tt)
  AllEntries-set k v ((i, w) ∷ m) h p = elim (Bool-cases (i == k)) [
    | inl same ↦ rw same (subst (λ n. P n v) (sym ((==_iff i k).0 same)) p, h.1)
    | inr other ↦ rw other (h.0, AllEntries-set k v m h.1 p)
  ]

  pub AllEntries-delete : (k : ℕ) (m : JsMap V) → AllEntries m → AllEntries (delete k m)
  unfolding delete
  AllEntries-delete k [] h = tt
  AllEntries-delete k ((i, w) ∷ m) h = elim (Bool-cases (i == k)) [
    | inl same ↦ rw same (AllEntries-delete k m h.1)
    | inr other ↦ rw other (h.0, AllEntries-delete k m h.1)
  ]

  pub AllEntries-keep : (p : V → Bool) (m : JsMap V) → AllEntries m → AllEntries (keep p m)
  unfolding keep
  AllEntries-keep p [] h = tt
  AllEntries-keep p ((i, w) ∷ m) h = elim (Bool-cases (p w)) [
    | inl kept ↦ rw kept (h.0, AllEntries-keep p m h.1)
    | inr gone ↦ rw gone (AllEntries-keep p m h.1)
  ]

  pub AllEntries-map_values :
      (f : V → V) (m : JsMap V)
      → ((k : ℕ) (v : V) → P k v → P k (f v))
      → AllEntries m
      → AllEntries (map_values f m)
  unfolding map_values
  AllEntries-map_values f [] step h = tt
  AllEntries-map_values f ((i, w) ∷ m) step h = (step i w h.0, AllEntries-map_values f m step h.1)

pub AllEntries-imp {ℓ κ κ'} :
    {V : Type ℓ} (P : ℕ → V → Type κ) (Q : ℕ → V → Type κ') (m : JsMap V)
    → ((k : ℕ) (v : V) → P k v → Q k v)
    → AllEntries P m
    → AllEntries Q m
AllEntries-imp P Q [] f h = tt
AllEntries-imp P Q ((k, v) ∷ m) f h = (f k v h.0, AllEntries-imp P Q m f h.1)

-- Each entry is what `get` finds.
pub entries-get {ℓ} :
    {V : Type ℓ} (m : JsMap V) → NodupKeys m → AllEntries (λ k v. get k m ≡ some v) m
unfolding get
entries-get [] u = tt
entries-get ((i, w) ∷ m) u = (
  ground arith,
  AllEntries-imp (λ k v. get k m ≡ some v) (λ k v. get k ((i, w) ∷ m) ≡ some v) m
      (λ k v h. elim (Bool-cases (i == k)) [
        | inl same ↦ absurd (ground (arith, u.0, h, same))
        | inr other ↦ rw other h
      ])
      (entries-get m u.1),
)

module _ {ℓ} {V : Type ℓ} (key : V → ℕ) where
  -- Every value stands under its own key.
  abbrev pub IsKeyed : JsMap V → Type 0
  IsKeyed = AllEntries (λ k v. key v ≡ k)

  pub get-set_all :
      (j : ℕ) (m acc : JsMap V)
      → NodupKeys m
      → IsKeyed m
      → get j (set_all key (values m) acc) ≡ elim (get j m) [ none ↦ get j acc | some v ↦ some v ]
  unfolding get set_all values
  get-set_all j [] acc u h = refl
  get-set_all j ((i, w) ∷ m) acc u h =
      ground (arith, get-set_all j m (set (key w) w acc) u.1 h.1, get-set j (key w) w acc)

  pub AllEntries-set_all {κ} :
      (P : ℕ → V → Type κ) (m acc : JsMap V)
      → IsKeyed m
      → AllEntries P m
      → AllEntries P acc
      → AllEntries P (set_all key (values m) acc)
  unfolding set_all values
  AllEntries-set_all P [] acc k h a = a
  AllEntries-set_all P ((i, w) ∷ m) acc k h a =
      AllEntries-set_all P m (set (key w) w acc) k.1 h.1
        (AllEntries-set P (key w) w acc a (subst (λ n. P n w) (sym k.0) h.0))

  pub get-set_all_nil :
      (j : ℕ) (m : JsMap V) → NodupKeys m → IsKeyed m → get j (set_all key (values m) []) ≡ get j m
  get-set_all_nil j m u h =
      get-set_all j m [] u h
      ∙ elim (Option-cases (get j m)) [ inl e ↦ rw e (get-nil j) | inr (v, e) ↦ rw e refl ]
