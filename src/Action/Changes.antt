-- ===== src/Action/Changes.antt =====
-- What one method may do to the actions: nothing, one new action, a change of one, or one of each.
use moshu.Common.{
  ℕ, ◌≡◌, refl, ◌∙◌, inl, inr, Bool, true, ◌==◌, Option, none, some, is_some, Option-cases,
  Bool-cases, [], ◌∷◌, arith,
}
use moshu.Common.JsMap.{
  JsMap, get, set, find, map_values, NodupKeys, get-set, get-map_values, set-NodupKeys,
  map_values-NodupKeys,
}
use moshu.Common.Entries.{
  AllEntries, AllEntries-get, AllEntries-set, AllEntries-map_values, IsKeyed, ==_iff,
}
use moshu.Action.Types.{ActionRow}
use moshu.Action.{is_terminal}
use moshu.Action.Evidence.{is_over}

-- An action is acknowledged only when its call is over, and a receipt is confirmed only then.
abbrev pub IsOrdered : ActionRow → Type 0
IsOrdered a =
    (is_some a.server_acked_at_ms ≡ true → is_over a.state ≡ true)
    × (is_some a.box_receipt_confirmed_at_ms ≡ true → is_some a.server_acked_at_ms ≡ true)

-- What stays of an action: its name, an end, the hash of its result with the end, and marks.
abbrev pub Follows : ActionRow → ActionRow → Type 0
Follows a b =
    (b.invocation_id ≡ a.invocation_id)
    × (b.id ≡ a.id)
    × (is_terminal a.state ≡ true → b.state ≡ a.state)
    × ((h : ℕ) → is_terminal a.state ≡ true → a.result_hash ≡ some h → b.result_hash ≡ some h)
    × (is_over a.state ≡ true → is_over b.state ≡ true)
    × (is_some a.server_acked_at_ms ≡ true → is_some b.server_acked_at_ms ≡ true)
    × (is_some a.box_receipt_confirmed_at_ms ≡ true → is_some b.box_receipt_confirmed_at_ms ≡ true)

abbrev pub IsValid : JsMap ActionRow → Type 0
IsValid m =
    NodupKeys m × IsKeyed (λ (a : ActionRow). a.invocation_id) m × AllEntries (λ k a. IsOrdered a) m

pub data Change (m m' : JsMap ActionRow) : Type 0 where
  unchanged : m' ≡ m → Change m m'
  created :
      (k : ℕ) (a : ActionRow)
      → get k m ≡ none
      → a.invocation_id ≡ k
      → IsOrdered a
      → m' ≡ set k a m
      → Change m m'
  updated :
      (k : ℕ) (a b : ActionRow)
      → get k m ≡ some a
      → Follows a b
      → (IsOrdered a → IsOrdered b)
      → m' ≡ set k b m
      → Change m m'
  mapped :
      (f : ActionRow → ActionRow)
      → ((a : ActionRow) → Follows a (f a))
      → ((a : ActionRow) → IsOrdered a → IsOrdered (f a))
      → m' ≡ map_values f m
      → Change m m'

pub row-key :
    (m : JsMap ActionRow) (k : ℕ) (a : ActionRow)
    → IsValid m
    → get k m ≡ some a
    → a.invocation_id ≡ k
row-key m k a v e = AllEntries-get (λ (j : ℕ) (r : ActionRow). r.invocation_id ≡ j) k a m v.1 e

pub row-IsOrdered :
    (m : JsMap ActionRow) (k : ℕ) (a : ActionRow) → IsValid m → get k m ≡ some a → IsOrdered a
row-IsOrdered m k a v e = AllEntries-get (λ (j : ℕ) (r : ActionRow). IsOrdered r) k a m v.2 e

set-IsValid :
    (k : ℕ) (a : ActionRow) (m : JsMap ActionRow)
    → IsValid m
    → a.invocation_id ≡ k
    → IsOrdered a
    → IsValid (set k a m)
set-IsValid k a m v key ordered = (
  set-NodupKeys k a m v.0,
  AllEntries-set (λ (j : ℕ) (r : ActionRow). r.invocation_id ≡ j) k a m v.1 key,
  AllEntries-set (λ (j : ℕ) (r : ActionRow). IsOrdered r) k a m v.2 ordered,
)

pub Change-IsValid : (m m' : JsMap ActionRow) → IsValid m → Change m m' → IsValid m'
Change-IsValid m m' v (unchanged e) = rw e v
Change-IsValid m m' v (created k a _ key ordered e) = rw e (set-IsValid k a m v key ordered)
Change-IsValid m m' v (updated k a b here follows ordered e) =
    rw e (
      set-IsValid k b m v (follows.0 ∙ row-key m k a v here) (ordered (row-IsOrdered m k a v here)))
Change-IsValid m m' v (mapped f follows ordered e) = rw e (
  map_values-NodupKeys f m v.0,
  AllEntries-map_values (λ (j : ℕ) (r : ActionRow). r.invocation_id ≡ j) f m
      (λ k a h. (follows a).0 ∙ h) v.1,
  AllEntries-map_values (λ (j : ℕ) (r : ActionRow). IsOrdered r) f m (λ k a h. ordered a h) v.2,
)

abbrev pub Kept : Option ActionRow → Option ActionRow → Type 0
Kept none o = Unit
Kept (some a) none = ⊥
Kept (some a) (some b) = Follows a b

pub Follows-refl : (a : ActionRow) → Follows a a
Follows-refl a = (refl, refl, λ t. refl, λ h t e. e, λ t. t, λ t. t, λ t. t)

pub Kept-refl : (o : Option ActionRow) → Kept o o
Kept-refl none = tt
Kept-refl (some a) = Follows-refl a

terminal_kept :
    (a b : ActionRow)
    → (is_terminal a.state ≡ true → b.state ≡ a.state)
    → is_terminal a.state ≡ true
    → is_terminal b.state ≡ true
terminal_kept a b h t = rw (h t) t

Follows-trans : (a b c : ActionRow) → Follows a b → Follows b c → Follows a c
Follows-trans a b c (i, j, s, h, o, p, q) (i', j', s', h', o', p', q') = (
  i' ∙ i,
  j' ∙ j,
  λ t. s' (terminal_kept a b s t) ∙ s t,
  λ x t e. h' x (terminal_kept a b s t) (h x t e),
  λ t. o' (o t),
  λ t. p' (p t),
  λ t. q' (q t),
)

pub Kept-trans : (o o' o'' : Option ActionRow) → Kept o o' → Kept o' o'' → Kept o o''
Kept-trans none o' o'' h k = tt
Kept-trans (some a) none o'' h k = absurd h
Kept-trans (some a) (some b) none h k = absurd k
Kept-trans (some a) (some b) (some c) h k = Follows-trans a b c h k

set-Kept :
    (k j : ℕ) (o : Option ActionRow) (b : ActionRow) (m : JsMap ActionRow)
    → get j m ≡ o
    → Kept o (some b)
    → Kept (get k m) (get k (set j b m))
set-Kept k j o b m e h = elim (Bool-cases (j == k)) [
  | inl same ↦ rw (get-set k j b m, same, ← (==_iff j k).0 same, e) h
  | inr other ↦ rw (get-set k j b m, other) (Kept-refl (get k m))
]

pub Change-Kept : (m m' : JsMap ActionRow) (k : ℕ) → Change m m' → Kept (get k m) (get k m')
Change-Kept m m' k (unchanged e) = rw e (Kept-refl (get k m))
Change-Kept m m' k (created j a fresh _ _ e) = rw e (set-Kept k j none a m fresh tt)
Change-Kept m m' k (updated j a b here follows _ e) = rw e (set-Kept k j (some a) b m here follows)
Change-Kept m m' k (mapped f follows _ e) = elim (Option-cases (get k m)) [
  | inl n ↦ rw n tt
  | inr (a, n) ↦ rw (e, get-map_values f k m, n) (follows a)
]

-- A row that a search finds stands under its key.
pub find-get_key :
    (p : ActionRow → Bool) (m : JsMap ActionRow) (a : ActionRow)
    → NodupKeys m
    → IsKeyed (λ (a : ActionRow). a.invocation_id) m
    → find p m ≡ some a
    → (get a.invocation_id m ≡ some a) × (p a ≡ true)
unfolding find get
find-get_key p [] a u h e = cc
find-get_key p ((i, b) ∷ m) a u h e = elim (Bool-cases (p b)) [
  | inl t ↦ ground (arith, t, e, h)
  | inr f ↦
      let (g, t) = find-get_key p m a u.1 h.1 (rw f at e) in
      elim (Bool-cases (i == a.invocation_id)) [
        | inl same ↦ ground (arith, u, g, same)
        | inr other ↦ (rw other g, t)
      ]
]
