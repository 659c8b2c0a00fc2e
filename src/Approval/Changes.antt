-- ===== src/Approval/Changes.antt =====
-- What one committed call may do to the table of requests: nothing, one new request, the end of one
-- pending request, or the end of all pending requests that a query selects.
use moshu.Common.{
  ℕ, ◌+◌, ◌≡◌, refl, ◌∙◌, ◌⊎◌, inl, inr, Bool, true, false, ◌==◌, if◌then◌else◌, Option, none, some,
  Option-cases, Bool-cases, List, [], ◌∷◌, map, ap,
}
use moshu.Common.JsMap.{
  JsMap, get, set, keep, values, map_values, set_all, NodupKeys, get-set, get-keep, get-map_values,
  set-NodupKeys, set_all-NodupKeys, keep-NodupKeys, map_values-NodupKeys, values-map_values,
}
use moshu.Common.Entries.{
  AllEntries, AllEntries-set, AllEntries-keep, AllEntries-map_values, IsKeyed, get-set_all,
  AllEntries-set_all, ==_iff,
}
use moshu.Approval.Types.{ApprovalState, ApprovalRow, Db}
use moshu.Approval.{is_pending, write_terminal, terminal_row}
use moshu.Approval.Sessions.{end_all}

-- A row's evidence of a policy: only a risk that may be overridden has any.
abbrev pub IsCovered : ApprovalRow → Type 0
IsCovered r = (revision : ℕ) → r.policy_evidence ≡ some revision → r.risk.overridable ≡ true

abbrev pub IsValid : JsMap ApprovalRow → Type 0
IsValid m = NodupKeys m × IsKeyed (λ (r : ApprovalRow). r.id) m × AllEntries (λ k r. IsCovered r) m

-- The end of a pending request.
abbrev pub Ends : ApprovalRow → ApprovalRow → Type 0
Ends r r' =
    (is_pending r.state ≡ true)
    × (is_pending r'.state ≡ false)
    × (r'.revision ≡ r.revision + 1)
    × (r'.id ≡ r.id)
    × (r'.action_id ≡ r.action_id)
    × (r'.risk ≡ r.risk)
    × (r'.expires_at_ms ≡ r.expires_at_ms)

abbrev pub ending : ApprovalState → ℕ → ApprovalRow → ApprovalRow
ending state now r = terminal_row r state now none none none

-- The requests that a sweep leaves.
abbrev pub swept : ApprovalState → ℕ → (ApprovalRow → Bool) → JsMap ApprovalRow → JsMap ApprovalRow
swept state now p m =
    set_all (λ (r : ApprovalRow). r.id) (values (map_values (ending state now) (keep p m))) m

pub data Change (m m' : JsMap ApprovalRow) : Type 0 where
  unchanged : m' ≡ m → Change m m'
  created : (r : ApprovalRow) → get r.id m ≡ none → IsCovered r → m' ≡ set r.id r m → Change m m'
  ended :
      (r r' : ApprovalRow)
      → get r.id m ≡ some r
      → Ends r r'
      → IsCovered r'
      → m' ≡ set r.id r' m
      → Change m m'
  swept_all :
      (state : ApprovalState) (now : ℕ) (p : ApprovalRow → Bool)
      → is_pending state ≡ false
      → ((r : ApprovalRow) → p r ≡ true → is_pending r.state ≡ true)
      → m' ≡ swept state now p m
      → Change m m'

end_all_requests :
    (now : ℕ) (state : ApprovalState) (rows : List ApprovalRow) (db : Db)
    → (end_all now state rows db).requests
      ≡ set_all (λ (r : ApprovalRow). r.id) (map (ending state now) rows) db.requests
unfolding end_all write_terminal set_all
end_all_requests now state [] db = refl
end_all_requests now state (r ∷ rows) db =
    end_all_requests now state rows (write_terminal db r state now none none none).0

pub end_all-swept :
    (now : ℕ) (state : ApprovalState) (p : ApprovalRow → Bool) (db : Db)
    → (end_all now state (values (keep p db.requests)) db).requests ≡ swept state now p db.requests
end_all-swept now state p db =
    end_all_requests now state (values (keep p db.requests)) db
    ∙ ap (λ l. set_all (λ (r : ApprovalRow). r.id) l db.requests)
        (rw (values-map_values (ending state now) (keep p db.requests)) refl)

module _ (state : ApprovalState) (now : ℕ) (p : ApprovalRow → Bool) (m : JsMap ApprovalRow)
    (valid : IsValid m) where
  kept-IsKeyed : IsKeyed (λ (r : ApprovalRow). r.id) (map_values (ending state now) (keep p m))
  kept-IsKeyed =
      AllEntries-map_values (λ (k : ℕ) (r : ApprovalRow). r.id ≡ k) (ending state now) (keep p m)
        (λ k r h. h) (AllEntries-keep (λ (k : ℕ) (r : ApprovalRow). r.id ≡ k) p m valid.1)

  kept-NodupKeys : NodupKeys (map_values (ending state now) (keep p m))
  kept-NodupKeys = map_values-NodupKeys (ending state now) (keep p m) (keep-NodupKeys p m valid.0)

  -- A sweep ends each request that the query selects and leaves every other.
  pub get-swept :
      (k : ℕ)
      → get k (swept state now p m) ≡ elim (get k m) [
        | none ↦ none
        | some r ↦ if p r then some (ending state now r) else some r
      ]
  get-swept k =
      get-set_all (λ (r : ApprovalRow). r.id) k (map_values (ending state now) (keep p m)) m
        kept-NodupKeys kept-IsKeyed
      ∙ rw (get-map_values (ending state now) k (keep p m), get-keep p k m valid.0)
          (elim (Option-cases (get k m)) [
            | inl e ↦ rw e e
            | inr (r, e) ↦ elim (Bool-cases (p r)) [ inl t ↦ rw (e, t) refl | inr f ↦ rw (e, f) e ]
          ])

  pub swept-IsValid : IsValid (swept state now p m)
  swept-IsValid = (
    set_all-NodupKeys (λ (r : ApprovalRow). r.id)
        (values (map_values (ending state now) (keep p m))) m valid.0,
    AllEntries-set_all (λ (r : ApprovalRow). r.id) (λ (k : ℕ) (r : ApprovalRow). r.id ≡ k)
        (map_values (ending state now) (keep p m)) m kept-IsKeyed kept-IsKeyed valid.1,
    AllEntries-set_all (λ (r : ApprovalRow). r.id) (λ (k : ℕ) (r : ApprovalRow). IsCovered r)
        (map_values (ending state now) (keep p m)) m kept-IsKeyed
        (AllEntries-map_values (λ (k : ℕ) (r : ApprovalRow). IsCovered r) (ending state now)
          (keep p m) (λ k r h. h)
          (AllEntries-keep (λ (k : ℕ) (r : ApprovalRow). IsCovered r) p m valid.2))
        valid.2,
  )

set-IsValid :
    (k : ℕ) (r : ApprovalRow) (m : JsMap ApprovalRow)
    → IsValid m
    → r.id ≡ k
    → IsCovered r
    → IsValid (set k r m)
set-IsValid k r m valid key covered = (
  set-NodupKeys k r m valid.0,
  AllEntries-set (λ (j : ℕ) (v : ApprovalRow). v.id ≡ j) k r m valid.1 key,
  AllEntries-set (λ (j : ℕ) (v : ApprovalRow). IsCovered v) k r m valid.2 covered,
)

pub Change-IsValid : (m m' : JsMap ApprovalRow) → IsValid m → Change m m' → IsValid m'
Change-IsValid m m' v (unchanged e) = rw e v
Change-IsValid m m' v (created r _ covered e) = rw e (set-IsValid r.id r m v refl covered)
Change-IsValid m m' v (ended r r' _ (_, _, _, id, _, _, _) covered e) =
    rw e (set-IsValid r.id r' m v id covered)
Change-IsValid m m' v (swept_all state now p _ _ e) = rw e (swept-IsValid state now p m v)

-- What becomes of one request: it stays as it is, or it was pending and has ended.
abbrev pub Evolves : Option ApprovalRow → Option ApprovalRow → Type 0
Evolves none o = Unit
Evolves (some r) none = ⊥
Evolves (some r) (some r') = (r' ≡ r) ⊎ Ends r r'

pub Evolves-refl : (o : Option ApprovalRow) → Evolves o o
Evolves-refl none = tt
Evolves-refl (some r) = inl refl

Ends-once : (r r' r'' : ApprovalRow) → Ends r r' → Ends r' r'' → ⊥
Ends-once r r' r'' h k = cc

pub Evolves-trans : (o o' o'' : Option ApprovalRow) → Evolves o o' → Evolves o' o'' → Evolves o o''
Evolves-trans none o' o'' h k = tt
Evolves-trans (some r) none o'' h k = absurd h
Evolves-trans (some r) (some r') none h k = absurd k
Evolves-trans (some r) (some r') (some r'') (inl e) k = rw e at k
Evolves-trans (some r) (some r') (some r'') (inr h) (inl e) = rw e (inr h)
Evolves-trans (some r) (some r') (some r'') (inr h) (inr k) = absurd (Ends-once r r' r'' h k)

set-Evolves :
    (k j : ℕ) (r r' : ApprovalRow) (m : JsMap ApprovalRow)
    → get j m ≡ some r
    → Ends r r'
    → Evolves (get k m) (get k (set j r' m))
set-Evolves k j r r' m e h = elim (Bool-cases (j == k)) [
  | inl same ↦ rw (get-set k j r' m, same, ← (==_iff j k).0 same, e) (inr h)
  | inr other ↦ rw (get-set k j r' m, other) (Evolves-refl (get k m))
]

new-Evolves :
    (k j : ℕ) (r : ApprovalRow) (m : JsMap ApprovalRow)
    → get j m ≡ none
    → Evolves (get k m) (get k (set j r m))
new-Evolves k j r m e = elim (Bool-cases (j == k)) [
  | inl same ↦ rw (← (==_iff j k).0 same, e) tt
  | inr other ↦ rw (get-set k j r m, other) (Evolves-refl (get k m))
]

swept-Evolves :
    (k : ℕ) (state : ApprovalState) (now : ℕ) (p : ApprovalRow → Bool) (m : JsMap ApprovalRow)
    → IsValid m
    → is_pending state ≡ false
    → ((r : ApprovalRow) → p r ≡ true → is_pending r.state ≡ true)
    → Evolves (get k m) (get k (swept state now p m))
swept-Evolves k state now p m v final selects = elim (Option-cases (get k m)) [
  | inl e ↦ rw e tt
  | inr (r, e) ↦ elim (Bool-cases (p r)) [
    | inl t ↦
        rw (get-swept state now p m v k, e, t)
          (inr (selects r t, final, refl, refl, refl, refl, refl))
    | inr f ↦ rw (get-swept state now p m v k, e, f) (inl refl)
  ]
]

pub Change-Evolves :
    (m m' : JsMap ApprovalRow) (k : ℕ) → IsValid m → Change m m' → Evolves (get k m) (get k m')
Change-Evolves m m' k v (unchanged e) = rw e (Evolves-refl (get k m))
Change-Evolves m m' k v (created r fresh _ e) = rw e (new-Evolves k r.id r m fresh)
Change-Evolves m m' k v (ended r r' here h _ e) = rw e (set-Evolves k r.id r r' m here h)
Change-Evolves m m' k v (swept_all state now p final selects e) =
    rw e (swept-Evolves k state now p m v final selects)
