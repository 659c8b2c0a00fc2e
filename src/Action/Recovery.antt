-- ===== src/Action/Recovery.antt =====
-- packages/database/src/action-repository.ts: what a restart of the agents server makes of the actions.
use moshu.Common.{ℕ, ◌≡◌, refl, inl, inr, true, false, some, Bool-cases, arith}
use moshu.Common.JsMap.{get, get-map_values}
use moshu.Action.Types.{cancelled, outcome_unknown, ActionRow, Db}
use moshu.Action.{is_granted, is_running, is_agent_server, undispatched_row}
use moshu.Action.Evidence.{
  is_over, recovered_row, recover_on_startup, is_unacknowledged, undispatched_error, unknown_row,
}

-- What a restart makes of one action.
abbrev pub IsRecovered : ActionRow → ActionRow → Type 0
IsRecovered a b =
    (is_over b.state ≡ true)
    × (is_over a.state ≡ true → b ≡ a)
    × (is_granted a.state ≡ true → (b.state ≡ cancelled) × (is_unacknowledged b ≡ false))
    × (is_running a.state ≡ true
        → (b.state ≡ outcome_unknown)
          × (is_agent_server a.target_kind ≡ true → is_unacknowledged b ≡ false))

over_else :
    (a : ActionRow)
    → is_granted a.state ≡ false
    → is_running a.state ≡ false
    → is_over a.state ≡ true
over_else a n m = ground arith

local_acked :
    (now : ℕ) (a : ActionRow)
    → is_agent_server a.target_kind ≡ true
    → is_unacknowledged (unknown_row now a) ≡ false
local_acked now a l = rw l refl

undispatched_acked :
    (now : ℕ) (a : ActionRow)
    → is_unacknowledged (undispatched_row now a undispatched_error) ≡ false
undispatched_acked now a = elim (Bool-cases (is_agent_server a.target_kind)) [
  | inl t ↦ rw t refl
  | inr f ↦ rw f refl
]

recovered_row-IsRecovered : (now : ℕ) (a : ActionRow) → IsRecovered a (recovered_row now a)
unfolding recovered_row
recovered_row-IsRecovered now a = elim (Bool-cases (is_granted a.state)) [
  | inl g ↦ rw g (
    refl,
    λ t. ground (arith, g, t),
    λ t. (refl, undispatched_acked now a),
    λ t. ground (arith, g, t),
  )
  | inr n ↦ elim (Bool-cases (is_running a.state)) [
    | inl r ↦
        rw (n, r)
          (
            refl,
            λ t. ground (arith, r, t),
            λ t. ground (arith, n, t),
            λ t. (refl, local_acked now a),
          )
    | inr m ↦
        rw (n, m) (over_else a n m, λ t. refl, λ t. ground (arith, n, t), λ t. ground (arith, m, t))
  ]
]

-- A restart keeps every action and leaves none open. One that was granted is cancelled, and nothing
-- waits for it; one that was running is of unknown outcome, and nothing waits for it where it is the
-- agents server's own; every other is as it was.
pub recovery_closes :
    (now : ℕ) (db : Db) (k : ℕ) (a : ActionRow)
    → get k db.actions ≡ some a
    → (b : ActionRow) × (get k (recover_on_startup now db).actions ≡ some b) × IsRecovered a b
unfolding recover_on_startup
recovery_closes now db k a e = (
  recovered_row now a,
  rw (get-map_values (recovered_row now) k db.actions, e) refl,
  recovered_row-IsRecovered now a,
)
