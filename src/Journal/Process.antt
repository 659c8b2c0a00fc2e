-- ===== src/Journal/Process.antt =====
-- The Runtime Box as a process around its journal: it starts from the file, its handlers call the
-- methods of the journal, and it may die between any two calls. `run` gathers the grants whose calls
-- `begin` let execute, newest first.
use moshu.Common.{ℕ, ◌≤◌, Option, none, List, [], ◌∷◌}
use moshu.Common.Text.{Text}
use moshu.Peer.{PeerIdentity}
use moshu.Journal.Types.{Deployment, InvokeInput, Payload, JournalFile, Journal, PersistOutcome}
use moshu.Journal.{Attempts, begin, succeed, finish_without_result, FinalState}
use moshu.Journal.Receipts.{acknowledge, confirm_acknowledgements, Loaded, loaded, load_error, load}
use moshu.Journal.Safety.{executed_by, IsIssuedInput}

pub data Process : Type 0 where
  up : Journal → Process
  down : Option JournalFile → Process

pub data Event : Type 0 where
  begins : Attempts → InvokeInput → PeerIdentity → PeerIdentity → Deployment → Event
  succeeds : PersistOutcome → ℕ → Option ℕ → Event
  finishes : PersistOutcome → ℕ → FinalState → Text → Event
  acknowledges : PersistOutcome → List ℕ → Event
  confirms : PersistOutcome → List ℕ → Event
  restarts : PersistOutcome → Event

abbrev pub after_load : Loaded → Process
after_load (loaded j) = up j
after_load (load_error f) = down f

abbrev pub file_of : Process → Option JournalFile
file_of (up j) = j.file
file_of (down f) = f

module _ (sha256 : Payload → ℕ) where
  -- A process that is down takes no call.
  unfoldable pub step : ℕ → Process → Event → List ℕ → Process × List ℕ
  step now p (restarts o) xs = (after_load (load now o (file_of p)), xs)
  step now (down f) _ xs = (down f, xs)
  step now (up j) (begins o input authority target deployment) xs =
      let (j', b) = begin sha256 now o j input authority target deployment in
      (up j', executed_by input.authorization b xs)
  step now (up j) (succeeds o id parsed) xs = (up (succeed now o j id parsed).0, xs)
  step now (up j) (finishes o id final e) xs = (up (finish_without_result now o j id final e).0, xs)
  step now (up j) (acknowledges o ids) xs = (up (acknowledge now o j ids).0, xs)
  step now (up j) (confirms o ids) xs = (up (confirm_acknowledgements o j ids).0, xs)

  unfoldable pub run : Process → List ℕ → List (ℕ × Event) → Process × List ℕ
  run p xs [] = (p, xs)
  run p xs ((now, e) ∷ es) = let (p', ys) = step now p e xs in run p' ys es

-- A Box that has never run.
abbrev pub installed : Process
installed = down none

module _ (invocation_of expiry_of : ℕ → ℕ) where
  abbrev pub IsIssuedEvent : Event → Type 0
  IsIssuedEvent (begins o input authority target deployment) =
      IsIssuedInput invocation_of expiry_of input
  IsIssuedEvent _ = Unit

  -- The clock does not go back, and the calls carry grants as the Agent Server issued them.
  abbrev pub IsHistory : ℕ → List (ℕ × Event) → Type 0
  IsHistory t [] = Unit
  IsHistory t ((now, e) ∷ es) = (t ≤ now) × IsIssuedEvent e × IsHistory now es
