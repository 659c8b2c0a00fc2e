-- ===== src/Journal/AtMostOnce.antt =====
-- No grant is executed twice by a Runtime Box, whatever fails or restarts in between.
use moshu.Common.{
  ℕ, ◌≤◌, ◌≡◌, refl, false, Option, none, some, inl, List, [], ◌∷◌, contains, count, Bool-cases,
  ◌==◌, inr, arith,
}
use moshu.Journal.Types.{Payload, Journal, Authorization, Begun, execute, rejected}
use moshu.Journal.Receipts.{Loaded, loaded, load_error}
use moshu.Journal.Safety.{OnDisk, IsSafe, IsSafe-later, OnDisk-later, executed_by}
use moshu.Journal.Safety.Beginning.{IsBegun, begin-IsBegun}
use moshu.Journal.Safety.Closing.{succeed-IsSafe, finish-IsSafe}
use moshu.Journal.Safety.Acknowledged.{acknowledge-IsSafe, confirm-IsSafe}
use moshu.Journal.Safety.Restart.{IsSafeLoad, load-IsSafeLoad}
use moshu.Journal.Process.{
  Process, up, down, Event, begins, succeeds, finishes, acknowledges, confirms, restarts, step, run,
  after_load, file_of, installed, IsIssuedEvent, IsHistory,
}

abbrev pub IsDistinct : List ℕ → Type 0
IsDistinct xs = (g : ℕ) → count g xs ≤ 1

count-eq-zero : (g : ℕ) (xs : List ℕ) → contains g xs ≡ false → count g xs ≡ 0
count-eq-zero g [] h = refl
count-eq-zero g (x ∷ xs) h = ground (arith, count-eq-zero g xs)

cons-IsDistinct :
    (g : ℕ) (xs : List ℕ) → contains g xs ≡ false → IsDistinct xs → IsDistinct (g ∷ xs)
cons-IsDistinct g xs fresh d h = elim (Bool-cases (g == h)) [
  | inl same ↦ ground (arith, count-eq-zero g xs fresh)
  | inr other ↦ rw other (d h)
]

module _ (invocation_of expiry_of : ℕ → ℕ)
    (injective : (g h : ℕ) → invocation_of g ≡ invocation_of h → g ≡ h) where
  abbrev IsSafeProcess : ℕ → List ℕ → Process → Type 0
  IsSafeProcess t xs (up j) = IsSafe invocation_of expiry_of t xs j
  IsSafeProcess t xs (down f) = OnDisk invocation_of expiry_of t xs f

  record IsTracked (t : ℕ) (xs : List ℕ) (p : Process) : Type 0 where
    safe : IsSafeProcess t xs p
    distinct : IsDistinct xs

  after_load-IsSafeProcess :
      (t : ℕ) (xs : List ℕ) (l : Loaded)
      → IsSafeLoad invocation_of expiry_of t xs l
      → IsSafeProcess t xs (after_load l)
  after_load-IsSafeProcess t xs (loaded j) h = h
  after_load-IsSafeProcess t xs (load_error f) h = h

  file_of-OnDisk :
      (t : ℕ) (xs : List ℕ) (p : Process)
      → IsSafeProcess t xs p
      → OnDisk invocation_of expiry_of t xs (file_of p)
  file_of-OnDisk t xs (up j) h = h.on_disk
  file_of-OnDisk t xs (down f) h = h

  safe-later :
      {t t' : ℕ} (xs : List ℕ) (p : Process) → t ≤ t' → IsSafeProcess t xs p → IsSafeProcess t' xs p
  safe-later xs (up j) later h = IsSafe-later invocation_of expiry_of injective later h
  safe-later xs (down f) later h = OnDisk-later invocation_of expiry_of f injective later h

  begun-IsTracked :
      {t : ℕ} (xs : List ℕ) (j : Journal) (b : Begun) (a : Option Authorization)
      → IsDistinct xs
      → IsBegun invocation_of expiry_of injective t xs j b a
      → IsTracked t (executed_by a b xs) (up j)
  begun-IsTracked xs j execute (some a) d h = record {
    safe = h.0;
    distinct = cons-IsDistinct a.grant_id xs h.1 d;
  }
  begun-IsTracked xs j execute none d h = absurd h
  begun-IsTracked xs j (rejected e) (some a) d h = record { safe = h; distinct = d }
  begun-IsTracked xs j (rejected e) none d h = record { safe = h; distinct = d }
  begun-IsTracked xs j _ (some a) d h = record { safe = h; distinct = d }
  begun-IsTracked xs j _ none d h = record { safe = h; distinct = d }

  module _ (sha256 : Payload → ℕ) where
    step-IsTracked :
        {t : ℕ} {xs : List ℕ} (now : ℕ) (p : Process) (e : Event)
        → t ≤ now
        → IsIssuedEvent invocation_of expiry_of e
        → IsTracked t xs p
        → let (p', ys) = step sha256 now p e xs in IsTracked now ys p'
    unfolding step
    step-IsTracked {xs = xs} now p (restarts o) later i h = record {
      safe = after_load-IsSafeProcess now xs _ (
          load-IsSafeLoad invocation_of expiry_of injective o (file_of p)
            (file_of-OnDisk now xs p (safe-later xs p later h.safe)));
      distinct = h.distinct;
    }
    step-IsTracked {xs = xs} now (up j) (begins o input authority target deployment) later i h =
        begun-IsTracked xs _ _ input.authorization h.distinct (
          begin-IsBegun invocation_of expiry_of injective sha256 now o j input authority target
            deployment later i h.safe)
    step-IsTracked {xs = xs} now (up j) (succeeds o id parsed) later i h = record {
      safe =
          succeed-IsSafe invocation_of expiry_of injective now o j id parsed
            (safe-later xs (up j) later h.safe);
      distinct = h.distinct;
    }
    step-IsTracked {xs = xs} now (up j) (finishes o id final e) later i h = record {
      safe =
          finish-IsSafe invocation_of expiry_of injective now o j id final e
            (safe-later xs (up j) later h.safe);
      distinct = h.distinct;
    }
    step-IsTracked {xs = xs} now (up j) (acknowledges o ids) later i h = record {
      safe =
          acknowledge-IsSafe invocation_of expiry_of injective o j ids
            (safe-later xs (up j) later h.safe);
      distinct = h.distinct;
    }
    step-IsTracked {xs = xs} now (up j) (confirms o ids) later i h = record {
      safe = confirm-IsSafe invocation_of expiry_of o j ids (safe-later xs (up j) later h.safe);
      distinct = h.distinct;
    }
    step-IsTracked {xs = xs} now (down f) _ later i h = record {
      safe = safe-later xs (down f) later h.safe;
      distinct = h.distinct;
    }

    run-IsDistinct :
        (t : ℕ) (xs : List ℕ) (p : Process) (es : List (ℕ × Event))
        → IsHistory invocation_of expiry_of t es
        → IsTracked t xs p
        → IsDistinct (run sha256 p xs es).1
    unfolding run
    run-IsDistinct t xs p [] h k = k.distinct
    run-IsDistinct t xs p ((now, e) ∷ es) h k =
        let (p', ys) = step sha256 now p e xs in
        run-IsDistinct now ys p' es h.2 (step-IsTracked now p e h.0 h.1 k)

    installed-IsTracked : IsTracked 0 [] installed
    installed-IsTracked = record {
      safe = (
        [],
        [],
        inl (refl, refl, refl),
        record {
          issued = tt;
          tombstones = tt;
          records_nodup = tt;
          consumed_nodup = tt;
          spent = λ g e. cc;
        },
      );
      distinct = λ g. omega arith;
    }

    -- Of any history of a Runtime Box, with calls, ends of calls, acknowledgements, confirmations
    -- and restarts in any order and writes of the journal that fail before or after the rename, no
    -- grant is executed twice; given that the clock does not go back, that the calls carry each grant
    -- with the invocation and the expiry it was issued with, and that two grants are never issued for
    -- one invocation.
    pub executes_at_most_once :
        (es : List (ℕ × Event))
        → IsHistory invocation_of expiry_of 0 es
        → (g : ℕ) → count g (run sha256 installed [] es).1 ≤ 1
    executes_at_most_once es h = run-IsDistinct 0 [] installed es h installed-IsTracked
