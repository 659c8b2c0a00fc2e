-- ===== src/Risk/Tests.antt =====
-- The classification of concrete calls.
use moshu.Common.{ℕ, ◌≡◌, refl, Bool, ◌==◌, List, [], ◌∷◌}
use moshu.Common.Text.{Text, units}
use moshu.Risk.{object, call_bash, redacted, redact_mcp_arguments}
use moshu.Risk.Summary.{
  BrokerCall, executor_call, mcp_call, classify, arguments_alike, summary_hides,
}

-- Only the first pattern, `sudo`, matches.
abbrev matches_sudo : ℕ → Text → Bool
matches_sudo pattern command = pattern == 0

abbrev sudo : BrokerCall
sudo = executor_call (call_bash (units "sudo rm x"))

abbrev login : List (Text × Text)
login = (units "user", units "ann") ∷ (units "password", units "1234") ∷ []

abbrev other_login : List (Text × Text)
other_login = (units "user", units "bob") ∷ (units "password", units "99") ∷ []

hides_values :
    redact_mcp_arguments (object login)
    ≡ (units "user", redacted) ∷ (units "password", redacted) ∷ []
unfolding redact_mcp_arguments
hides_values = refl

summary_hides_example :
    (classify matches_sudo (mcp_call 1 2 (object login))).summary
    ≡ (classify matches_sudo (mcp_call 1 2 (object other_login))).summary
summary_hides_example =
    summary_hides matches_sudo (mcp_call 1 2 (object login)) (mcp_call 1 2 (object other_login))
      (arguments_alike 1 2 login other_login refl)
