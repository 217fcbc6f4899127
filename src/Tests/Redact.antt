-- ===== src/Tests/Redact.antt =====
-- Redaction (src/hrmosaic/core/redact.py) of a small payload.
use quantic_mosaic.Prelude.{◌≡◌, ◌↔◌, refl, Any, Bool, none, List, [], ◌∷◌, String, contains}
use quantic_mosaic.Guards.Shield.{Json, text, number, object, end, member as entry}
use quantic_mosaic.Redact.{environment_secrets, redact}
use quantic_mosaic.Redact.Secrets.{Holds, IsFalling, AreDistinct, environment_secrets-Holds}
use quantic_mosaic.Redact.Scrubbed.{IsScrubbed, redact-IsScrubbed}

abbrev same : String → String
same s = s

abbrev finds_denied : String → Bool
finds_denied key = contains "token" key

abbrev environment : List (String × String)
environment = ("LLM_KEY", "hunter2hunter2") ∷ ("HOME_KEY", "short") ∷ ("PATH", "usr/bin/local") ∷ []

secrets_are : environment_secrets same environment ≡ "hunter2hunter2" ∷ []
unfolding environment_secrets
secrets_are = refl

abbrev payload : Json
payload = object (
    entry "access_token" (number 7)
      (entry "prompt_tokens" (number 9) (entry "note" (text "use hunter2hunter2 here") end)))

redacts :
    redact same finds_denied [] ("hunter2hunter2" ∷ []) payload
    ≡ object (
        entry "access_token"
          (text "[REDACTED]")
          (entry "prompt_tokens" (number 9) (entry "note" (text "use [REDACTED] here") end)))
unfolding redact contains
redacts = refl

redact-IsScrubbed_example :
    IsScrubbed same finds_denied []
      (environment_secrets same environment)
      none
      payload
      (redact same finds_denied [] (environment_secrets same environment) payload)
redact-IsScrubbed_example = redact-IsScrubbed same same finds_denied [] environment payload

environment_secrets-Holds_example :
    (Any (λ s. "hunter2hunter2" ≡ s) (environment_secrets same environment)
      ↔ Any (Holds same "hunter2hunter2") environment)
    × IsFalling (environment_secrets same environment)
    × AreDistinct (environment_secrets same environment)
environment_secrets-Holds_example = environment_secrets-Holds same environment "hunter2hunter2"
