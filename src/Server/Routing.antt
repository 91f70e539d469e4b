-- ===== src/Server/Routing.antt =====
-- internal/domain/routing/subjects.go: the subjects of the message broker.
pub mod Roundtrip
use Prim.Native.Char.{code}
use Prim.Native.String
use gocourier.Common.{
  Bool, Option, none, some, List, [], ◌∷◌, ◌++◌, String, if◌then◌else◌, ◌==◌, map, str_eq, not,
  template,
}
use gocourier.Api.Types.{Channel, Priority, low, normal, high, channel_text, priority_text}
use gocourier.Server.Failures.{Outcome, ok, err, ◌>>=◌, errorf}
use gocourier.Server.Schema.{parse_channel, parse_priority, all_channels}

unfoldable pub notification_subject : String → Channel → Priority → String
notification_subject prefix ch pri =
    template (prefix ∷ "." ∷ channel_text ch ∷ "." ∷ priority_text pri ∷ [])

unfoldable pub dlq_subject : Channel → String
dlq_subject ch = template ("dlq." ∷ channel_text ch ∷ [])

abbrev onto_first : String → List String → List String
onto_first c [] = c ∷ []
onto_first c (s ∷ ss) = String.◌++◌ c s ∷ ss

-- `strings.Split(s, ".")`.
unfoldable pub split_dots : String → List String
split_dots String.[] = "" ∷ []
split_dots (String.◌∷◌ c s) =
    let rest = split_dots s in
    if code c == b'.' then "" ∷ rest else onto_first (String.◌∷◌ c "") rest

-- Fewer than three parts are refused, and what follows the third is not looked at.
unfoldable pub parse_parts : String → String → List String → Outcome (Channel × Priority)
parse_parts prefix subject (p ∷ ch ∷ pri ∷ rest) =
    if not (str_eq p prefix)
    then err (errorf ("unexpected stream prefix in subject: " ∷ subject ∷ []))
    else (do c ← parse_channel ch; q ← parse_priority pri; ok (c, q))
parse_parts prefix subject _ = err (errorf ("invalid subject: " ∷ subject ∷ []))

unfoldable pub parse_notification_subject : String → String → Outcome (Channel × Priority)
unfolding parse_parts
parse_notification_subject prefix subject = parse_parts prefix subject (split_dots subject)

abbrev subjects_from : String → List Channel → List String
subjects_from prefix [] = []
subjects_from prefix (c ∷ cs) =
    (notification_subject prefix c low
      ∷ notification_subject prefix c normal
      ∷ notification_subject prefix c high
      ∷ [])
    ++ subjects_from prefix cs

unfoldable pub all_notification_subjects : String → List String
unfolding all_channels
all_notification_subjects prefix = subjects_from prefix all_channels

unfoldable pub all_dlq_subjects : List String
unfolding all_channels
all_dlq_subjects = map dlq_subject all_channels
