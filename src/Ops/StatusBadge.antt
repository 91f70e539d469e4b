-- ===== src/Ops/StatusBadge.antt =====
-- web/src/components/ops/StatusBadge.tsx: the tone and the label of a status.
use gocourier.Common.{Bool, Option, none, some, [], ◌∷◌, String, if◌then◌else◌, str_eq}
use gocourier.Html.{cn, Node, text, h}
use gocourier.LoadTest.Config.{Tone, success, warning, danger, neutral}
use gocourier.Api.Types.{
  DeliveryStatus, pending, queued, processing, retrying, succeeded, failed, dlq, cancelled,
  rejected,
}

abbrev pub tone_text : Tone → String
tone_text success = "success"
tone_text warning = "warning"
tone_text danger = "danger"
tone_text neutral = "neutral"

-- `===` on the tones.
abbrev pub tone_eq : Tone → Tone → Bool
tone_eq a b = str_eq (tone_text a) (tone_text b)

pub record Badge : Type 0 where
  pub tone : Tone
  pub label : String

-- `TONE`
abbrev pub badge_of : DeliveryStatus → Badge
badge_of succeeded = record { tone = success; label = "succeeded" }
badge_of queued = record { tone = warning; label = "queued" }
badge_of processing = record { tone = warning; label = "processing" }
badge_of retrying = record { tone = warning; label = "retrying" }
badge_of pending = record { tone = warning; label = "pending" }
badge_of dlq = record { tone = danger; label = "dlq" }
badge_of failed = record { tone = danger; label = "failed" }
badge_of rejected = record { tone = danger; label = "rejected" }
badge_of cancelled = record { tone = neutral; label = "cancelled" }

-- The second argument is the `className` of the props.
unfoldable pub status_badge : {Msg : Type 0} → DeliveryStatus → Option String → Node Msg
status_badge status class_name =
    let badge = badge_of status in
    (h "span"
      (cn (
          some
            "inline-flex items-center gap-1.5 rounded-md border px-1.5 py-0.5 text-[11px] font-medium uppercase tracking-wide mono"
          ∷ (if tone_eq badge.tone success
              then some "border-status-success/30 bg-status-success/10 text-status-success"
              else none)
          ∷ (if tone_eq badge.tone warning
              then some "border-status-warning/30 bg-status-warning/10 text-status-warning"
              else none)
          ∷ (if tone_eq badge.tone danger
              then some "border-status-danger/30 bg-status-danger/10 text-status-danger"
              else none)
          ∷ (if tone_eq badge.tone neutral
              then some "border-status-neutral/30 bg-status-neutral/10 text-status-neutral"
              else none)
          ∷ class_name
          ∷ [])
        ∷ [])
      ((h "span"
          (cn (
              some "h-1.5 w-1.5 rounded-full"
              ∷ (if tone_eq badge.tone success then some "bg-status-success" else none)
              ∷ (if tone_eq badge.tone warning
                  then some "bg-status-warning animate-pulse"
                  else none)
              ∷ (if tone_eq badge.tone danger then some "bg-status-danger" else none)
              ∷ (if tone_eq badge.tone neutral then some "bg-status-neutral" else none)
              ∷ [])
            ∷ [])
          [])
        ∷ (text badge.label)
        ∷ []))
