-- ===== src/Ops/ActivityFeed.antt =====
-- web/src/components/ops/ActivityFeed.tsx: the list of recent events.
use gocourier.Common.{
  ℕ, ◌/◌, ◌||◌, Option, none, some, List, [], ◌∷◌, String, if◌then◌else◌, ltb, length, includes,
  template, decimal,
}
use gocourier.Html.{str, Node, text, h}
use gocourier.Dates.{get_time}
use gocourier.Api.Types.{ActivityEvent}
use gocourier.Ops.Shared.{age_seconds}

-- What a click does: `setSelected` of an id.
pub data FeedMsg : Type 0 where
  select : String → FeedMsg

-- How long ago, from a number of seconds.
abbrev pub age_text : ℕ → String
age_text s =
    let m = s / 60 in
    if ltb s 2
    then "now"
    else if ltb s 60
    then template (decimal s ∷ "s" ∷ [])
    else if ltb m 60
    then template (decimal m ∷ "m" ∷ [])
    else template (decimal (m / 60) ∷ "h" ∷ [])

-- An invalid date passes no test, and is shown as NaN hours.
unfoldable pub relative : String → ℕ → String
relative iso now = elim (age_seconds (get_time iso) now) [ none ↦ "NaNh" | some s ↦ age_text s ]

unfoldable pub event_tone : String → String
event_tone type =
    if includes type "Succeeded"
    then "text-status-success"
    else if includes type "DLQ" || includes type "Failed" || includes type "Rejected"
    then "text-status-danger"
    else if includes type "Retrying" || includes type "Attempted" || includes type "Queued"
    then "text-status-warning"
    else "text-muted-foreground"

-- `selected` is the delivery that the store has selected.
unfoldable pub activity_feed : Option String → ℕ → List ActivityEvent → Node FeedMsg
activity_feed selected now events =
    (h "div"
      (str "className" "flex items-center justify-between border-b border-border px-3 py-2" ∷ [])
      ((h "div"
          (str "className" "text-xs font-medium uppercase tracking-wider text-muted-foreground"
            ∷ [])
          ((text "Activity") ∷ []))
        ∷ (h "div" (str "className" "text-[10px] text-muted-foreground mono" ∷ [])
            ((text (decimal (length events))) ∷ (text " events") ∷ []))
        ∷ []))
