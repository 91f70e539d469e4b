-- ===== src/Ops/DeliveryDetail/State.antt =====
-- web/src/components/ops/DeliveryDetail.tsx: the lookup, the handlers, and the texts that are made of a delivery.
use Prim.Native.Char.{code}
use Prim.Native.String
use gocourier.Common.{
  ℕ, suc, zero, Bool, false, not, ◌&&◌, ◌||◌, Option, none, some, List, [], ◌∷◌, ◌++◌, String,
  if◌then◌else◌, leb, ◌==◌, is_empty, includes, ◌or_else◌,
}
use gocourier.Json.Value.{Json, Object, has_no_keys}
use gocourier.Json.Print.{stringify}
use gocourier.Api.Types.{AuditRow, SendNotificationResp}
use gocourier.Api.Result.{Result, returned, thrown}
use gocourier.Dates.{get_time, to_iso_string}
use gocourier.Store.{AppState, Zustand, set_selected_delivery_id}
use gocourier.Hooks.{Page, replayed}
use gocourier.Ops.TimeSort.{sort_by}
use gocourier.Ops.Shared.{Toast, success, error}

unfoldable pub event_dot_tone : String → String
event_dot_tone t =
    if includes t "Succeeded"
    then "bg-status-success"
    else if includes t "DLQ" || includes t "Failed" || includes t "Rejected"
    then "bg-status-danger"
    else if includes t "Retrying"
        || includes t "Attempted"
        || includes t "Queued"
        || includes t "Replayed"
    then "bg-status-warning"
    else "bg-status-neutral"

-- `s.replace(from, to)`, for a character and the text in its place: the first one only.
unfoldable pub replace_first : ℕ → String → String → String
replace_first from to String.[] = ""
replace_first from to (String.◌∷◌ c s) =
    let rest = String.◌∷◌ c (replace_first from to s) in
    if code c == from then String.◌++◌ to s else rest

abbrev fmt_time : Option ℕ → Option String
fmt_time none = none
fmt_time (some t) = some (replace_first b'Z' "" (replace_first b'T' " " (to_iso_string t)))

-- `none` is the RangeError of `toISOString` at an invalid date.
unfoldable pub fmt : String → Option String
fmt iso = fmt_time (get_time iso)

unfoldable pub fmt_json : Option Object → Option String
fmt_json none = none
fmt_json (some o) = if has_no_keys o then none else some (stringify (Json.obj o))

abbrev in_range : ℕ → ℕ → ℕ → Bool
in_range lo hi c = leb lo c && leb c hi

-- The classes of `UUID_RE`, whose flag `i` lets both cases of a letter pass.
abbrev pub is_hex : ℕ → Bool
is_hex c = in_range b'0' b'9' c || in_range b'a' b'f' c || in_range b'A' b'F' c

abbrev pub is_dash : ℕ → Bool
is_dash c = c == b'-'

abbrev pub is_version : ℕ → Bool
is_version c = in_range b'1' b'5' c

abbrev pub is_variant : ℕ → Bool
is_variant c =
    (c == b'8') || (c == b'9') || (c == b'a') || (c == b'b') || (c == b'A') || (c == b'B')

-- A class of the expression so many times.
abbrev pub times : ℕ → (ℕ → Bool) → List (ℕ → Bool)
times zero p = []
times (suc n) p = p ∷ times n p

-- `UUID_RE`: a class for each character, and its ends from each dash on.
abbrev pub node_classes : List (ℕ → Bool)
node_classes = is_dash ∷ times 12 is_hex

abbrev pub variant_classes : List (ℕ → Bool)
variant_classes = (is_dash ∷ is_variant ∷ times 3 is_hex) ++ node_classes

abbrev pub version_classes : List (ℕ → Bool)
version_classes = (is_dash ∷ is_version ∷ times 3 is_hex) ++ variant_classes

abbrev pub middle_classes : List (ℕ → Bool)
middle_classes = (is_dash ∷ times 4 is_hex) ++ version_classes

abbrev pub uuid_classes : List (ℕ → Bool)
uuid_classes = times 8 is_hex ++ middle_classes

-- Whether a text has just one character of each class.
unfoldable pub matches : List (ℕ → Bool) → String → Bool
matches [] s = is_empty s
matches (p ∷ ps) String.[] = false
matches (p ∷ ps) (String.◌∷◌ c s) = p (code c) && matches ps s

-- `UUID_RE.test(s)`
unfoldable pub is_uuid : String → Bool
is_uuid s = matches uuid_classes s

-- White space and line ends of ECMAScript.
abbrev pub is_space : ℕ → Bool
is_space c =
    in_range 9 13 c
    || (c == 32)
    || (c == 160)
    || (c == 5760)
    || in_range 8192 8202 c
    || (c == 8232)
    || (c == 8233)
    || (c == 8239)
    || (c == 8287)
    || (c == 12288)
    || (c == 65279)

unfoldable pub trim_start : String → String
trim_start String.[] = ""
trim_start (String.◌∷◌ c s) =
    let rest = trim_start s in if is_space (code c) then rest else String.◌∷◌ c s

unfoldable pub trim_end : String → String
trim_end String.[] = ""
trim_end (String.◌∷◌ c s) =
    let rest = trim_end s in if is_empty rest && is_space (code c) then "" else String.◌∷◌ c rest

-- `s.trim()`
unfoldable pub trim : String → String
trim s = trim_end (trim_start s)

pub data DetailMsg : Type 0 where
  set_lookup : String → DetailMsg
  submit_lookup copy replay close : DetailMsg

-- The text of the lookup when the selected delivery changes.
unfoldable pub lookup_of : Option String → String
lookup_of id = id or_else ""

abbrev empty_toast : Toast
empty_toast = record { kind = error; title = "Enter a delivery id"; description = none }

abbrev invalid_toast : Toast
invalid_toast = record {
  kind = error;
  title = "Invalid delivery id";
  description = some "Expected a UUID like 1d0973f2-5512-494c-b767-c44614b08…";
}

-- `submitLookup`
unfoldable pub look_up : Zustand → String → AppState → AppState × Option Toast
look_up z lookup s =
    let trimmed = trim lookup in
    if is_empty trimmed
    then (s, some empty_toast)
    else if not (is_uuid trimmed)
    then (s, some invalid_toast)
    else (set_selected_delivery_id z (some trimmed) s, none)

-- `close`
unfoldable pub close_detail : Zustand → AppState → AppState
close_detail z s = set_selected_delivery_id z none s

-- The message of `copy`, once the clipboard has the id.
abbrev pub copied_toast : Toast
copied_toast = record { kind = success; title = "Copied delivery id"; description = none }

-- The end of `doReplay`: first the handler of `useReplay`, then those of the call.
unfoldable pub settle_replay : String → Result SendNotificationResp → Page → Page × Toast
settle_replay id (returned res) p = (
  replayed id (returned res) p,
  record { kind = success; title = "Replay queued"; description = none },
)
settle_replay id (thrown e) p = (
  replayed id (thrown e) p,
  record { kind = error; title = "Replay failed"; description = some e },
)

-- The time by which the audit events are sorted.
abbrev pub audit_time : AuditRow → Option ℕ
audit_time a = get_time a.created_at

-- `sortedAudit`: the earliest first.
unfoldable pub sorted_audit : List AuditRow → List AuditRow
sorted_audit audit = sort_by audit_time false audit
