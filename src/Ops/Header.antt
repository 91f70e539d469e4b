-- ===== src/Ops/Header.antt =====
-- web/src/components/ops/Header.tsx: the state of the API, the refresh switch and the key.
use gocourier.Common.{
  ℕ, ◌-◌, ◌/◌, Bool, true, false, not, ◌&&◌, Option, none, some, [], ◌∷◌, String, if◌then◌else◌,
  ltb, ◌==◌, template, decimal,
}
use gocourier.Html.{str, flag, cn, on_text, on_flag, Node, text, h}
use gocourier.Api.Types.{HealthStatus, ok, down, HealthResp}
use gocourier.Store.{AppState, Zustand}
use gocourier.Store

-- The handlers are actions of the store.
pub data HeaderMsg : Type 0 where
  set_auto_refresh : Bool → HeaderMsg
  set_api_key : String → HeaderMsg

unfoldable pub update : Zustand → HeaderMsg → AppState → AppState
update z (set_auto_refresh b) s = Store.set_auto_refresh z b s
update z (set_api_key k) s = Store.set_api_key z k s

unfoldable pub relative : ℕ → ℕ → String
relative date now =
    let s = (now - date) / 1000 in
    let m = s / 60 in
    if ltb s 2
    then "just now"
    else if ltb s 60
    then template (decimal s ∷ "s ago" ∷ [])
    else if ltb m 60
    then template (decimal m ∷ "m ago" ∷ [])
    else template (decimal (m / 60) ∷ "h ago" ∷ [])

-- `lastUpdated ? relative(lastUpdated, now) : "—"`
unfoldable pub last_updated_text : ℕ → ℕ → String
last_updated_text last_updated now = if last_updated == 0 then "—" else relative last_updated now

abbrev is_up : HealthStatus → Bool
is_up ok = true
is_up down = false

-- `health.data?.status === "ok" && !health.isError`
unfoldable pub is_healthy : Option HealthResp → Bool → Bool
is_healthy none is_error = false
is_healthy (some r) is_error = is_up r.status && not is_error

-- `fetching` and `last_updated` are those of the summary query.
unfoldable pub header : AppState → Bool → Bool → ℕ → ℕ → Node HeaderMsg
header store healthy fetching last_updated now =
    (h "header"
      (str "className" "sticky top-0 z-20 border-b border-border bg-background/80 backdrop-blur"
        ∷ [])
      ((h "div"
          (str "className"
              "mx-auto flex max-w-[1600px] flex-wrap items-center gap-x-6 gap-y-3 px-4 py-3 sm:px-6"
            ∷ [])
          ((h "div" (str "className" "flex items-center gap-3" ∷ []) (
              (h "div"
                (str "className"
                    "grid h-8 w-8 place-items-center rounded-md border border-border bg-card"
                  ∷ [])
                ((h "Activity" (str "className" "h-4 w-4 text-status-info" ∷ []) []) ∷ []))
              ∷ (h "div" (str "className" "leading-tight" ∷ []) (
                  (h "div" (str "className" "text-sm font-semibold tracking-tight" ∷ [])
                    ((text "Gocourier") ∷ []))
                  ∷ (h "div" (str "className" "text-[11px] text-muted-foreground" ∷ [])
                      ((text "Notification pipeline — live ops") ∷ []))
                  ∷ []))
              ∷ []))
            ∷ (h "div" (str "className" "flex items-center gap-2" ∷ []) (
                (h "span"
                  (cn (
                      some
                        "inline-flex items-center gap-1.5 rounded-full border px-2 py-0.5 text-[11px] mono"
                      ∷ some (
                          if (healthy)
                          then "border-status-success/30 bg-status-success/10 text-status-success"
                          else "border-status-danger/30 bg-status-danger/10 text-status-danger")
                      ∷ [])
                    ∷ [])
                  ((h "span"
                      (cn (
                          some "h-1.5 w-1.5 rounded-full"
                          ∷ some (
                              if (healthy)
                              then "bg-status-success"
                              else "bg-status-danger animate-pulse")
                          ∷ [])
                        ∷ [])
                      [])
                    ∷ (text "api ")
                    ∷ (if (healthy) then (text "ok") else (text "down"))
                    ∷ []))
                ∷ []))
            ∷ (h "div" (str "className" "ml-auto flex flex-wrap items-center gap-4" ∷ []) (
                (h "div"
                  (str "className" "flex items-center gap-2 text-[11px] text-muted-foreground" ∷ [])
                  ((h "RefreshCw"
                      (cn (
                          some "h-3.5 w-3.5"
                          ∷ (if ((store.auto_refresh) && (fetching))
                              then some "animate-spin"
                              else none)
                          ∷ [])
                        ∷ [])
                      [])
                    ∷ (h "span" (str "className" "mono" ∷ [])
                        ((text (last_updated_text last_updated now)) ∷ []))
                    ∷ (h "Switch"
                        (flag "checked" store.auto_refresh
                          ∷ on_flag "onCheckedChange" set_auto_refresh
                          ∷ str "aria-label" "auto refresh"
                          ∷ [])
                        [])
                    ∷ (h "span" [] ((text "auto\u{a0}2s") ∷ []))
                    ∷ []))
                ∷ (h "div" (str "className" "flex items-center gap-2" ∷ []) (
                    (h "KeyRound" (str "className" "h-3.5 w-3.5 text-muted-foreground" ∷ []) [])
                    ∷ (h "Input"
                        (str "type" "password"
                          ∷ str "autoComplete" "off"
                          ∷ flag "spellCheck" false
                          ∷ str "value" store.api_key
                          ∷ on_text "onChange" set_api_key
                          ∷ str "placeholder" "X-API-Key"
                          ∷ str "className" "h-8 w-44 mono text-xs"
                          ∷ [])
                        [])
                    ∷ []))
                ∷ []))
            ∷ []))
        ∷ []))
