-- ===== src/Ops/SendTestForm.antt =====
-- web/src/components/ops/SendTestForm.tsx: the form that sends one notification.
pub mod Submit
use gocourier.Common.{
  Bool, true, false, Option, none, some, List, [], ◌∷◌, String, if◌then◌else◌, str_eq, template,
  slice_text, take_text, last_text, to_radix, ◌or_else◌,
}
use gocourier.World.{M, ◌>>=◌, pure, date_now}
use gocourier.Html.{Attr, str, flag, cn, on, on_text, Node, text, h, each}
use gocourier.Json.Value.{end}
use gocourier.Api.Types.{
  Channel, email, normal, channel_text, channel_of_text, SendNotificationReq, SendNotificationResp,
}
use gocourier.Api.Result.{Result, returned, thrown}
use gocourier.Store.{Zustand, set_selected_delivery_id}
use gocourier.Hooks.{Page, sent}
use gocourier.LoadTest.Config.{Tone, success, warning, danger, neutral, RecipientPreset}
use gocourier.LoadTest.Request.{random_text}
use gocourier.Ops.StatusBadge.{tone_eq}
use gocourier.Ops.Shared.{Toast, ToastKind}

-- `PRESETS`
abbrev pub form_presets : List RecipientPreset
form_presets =
    record { label = "Happy path"; address = "user@example.com"; tone = success }
    ∷ record { label = "Permanent fail"; address = "fail-permanent@example.com"; tone = danger }
    ∷ record { label = "Transient fail"; address = "fail-transient@example.com"; tone = warning }
    ∷ []

unfoldable pub gen_key : M String
gen_key = do
  r ← random_text
  now ← date_now
  pure (template ("test-" ∷ slice_text 2 8 r ∷ "-" ∷ last_text 4 (to_radix 36 now) ∷ []))

pub record Form : Type 0 where
  pub channel : Channel
  pub address : String
  pub key : String

-- The state at the first rendering. The keys that later renderings make and drop are left out.
unfoldable pub first_form : M Form
first_form = do
  key ← gen_key
  pure (record { channel = email; address = "user@example.com"; key = key })

pub data FormMsg : Type 0 where
  choose_preset : String → FormMsg
  set_channel : String → FormMsg
  set_address : String → FormMsg
  set_key : String → FormMsg
  regenerate submit : FormMsg

-- The select offers the four channels, and no other text. `submit` leaves the form alone until the
-- response is there.
unfoldable pub update : FormMsg → Form → M Form
update (choose_preset a) f = pure (record f { address = a; channel = email })
update (set_channel v) f = pure (record f { channel = channel_of_text v or_else f.channel })
update (set_address v) f = pure (record f { address = v })
update (set_key v) f = pure (record f { key = v })
update regenerate f = do key ← gen_key; pure (record f { key = key })
update submit f = pure f

-- What `submit` sends.
unfoldable pub form_request : Form → SendNotificationReq
form_request f = record {
  schema_version = "1.0";
  idempotency_key = f.key;
  channel = f.channel;
  priority = normal;
  recipient = record { address = f.address };
  template = record { id = "welcome"; data_fields = end };
}

abbrev pub short_id : String → String
short_id id = template (take_text 8 id ∷ "…" ∷ [])

-- The message that `onSuccess` shows.
unfoldable pub sent_toast : SendNotificationResp → Toast
sent_toast res =
    if res.duplicate or_else false
    then record {
      kind = ToastKind.message;
      title = "Duplicate idempotency key";
      description = some (template ("Returned existing delivery " ∷ short_id res.delivery_id ∷ []));
    }
    else record {
      kind = ToastKind.success;
      title = "Notification queued";
      description = some (template ("delivery_id " ∷ short_id res.delivery_id ∷ []));
    }

pub record Submitted : Type 0 where
  pub form : Form
  pub page : Page
  pub toast : Toast

-- The end of the mutation: first the handler of `useSendNotification`, then those of the call.
unfoldable pub settle : Zustand → Result SendNotificationResp → Form → Page → M Submitted
settle z (returned res) f p =
    let q = sent z (returned res) p in
    do
      key ← gen_key
      pure (record {
        form = record f { key = key };
        page = record q { store = set_selected_delivery_id z (some res.delivery_id) q.store };
        toast = sent_toast res;
      })
settle z (thrown e) f p = pure (record {
  form = f;
  page = sent z (thrown e) p;
  toast = record { kind = ToastKind.error; title = "Send failed"; description = some e };
})

unfoldable pub presets : Form → Node FormMsg
presets f =
    (h "div" (str "className" "flex flex-wrap gap-1.5" ∷ []) (
      (each
        (λ p.
          (h "button"
            (str "key" p.label
              ∷ str "type" "button"
              ∷ on "onClick" (choose_preset p.address)
              ∷ cn (
                  some "rounded-md border px-2 py-1 text-[11px] transition-colors"
                  ∷ some (
                      if (str_eq f.address p.address)
                      then (if (tone_eq p.tone success)
                          then "border-status-success/40 bg-status-success/10 text-status-success"
                          else (if (tone_eq p.tone danger)
                              then "border-status-danger/40 bg-status-danger/10 text-status-danger"
                              else "border-status-warning/40 bg-status-warning/10 text-status-warning"))
                      else "border-border bg-background text-muted-foreground hover:text-foreground")
                  ∷ [])
              ∷ [])
            ((text p.label) ∷ [])))
        form_presets)
      ∷ []))

unfoldable pub channel_select : Form → Node FormMsg
channel_select f =
    (h "div" (str "className" "space-y-1.5" ∷ []) (
      (h "Label" (str "className" "text-[11px] text-muted-foreground" ∷ []) ((text "Channel") ∷ []))
      ∷ (h "Select"
          (str "value" (channel_text f.channel) ∷ on_text "onValueChange" set_channel ∷ [])
          ((h "SelectTrigger" (str "className" "h-8 text-xs mono" ∷ [])
              ((h "SelectValue" [] []) ∷ []))
            ∷ (h "SelectContent" [] (
                (h "SelectItem" (str "value" "email" ∷ []) ((text "email") ∷ []))
                ∷ (h "SelectItem" (str "value" "sms" ∷ []) ((text "sms") ∷ []))
                ∷ (h "SelectItem" (str "value" "push" ∷ []) ((text "push") ∷ []))
                ∷ (h "SelectItem" (str "value" "webhook" ∷ []) ((text "webhook") ∷ []))
                ∷ []))
            ∷ []))
      ∷ []))

unfoldable pub recipient_input : Form → Node FormMsg
recipient_input f =
    (h "div" (str "className" "space-y-1.5" ∷ []) (
      (h "Label" (str "className" "text-[11px] text-muted-foreground" ∷ [])
        ((text "Recipient") ∷ []))
      ∷ (h "Input"
          (str "value" f.address
            ∷ on_text "onChange" set_address
            ∷ str "className" "h-8 text-xs mono"
            ∷ str "placeholder" "user@example.com"
            ∷ [])
          [])
      ∷ []))

unfoldable pub key_input : Form → Node FormMsg
key_input f =
    (h "div" (str "className" "space-y-1.5" ∷ []) (
      (h "Label" (str "className" "text-[11px] text-muted-foreground" ∷ [])
        ((text "Idempotency key") ∷ []))
      ∷ (h "div" (str "className" "flex gap-1.5" ∷ []) (
          (h "Input"
            (str "value" f.key
              ∷ on_text "onChange" set_key
              ∷ str "className" "h-8 text-xs mono"
              ∷ [])
            [])
          ∷ (h "Button"
              (str "type" "button"
                ∷ str "variant" "outline"
                ∷ str "size" "icon"
                ∷ str "className" "h-8 w-8 shrink-0"
                ∷ on "onClick" regenerate
                ∷ str "title" "Regenerate"
                ∷ [])
              ((h "Dices" (str "className" "h-3.5 w-3.5" ∷ []) []) ∷ []))
          ∷ []))
      ∷ []))

unfoldable pub send_test_form : Bool → Form → Node FormMsg
send_test_form is_pending f =
    (h "form"
      (on "onSubmit" submit
        ∷ str "className" "space-y-3 rounded-lg border border-border bg-card p-3"
        ∷ [])
      ((h "div"
          (str "className" "text-xs font-medium uppercase tracking-wider text-muted-foreground"
            ∷ [])
          ((text "Send test notification") ∷ []))
        ∷ (presets f)
        ∷ (channel_select f)
        ∷ (recipient_input f)
        ∷ (key_input f)
        ∷ (h "Button"
            (str "type" "submit"
              ∷ flag "disabled" is_pending
              ∷ str "className" "w-full h-8 text-xs"
              ∷ [])
            ((h "Send" (str "className" "mr-1.5 h-3.5 w-3.5" ∷ []) [])
              ∷ (if (is_pending) then (text "Sending…") else (text "POST /v1/notifications"))
              ∷ []))
        ∷ []))
