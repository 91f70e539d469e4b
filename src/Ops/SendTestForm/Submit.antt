-- ===== src/Ops/SendTestForm/Submit.antt =====
-- What the end of a submission does in web/src/components/ops/SendTestForm.tsx.
use gocourier.Common.{◌+◌, ◌≡◌, refl, false, some, [], ◌∷◌, ◌++◌, String, ap, ◌∙◌}
use gocourier.World.{World, math_random, date_now}
use gocourier.Api.Types.{SendNotificationResp}
use gocourier.Api.Result.{Result, returned, thrown}
use gocourier.Store.{AppState, Zustand, set_selected_delivery_id, setters-frame}
use gocourier.Hooks.{Page, sent, summary_key}
use gocourier.LoadTest.Request.{random_text}
use gocourier.Ops.Shared.{error}
use gocourier.Ops.SendTestForm.{Form, Submitted, gen_key, sent_toast, settle}

-- A selection that is made twice.
select_twice :
    (z : Zustand) (id : String) (s : AppState)
    → set_selected_delivery_id z (some id) (set_selected_delivery_id z (some id) s)
      ≡ record s { selected_delivery_id = some id }
select_twice z id s =
    (setters-frame z (set_selected_delivery_id z (some id) s) "" false (some id)).2
    ∙ ap (λ (t : AppState). record t { selected_delivery_id = some id })
        (setters-frame z s "" false (some id)).2

-- How a submission ends.
abbrev pub Ends : Result SendNotificationResp → Form → Page → World → Submitted × World → Type 0
Ends (returned res) f p w (s, w') =
    (s.form ≡ record f { key = (gen_key w).0 })
    × (s.page ≡ record {
      store = record p.store { selected_delivery_id = some res.delivery_id };
      invalidated = p.invalidated ++ summary_key ∷ [];
    })
    × (s.toast ≡ sent_toast res)
    × (w'.ticked ≡ w.ticked + 1)
Ends (thrown e) f p w (s, w') =
    (s.form ≡ f)
    × (s.page ≡ p)
    × (s.toast ≡ record { kind = error; title = "Send failed"; description = some e })
    × (w' ≡ w)

-- A response selects its delivery, invalidates the summary, and gives the form a new key, with channel
-- and address as they were; an error leaves the form, so that its key is sent again, and the page as
-- they were, and shows the message.
pub settle-Ends :
    (z : Zustand) (result : Result SendNotificationResp) (f : Form) (p : Page) (w : World)
    → Ends result f p w (settle z result f p w)
unfolding settle gen_key sent random_text math_random date_now
settle-Ends z (returned res) f p w = (
  refl,
  ap (λ (t : AppState). record { store = t; invalidated = p.invalidated ++ summary_key ∷ [] })
      (select_twice z res.delivery_id p.store),
  refl,
  refl,
)
settle-Ends z (thrown e) f p w = (refl, refl, refl, refl)
