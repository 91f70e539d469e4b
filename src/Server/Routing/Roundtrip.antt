-- ===== src/Server/Routing/Roundtrip.antt =====
-- The subject of a notification is read back as its channel and priority.
use Prim.Native.Char.{code}
use Prim.Native.String
use text.Mathlib.TextLemmas.{nil-append, cons-append}
use gocourier.Common.{◌≡◌, refl, false, [], ◌∷◌, String, ◌==◌, ap, ◌∙◌, template, eq_iff}
use gocourier.Api.Types.{
  Channel, Priority, email, sms, push, webhook, low, normal, high, channel_text, priority_text,
  channel_of_text, priority_of_text,
}
use gocourier.Server.Failures.{ok}
use gocourier.Server.Words.{trim_space, to_lower}
use gocourier.Server.Schema.{parse_channel, parse_priority}
use gocourier.Server.Routing.{
  notification_subject, split_dots, parse_parts, parse_notification_subject,
}

-- A text without a dot.
abbrev pub HasNoDot : String → Type 0
HasNoDot String.[] = Unit
HasNoDot (String.◌∷◌ c s) = ((code c == b'.') ≡ false) × HasNoDot s

split_dots-append :
    (p s : String) → HasNoDot p → split_dots (String.◌++◌ p (String.◌∷◌ "." s)) ≡ p ∷ split_dots s
unfolding split_dots
split_dots-append String.[] s h = rw (nil-append (String.◌∷◌ "." s)) refl
split_dots-append (String.◌∷◌ c p) s (other, h) =
    rw (cons-append c p (String.◌∷◌ "." s), other, split_dots-append p s h)
      (ap (λ (x : String). x ∷ split_dots s)
        (cons-append c "" p ∙ ap (String.◌∷◌ c) (nil-append p)))

parse_channel-channel_text : (ch : Channel) → parse_channel (channel_text ch) ≡ ok ch
unfolding parse_channel trim_space to_lower channel_of_text
parse_channel-channel_text email = refl
parse_channel-channel_text _ = refl

parse_priority-priority_text : (pri : Priority) → parse_priority (priority_text pri) ≡ ok pri
unfolding parse_priority trim_space to_lower priority_of_text
parse_priority-priority_text low = refl
parse_priority-priority_text _ = refl

-- A channel's and a priority's text are read as they are.
parse_texts :
    (prefix subject : String) (ch : Channel) (pri : Priority)
    → parse_parts prefix subject (prefix ∷ channel_text ch ∷ priority_text pri ∷ []) ≡ ok (ch, pri)
unfolding parse_parts
parse_texts prefix subject ch pri =
    rw
      (
        (eq_iff prefix prefix).1 refl,
        parse_channel-channel_text ch,
        parse_priority-priority_text pri,
      )
      refl

split_subject :
    (prefix : String) (ch : Channel) (pri : Priority)
    → HasNoDot prefix
    → split_dots (notification_subject prefix ch pri)
      ≡ prefix ∷ channel_text ch ∷ priority_text pri ∷ []
unfolding notification_subject split_dots template
split_subject prefix email low h = split_dots-append prefix "email.low" h
split_subject prefix email normal h = split_dots-append prefix "email.normal" h
split_subject prefix email high h = split_dots-append prefix "email.high" h
split_subject prefix sms low h = split_dots-append prefix "sms.low" h
split_subject prefix sms normal h = split_dots-append prefix "sms.normal" h
split_subject prefix sms high h = split_dots-append prefix "sms.high" h
split_subject prefix push low h = split_dots-append prefix "push.low" h
split_subject prefix push normal h = split_dots-append prefix "push.normal" h
split_subject prefix push high h = split_dots-append prefix "push.high" h
split_subject prefix webhook low h = split_dots-append prefix "webhook.low" h
split_subject prefix webhook normal h = split_dots-append prefix "webhook.normal" h
split_subject prefix webhook high h = split_dots-append prefix "webhook.high" h

-- Under a prefix without a dot, the subject of a channel and a priority is parsed to that channel and that
-- priority.
pub parse_notification_subject-notification_subject :
    (prefix : String) (ch : Channel) (pri : Priority)
    → HasNoDot prefix
    → parse_notification_subject prefix (notification_subject prefix ch pri) ≡ ok (ch, pri)
unfolding parse_notification_subject
parse_notification_subject-notification_subject prefix ch pri h =
    rw (split_subject prefix ch pri h)
      (parse_texts prefix (notification_subject prefix ch pri) ch pri)
