-- ===== src/Ops/LoadTestPanel/Selection.antt =====
-- What a toggle of a channel does to the selection of web/src/components/ops/LoadTestPanel.tsx.
use gocourier.Common.{
  ◌≡◌, refl, Bool, true, false, not, ◌&&◌, ◌||◌, List, [], ◌∷◌, ◌++◌, arith, any, filter,
  if◌then◌else◌, Bool-cases, inl, inr, ap, sym,
}
use gocourier.Api.Types.{Channel, channel_eq, channel_eq_iff}
use gocourier.Ops.Shared.{is_nil}
use gocourier.Ops.LoadTestPanel.State.{has_channel, to_set_from, toggled, toggle_selection}

-- Whether the selection has another channel than the one given.
abbrev pub has_other : List Channel → Channel → Bool
has_other cs c = any (λ x. not (channel_eq x c)) cs

has_channel-append :
    (xs ys : List Channel) (c : Channel)
    → has_channel (xs ++ ys) c ≡ (has_channel xs c || has_channel ys c)
unfolding has_channel
has_channel-append [] ys c = refl
has_channel-append (x ∷ xs) ys c = ground (arith, has_channel-append xs ys c)

channel_eq_trans : (a b c : Channel) → channel_eq a b ≡ true → channel_eq b c ≡ channel_eq a c
channel_eq_trans a b c h = ap (λ x. channel_eq x c) (sym ((channel_eq_iff a b).0 h))

-- A channel that the list has already adds nothing.
has_channel-absorb :
    (xs : List Channel) (x c : Channel)
    → has_channel xs x ≡ true
    → channel_eq x c ≡ true
    → has_channel xs c ≡ true
has_channel-absorb xs x c h e = let same : x ≡ c = (channel_eq_iff x c).0 e in cc

to_set-has :
    (seen xs : List Channel) (c : Channel)
    → has_channel (to_set_from seen xs) c ≡ (has_channel seen c || has_channel xs c)
unfolding to_set_from has_channel
to_set-has seen [] c = ground arith
to_set-has seen (x ∷ xs) c = elim (Bool-cases (has_channel seen x)) [
  | inl held ↦ rw held (ground (arith, to_set-has seen xs c, has_channel-absorb seen x c held))
  | inr new ↦
      rw new (ground (arith, to_set-has (seen ++ x ∷ []) xs c, has_channel-append seen (x ∷ []) c))
]

dropped-has :
    (xs : List Channel) (ch c : Channel)
    → has_channel (filter (λ x. not (channel_eq x ch)) xs) c
      ≡ (has_channel xs c && not (channel_eq c ch))
unfolding has_channel
dropped-has [] ch c = refl
dropped-has (x ∷ xs) ch c = ground (arith, dropped-has xs ch c, channel_eq_trans x c ch)

dropped-is_nil :
    (xs : List Channel) (ch : Channel)
    → is_nil (filter (λ x. not (channel_eq x ch)) xs) ≡ not (has_other xs ch)
dropped-is_nil [] ch = refl
dropped-is_nil (x ∷ xs) ch = ground (arith, dropped-is_nil xs ch)

has_channel-is_nil : (xs : List Channel) (c : Channel) → has_channel xs c ≡ true → is_nil xs ≡ false
unfolding has_channel
has_channel-is_nil [] c h = cc
has_channel-is_nil (x ∷ xs) c h = refl

channel_eq_refl : (c : Channel) → channel_eq c c ≡ true
channel_eq_refl c = (channel_eq_iff c c).1 refl

added-is_nil : (xs : List Channel) (ch : Channel) → is_nil (to_set_from [] (xs ++ ch ∷ [])) ≡ false
unfolding has_channel
added-is_nil xs ch = has_channel-is_nil _ ch (
    ground (
      arith,
      to_set-has [] (xs ++ ch ∷ []) ch,
      has_channel-append xs (ch ∷ []) ch,
      channel_eq_refl ch,
    ))

-- A channel that is checked joins the selection and the others stay; one that is unchecked leaves it,
-- except where it is the only one: then it alone is selected.
pub toggle_selection-has :
    (selected : List Channel) (channel c : Channel) (checked : Bool)
    → has_channel (toggle_selection selected channel checked) c ≡ (
        if checked
        then has_channel selected c || channel_eq channel c
        else if has_other selected channel
        then has_channel selected c && not (channel_eq c channel)
        else channel_eq channel c)
unfolding toggle_selection toggled has_channel
toggle_selection-has selected channel c true = rw (added-is_nil selected channel) (
    ground (
      arith,
      to_set-has [] (selected ++ channel ∷ []) c,
      has_channel-append selected (channel ∷ []) c,
    ))
toggle_selection-has selected channel c false = elim (Bool-cases (has_other selected channel)) [
  | inl others ↦ ground (arith, dropped-is_nil selected channel, dropped-has selected channel c)
  | inr alone ↦ ground (arith, dropped-is_nil selected channel)
]
