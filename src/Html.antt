-- ===== src/Html.antt =====
-- The elements that a component returns, as React builds them: tags with attributes and children.
-- A tag in capitals is a component of web/src/components/ui or of an icon library, which the model
-- leaves as it is written. `Msg` is the type of what the handlers of a component do.
use gocourier.Common.{
  ℕ, ◌+◌, Bool, true, false, Option, List, [], ◌∷◌, ◌++◌, String, if◌then◌else◌, str_eq, map, ◌||◌,
  ◌&&◌, not, zero, suc,
}

pub data Attr (Msg : Type 0) : Type 0 where
  -- `name="value"` and `name={number}`
  str : String → String → Attr Msg
  num : String → ℕ → Attr Msg
  -- `name={boolean}`, and a name alone
  flag : String → Bool → Attr Msg
  -- `className={cn(…)}`, with the arguments of `cn`: `none` is a `false` among them
  cn : List (Option String) → Attr Msg
  -- handlers: of an event of which nothing is read, of a text and of a flag
  on : String → Msg → Attr Msg
  on_text : String → (String → Msg) → Attr Msg
  on_flag : String → (Bool → Msg) → Attr Msg

mutual
  pub data Node (Msg : Type 0) : Type 0 where
    -- `null` and `false`
    nothing : Node Msg
    text : String → Node Msg
    el : String → List (Attr Msg) → Nodes Msg → Node Msg
    -- an array of elements
    many : Nodes Msg → Node Msg
    -- an expression that throws while the component is rendered
    throwing : Node Msg
    -- a component of the dashboard, where the message names it with its props
    part : Msg → Node Msg

  pub data Nodes (Msg : Type 0) : Type 0 where
    nil : Nodes Msg
    cons : Node Msg → Nodes Msg → Nodes Msg

module _ {Msg : Type 0} where
  abbrev pub nodes : List (Node Msg) → Nodes Msg
  nodes [] = nil
  nodes (x ∷ xs) = cons x (nodes xs)

  -- `<tag …>…</tag>`
  abbrev pub h : String → List (Attr Msg) → List (Node Msg) → Node Msg
  h tag attrs children = el tag attrs (nodes children)

  -- `{test && …}`
  abbrev pub when : Bool → Node Msg → Node Msg
  when true x = x
  when false x = nothing

  -- `{xs.map(f)}`
  abbrev pub each {ℓ} : {A : Type ℓ} → (A → Node Msg) → List A → Node Msg
  each f xs = many (nodes (map f xs))

  -- The texts of a tree, in order, and the messages that a click on it can send: a disabled element
  -- has none of its own, and a click on a submit button of a form sends the form's.
  abbrev pub is_disabled : List (Attr Msg) → Bool
  is_disabled [] = false
  is_disabled (flag name b ∷ attrs) = (str_eq name "disabled" && b) || is_disabled attrs
  is_disabled (_ ∷ attrs) = is_disabled attrs

  abbrev pub on_click : List (Attr Msg) → List Msg
  on_click [] = []
  on_click (on name m ∷ attrs) =
      if str_eq name "onClick" then m ∷ on_click attrs else on_click attrs
  on_click (_ ∷ attrs) = on_click attrs

  abbrev pub on_submit : List (Attr Msg) → List Msg
  on_submit [] = []
  on_submit (on name m ∷ attrs) =
      if str_eq name "onSubmit" then m ∷ on_submit attrs else on_submit attrs
  on_submit (_ ∷ attrs) = on_submit attrs

  abbrev pub is_submit : List (Attr Msg) → Bool
  is_submit [] = false
  is_submit (str name v ∷ attrs) = (str_eq name "type" && str_eq v "submit") || is_submit attrs
  is_submit (_ ∷ attrs) = is_submit attrs

  -- What the submit buttons of a form send, so many of them.
  abbrev pub submitted : List Msg → ℕ → List Msg
  submitted [] n = []
  submitted (m ∷ ms) zero = []
  submitted (m ∷ ms) (suc n) = m ∷ submitted (m ∷ ms) n

  abbrev pub own_clicks : List (Attr Msg) → List Msg
  own_clicks attrs = if is_disabled attrs then [] else on_click attrs

unfoldable mutual
  -- How many submit buttons of a tree can be clicked.
  pub submits : {Msg : Type 0} → Node Msg → ℕ
  submits nothing = 0
  submits throwing = 0
  submits (text s) = 0
  submits (el tag attrs xs) =
      (if is_submit attrs && not (is_disabled attrs) then 1 else 0) + submits_all xs
  submits (many xs) = submits_all xs
  submits (part m) = 0

  pub submits_all : {Msg : Type 0} → Nodes Msg → ℕ
  submits_all nil = 0
  submits_all (cons x xs) = submits x + submits_all xs

unfoldable mutual
  pub clicks : {Msg : Type 0} → Node Msg → List Msg
  clicks nothing = []
  clicks throwing = []
  clicks (text s) = []
  clicks (el tag attrs xs) =
      own_clicks attrs ++ submitted (on_submit attrs) (submits_all xs) ++ clicks_all xs
  clicks (many xs) = clicks_all xs
  clicks (part m) = []

  pub clicks_all : {Msg : Type 0} → Nodes Msg → List Msg
  clicks_all nil = []
  clicks_all (cons x xs) = clicks x ++ clicks_all xs

unfoldable mutual
  pub texts : {Msg : Type 0} → Node Msg → List String
  texts nothing = []
  texts throwing = []
  texts (text s) = s ∷ []
  texts (el tag attrs xs) = texts_all xs
  texts (many xs) = texts_all xs
  texts (part m) = []

  pub texts_all : {Msg : Type 0} → Nodes Msg → List String
  texts_all nil = []
  texts_all (cons x xs) = texts x ++ texts_all xs

unfoldable mutual
  -- How many elements with a tag a tree has.
  pub tags : {Msg : Type 0} → String → Node Msg → ℕ
  tags t nothing = 0
  tags t throwing = 0
  tags t (text s) = 0
  tags t (el tag attrs xs) = (if str_eq tag t then 1 else 0) + tags_all t xs
  tags t (many xs) = tags_all t xs
  tags t (part m) = 0

  pub tags_all : {Msg : Type 0} → String → Nodes Msg → ℕ
  tags_all t nil = 0
  tags_all t (cons x xs) = tags t x + tags_all t xs

unfoldable mutual
  -- Whether rendering a tree throws.
  pub throws : {Msg : Type 0} → Node Msg → Bool
  throws nothing = false
  throws throwing = true
  throws (text s) = false
  throws (el tag attrs xs) = throws_all xs
  throws (many xs) = throws_all xs
  throws (part m) = false

  pub throws_all : {Msg : Type 0} → Nodes Msg → Bool
  throws_all nil = false
  throws_all (cons x xs) = throws x || throws_all xs
