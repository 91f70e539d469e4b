-- ===== src/Ops/DeliveryDetail/Lookup.antt =====
-- What the lookup of web/src/components/ops/DeliveryDetail.tsx selects.
use Prim.Native.Char.{code}
use gocourier.Common.{
  ℕ, suc, zero, ◌≡◌, refl, inl, inr, Bool, true, false, ◌&&◌, ◌||◌, Option, none, some, List, [],
  ◌∷◌, String, if◌then◌else◌, is_empty, All, All-append, Bool-cases, arith,
}
use gocourier.Store.{AppState, Zustand, setters-frame}
use gocourier.Ops.Shared.{Toast}
use gocourier.Ops.DeliveryDetail.State.{
  is_hex, is_dash, is_version, is_variant, times, node_classes, variant_classes, version_classes,
  middle_classes, uuid_classes, matches, is_uuid, is_space, trim_start, trim_end, trim, look_up,
}

-- Every character of a text passes a test.
abbrev pub AllChars : (ℕ → Bool) → String → Type 0
AllChars p String.[] = Unit
AllChars p (String.◌∷◌ c s) = (p (code c) ≡ true) × AllChars p s

-- The text neither begins nor ends with white space.
abbrev pub begins_with_space : String → Bool
begins_with_space String.[] = false
begins_with_space (String.◌∷◌ c s) = is_space (code c)

abbrev pub ends_with_space : String → Bool
ends_with_space String.[] = false
ends_with_space (String.◌∷◌ c s) =
    let rest = ends_with_space s in if is_empty s then is_space (code c) else rest

trim_end-ends : (s : String) → ends_with_space (trim_end s) ≡ false
unfolding trim_end
trim_end-ends String.[] = refl
trim_end-ends (String.◌∷◌ c s) = ground (arith, trim_end-ends s)

trim_start-begins : (s : String) → begins_with_space (trim_start s) ≡ false
unfolding trim_start
trim_start-begins String.[] = refl
trim_start-begins (String.◌∷◌ c s) = ground (arith, trim_start-begins s)

trim_end-begins :
    (s : String) → begins_with_space s ≡ false → begins_with_space (trim_end s) ≡ false
unfolding trim_end
trim_end-begins String.[] h = refl
trim_end-begins (String.◌∷◌ c s) h = ground arith

and_true : (a b : Bool) → (a && b) ≡ true → (a ≡ true) × (b ≡ true)
and_true a b h = ground arith

matches-All :
    (q : ℕ → Bool) (ps : List (ℕ → Bool)) (s : String)
    → All (λ p. (c : ℕ) → p c ≡ true → q c ≡ true) ps
    → matches ps s ≡ true
    → AllChars q s
unfolding matches
matches-All q [] String.[] h m = tt
matches-All q [] (String.◌∷◌ c s) h m = cc
matches-All q (p ∷ ps) String.[] h m = tt
matches-All q (p ∷ ps) (String.◌∷◌ c s) h m =
    let both = and_true (p (code c)) (matches ps s) m in
    (h.0 (code c) both.0, matches-All q ps s h.1 both.1)

-- A character that may stand in a path without an escape.
unfoldable pub is_id_char : ℕ → Bool
is_id_char c = is_hex c || is_dash c

-- Every character that the class accepts is one of an id.
abbrev IsIdClass : (ℕ → Bool) → Type 0
IsIdClass p = (c : ℕ) → p c ≡ true → is_id_char c ≡ true

hex-IsIdClass : IsIdClass is_hex
unfolding is_id_char
hex-IsIdClass c h = ground arith

dash-IsIdClass : IsIdClass is_dash
unfolding is_id_char
dash-IsIdClass c h = ground arith

version-IsIdClass : IsIdClass is_version
unfolding is_id_char
version-IsIdClass c h = ground arith

variant-IsIdClass : IsIdClass is_variant
unfolding is_id_char
variant-IsIdClass c h = ground arith

times-IsIdClass : (n : ℕ) (p : ℕ → Bool) → IsIdClass p → All IsIdClass (times n p)
times-IsIdClass zero p h = tt
times-IsIdClass (suc n) p h = (h, times-IsIdClass n p h)

uuid_classes-IsIdClass : All IsIdClass uuid_classes
uuid_classes-IsIdClass =
    let hex : (n : ℕ) → All IsIdClass (times n is_hex) =
      λ n. times-IsIdClass n is_hex hex-IsIdClass in
    All-append IsIdClass (times 8 is_hex) middle_classes (hex 8) (
      All-append IsIdClass (is_dash ∷ times 4 is_hex) version_classes (dash-IsIdClass, hex 4)
        (All-append IsIdClass (is_dash ∷ is_version ∷ times 3 is_hex) variant_classes
          (dash-IsIdClass, (version-IsIdClass, hex 3))
          (All-append IsIdClass (is_dash ∷ is_variant ∷ times 3 is_hex) node_classes
            (dash-IsIdClass, (variant-IsIdClass, hex 3)) (dash-IsIdClass, hex 12))))

is_uuid-All : (s : String) → is_uuid s ≡ true → AllChars is_id_char s
unfolding is_uuid
is_uuid-All s h = matches-All is_id_char uuid_classes s uuid_classes-IsIdClass h

is_uuid-empty : (s : String) → is_empty s ≡ true → is_uuid s ≡ false
unfolding is_uuid matches
is_uuid-empty String.[] h = refl
is_uuid-empty (String.◌∷◌ c s) h = cc

-- What the lookup does with a text and the state of the store.
abbrev pub LooksUp : String → AppState → AppState × Option Toast → Type 0
LooksUp lookup s (t, none) =
    (t ≡ record s { selected_delivery_id = some (trim lookup) })
    × (is_uuid (trim lookup) ≡ true)
    × AllChars is_id_char (trim lookup)
LooksUp lookup s (t, some toast) = (t ≡ s) × (is_uuid (trim lookup) ≡ false)

-- The lookup selects the trimmed text and changes nothing else of the store, if that text is a UUID,
-- and then each character of the id is a hexadecimal digit or a dash; for any other text the store
-- stays as it is and a message is shown.
pub look_up-LooksUp :
    (z : Zustand) (lookup : String) (s : AppState) → LooksUp lookup s (look_up z lookup s)
unfolding look_up
look_up-LooksUp z lookup s = elim (Bool-cases (is_empty (trim lookup))) [
  | inl e ↦ rw e (refl, is_uuid-empty _ e)
  | inr e ↦ elim (Bool-cases (is_uuid (trim lookup))) [
    | inl m ↦ rw (e, m) ((setters-frame z s "" false _).2, m, is_uuid-All _ m)
    | inr m ↦ rw (e, m) (refl, m)
  ]
]

-- The trimmed text neither begins nor ends with white space.
pub trim-ends :
    (s : String) → (begins_with_space (trim s) ≡ false) × (ends_with_space (trim s) ≡ false)
unfolding trim
trim-ends s = (trim_end-begins _ (trim_start-begins s), trim_end-ends (trim_start s))
