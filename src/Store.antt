-- ===== src/Store.antt =====
-- web/src/stores/appStore.ts: the state that the components share.
-- `create` and `persist` are zustand's: what they do with the fields that a call of `set` gives is a
-- parameter, with the merge that zustand documents as its law.
use gocourier.Common.{◌≡◌, refl, Bool, true, Option, none, some, String, ◌or_else◌}

pub record AppState : Type 0 where
  pub api_key : String
  pub auto_refresh : Bool
  pub selected_delivery_id : Option String

-- `Partial<AppState>`: the fields that are given.
pub record PartialState : Type 0 where
  pub api_key : Option String
  pub auto_refresh : Option Bool
  pub selected_delivery_id : Option (Option String)

abbrev pub nothing_given : PartialState
nothing_given = record { api_key = none; auto_refresh = none; selected_delivery_id = none }

unfoldable pub initial_state : AppState
initial_state = record { api_key = "dev-api-key"; auto_refresh = true; selected_delivery_id = none }

-- What the storage keeps of a state.
unfoldable pub partialize : AppState → PartialState
partialize s = record nothing_given { api_key = some s.api_key; auto_refresh = some s.auto_refresh }

-- The merge that zustand documents: given fields replace, the others stay.
abbrev pub zustand_merge : AppState → PartialState → AppState
zustand_merge s p = record {
  api_key = p.api_key or_else s.api_key;
  auto_refresh = p.auto_refresh or_else s.auto_refresh;
  selected_delivery_id = p.selected_delivery_id or_else s.selected_delivery_id;
}

-- zustand: `merge` puts the given fields over a state, for `set` and for a state that is read back.
pub record Zustand : Type 0 where
  pub merge : AppState → PartialState → AppState
  pub merge_api_key :
      (s : AppState) (p : PartialState) → (merge s p).api_key ≡ (p.api_key or_else s.api_key)
  pub merge_auto_refresh :
      (s : AppState) (p : PartialState)
      → (merge s p).auto_refresh ≡ (p.auto_refresh or_else s.auto_refresh)
  pub merge_selected :
      (s : AppState) (p : PartialState)
      → (merge s p).selected_delivery_id ≡ (p.selected_delivery_id or_else s.selected_delivery_id)

merge-eq : (z : Zustand) (s : AppState) (p : PartialState) → z.merge s p ≡ zustand_merge s p
merge-eq z s p = λ i. record {
  api_key = z.merge_api_key s p i;
  auto_refresh = z.merge_auto_refresh s p i;
  selected_delivery_id = z.merge_selected s p i;
}

module _ (z : Zustand) where
  unfoldable pub set_api_key : String → AppState → AppState
  set_api_key api_key s = z.merge s (record nothing_given { api_key = some api_key })

  unfoldable pub set_auto_refresh : Bool → AppState → AppState
  set_auto_refresh auto_refresh s =
      z.merge s (record nothing_given { auto_refresh = some auto_refresh })

  unfoldable pub set_selected_delivery_id : Option String → AppState → AppState
  set_selected_delivery_id id s =
      z.merge s (record nothing_given { selected_delivery_id = some id })

  -- A page that is loaded again: the state of the source, with what the storage kept.
  unfoldable pub reload : AppState → AppState
  reload s = z.merge initial_state (partialize s)

  -- Each setter changes its own field and no other.
  pub setters-frame :
      (s : AppState) (key : String) (refresh : Bool) (id : Option String)
      → (set_api_key key s ≡ record s { api_key = key })
        × (set_auto_refresh refresh s ≡ record s { auto_refresh = refresh })
        × (set_selected_delivery_id id s ≡ record s { selected_delivery_id = id })
  unfolding set_api_key set_auto_refresh set_selected_delivery_id
  setters-frame s key refresh id = (merge-eq z s _, merge-eq z s _, merge-eq z s _)

  -- After a reload the key and the refresh setting are those before it, and no delivery is
  -- selected.
  pub reload-keeps : (s : AppState) → reload s ≡ record s { selected_delivery_id = none }
  unfolding reload partialize initial_state
  reload-keeps s = merge-eq z _ _

abbrev pub zustand : Zustand
zustand = record {
  merge = zustand_merge;
  merge_api_key = λ s p. refl;
  merge_auto_refresh = λ s p. refl;
  merge_selected = λ s p. refl;
}
