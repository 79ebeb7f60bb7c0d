-- ===== src/Coord/Presence/Lookup.antt =====
-- Endpoints that a lookup may tell.
use ghal_bol.Common.{◌≡◌, refl, ap, inl, inr, true, List, [], ◌∷◌, All, eq_of_text, Bool-cases}
use ghal_bol.Coord.Presence.{PeerEndpoint, is_wan_dialable_endpoint, filter_wan_presence_endpoints}

-- Every endpoint can be dialled from outside.
abbrev pub Dialable : List PeerEndpoint → Type 0
Dialable es = All (λ e. is_wan_dialable_endpoint e ≡ true) es

pub filter-Dialable : (es : List PeerEndpoint) → Dialable (filter_wan_presence_endpoints es)
filter-Dialable [] = tt
filter-Dialable (e ∷ es) = elim (Bool-cases (is_wan_dialable_endpoint e)) [
  | inl yes' ↦ rw yes' (yes', filter-Dialable es)
  | inr no' ↦ rw no' (filter-Dialable es)
]

-- Endpoints that are filtered already stay.
pub filter_again : (es : List PeerEndpoint) → Dialable es → filter_wan_presence_endpoints es ≡ es
filter_again [] d = refl
filter_again (e ∷ es) d = rw (d.0) (ap (◌∷◌ e) (filter_again es d.1))
