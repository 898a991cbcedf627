-- ===== src/Session/RegistryTests.antt =====
-- A registry with two sessions, and its theorems at concrete inputs.
use gocalis.Common.{ℕ, ◌≡◌, refl, some, true, [], ◌∷◌, arith, if◌then◌else◌}
use gocalis.Common.Assoc.{lookup, IsUnique}
use gocalis.Session.{Session, new}
use gocalis.Session.Total.{after_feed}
use gocalis.Session.Calls.{new-IsValid}
use gocalis.Session.Registry.{
  Registry, IsValidRegistry, IsDistinct, is_among, sessions_of, feed_node, feed_node-fed,
}

-- Two sessions on node 2, one on node 3.
abbrev registry : Registry
registry = (2, (7, 0) ∷ (8, 1) ∷ []) ∷ (3, (7, 4) ∷ []) ∷ []

registry-ids : (node : ℕ) → IsUnique (sessions_of registry node)
unfolding IsUnique sessions_of lookup
registry-ids node = ground arith

registry-IsValid : IsValidRegistry registry
unfolding IsUnique lookup
registry-IsValid = record { nodes = (refl, (refl, tt)); ids = registry-ids }

feed_node-fed_example :
    (h' : ℕ → Session ℕ) × (feed_node registry (λ i. new i 2) 2 (5 ∷ []) true 9 ≡ some h')
    × ((i : ℕ)
        → h' i ≡ (
            if is_among (sessions_of registry 2) i
            then after_feed (new i 2) (5 ∷ []) true 9
            else new i 2))
unfolding IsDistinct is_among sessions_of lookup
feed_node-fed_example =
    feed_node-fed registry (λ i. new i 2) 2 (5 ∷ []) true 9 (λ i. new-IsValid i 2)
      (refl, (refl, tt))

abbrev session : Session ℕ
session = record (new 8 2) { id = 8; node_id = 2 }
