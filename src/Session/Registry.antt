-- ===== src/Session/Registry.antt =====
-- internal/session/registry.go: the sessions that are active on each node. A session is a pointer into
-- a heap, and the registry maps a node and a session's identifier to that pointer. A loop over a map
-- goes in the order of the list.
use gocalis.Common.{
  ℕ, ◌≡◌, refl, ◌∙◌, subst, ap, Bool, true, false, Option, none, some, List, [], ◌∷◌, arith,
  if◌then◌else◌, length, ◌==◌, ◌&&◌, if_both, Option-cases, inl, inr,
}
use gocalis.Common.Assoc.{lookup, insert, delete, lookup-insert, lookup-delete, IsUnique}
use gocalis.Session.{Session, fed, blocked, panicked, feed_pcm}
use gocalis.Session.Total.{IsValid, after_feed, feed_pcm-fed, after_feed-IsValid}

abbrev pub Heap : Type 0 → Type 0
Heap A = ℕ → Session A

-- nodeID -> sessionID -> session
abbrev pub Registry : Type 0
Registry = List (ℕ × List (ℕ × ℕ))

-- `r.byNode[node]`, where a missing node is the nil map.
unfoldable pub sessions_of : Registry → ℕ → List (ℕ × ℕ)
sessions_of r node = elim (lookup node r) [ none ↦ [] | some m ↦ m ]

drop_empty : Registry → ℕ → List (ℕ × ℕ) → Registry
drop_empty r node [] = delete node r
drop_empty r node (e ∷ m) = insert node (e ∷ m) r

pub active_count : Registry → ℕ → ℕ
unfolding sessions_of
active_count r node = length (sessions_of r node)

-- Whether a pointer is among the sessions of a node.
unfoldable pub is_among : List (ℕ × ℕ) → ℕ → Bool
is_among [] i = false
is_among ((id, ref) ∷ m) i = if i == ref then true else is_among m i

-- No session stands twice.
unfoldable pub IsDistinct : List (ℕ × ℕ) → Type 0
IsDistinct [] = Unit
IsDistinct ((id, ref) ∷ m) = (is_among m ref ≡ false) × IsDistinct m

module _ {A : Type 0} where
  pub add : Registry → Session A → ℕ → Registry
  add r s ref = insert s.node_id (insert s.id ref (sessions_of r s.node_id)) r

  pub remove : Registry → Session A → Registry
  unfolding drop_empty
  remove r s = elim (lookup s.node_id r) [
    | none ↦ r
    | some m ↦ drop_empty r s.node_id (delete s.id m)
  ]

  abbrev write : Heap A → ℕ → Session A → Heap A
  write h ref s = λ i. if i == ref then s else h i

  -- One session of the loop.
  feed_one : Heap A → ℕ → List A → Bool → ℕ → Option (Heap A)
  feed_one h ref samples speech now = elim (feed_pcm (h ref) samples speech now) [
    | fed s ↦ some (write h ref s)
    | blocked ↦ none
    | panicked ↦ none
  ]

  and_each : Option (Heap A) → (Heap A → Option (Heap A)) → Option (Heap A)
  and_each none k = none
  and_each (some h) k = k h

  feed_each : List (ℕ × ℕ) → List A → Bool → ℕ → Heap A → Option (Heap A)
  unfolding and_each
  feed_each [] samples speech now h = some h
  feed_each ((id, ref) ∷ m) samples speech now h =
      and_each (feed_one h ref samples speech now) (feed_each m samples speech now)

  -- FeedPCM; Feed is this with `speech` true. `none` is a session that blocks or panics.
  pub feed_node : Registry → Heap A → ℕ → List A → Bool → ℕ → Option (Heap A)
  unfolding feed_each
  feed_node r h node samples speech now = feed_each (sessions_of r node) samples speech now h

  feed_one-fed :
      (h : Heap A) (ref : ℕ) (samples : List A) (speech : Bool) (now : ℕ)
      → IsValid (h ref)
      → feed_one h ref samples speech now
        ≡ some (write h ref (after_feed (h ref) samples speech now))
  unfolding feed_one
  feed_one-fed h ref samples speech now v = rw (feed_pcm-fed (h ref) samples speech now v, feed_one)

  -- A session that has been fed is not fed again, since it does not stand in the rest of the loop.
  fed_at :
      (F : Session A → Session A) (h : Heap A) (ref i : ℕ) (b : Bool)
      → (i ≡ ref → b ≡ false)
      → (if b then F (write h ref (F (h ref)) i) else write h ref (F (h ref)) i)
        ≡ (if (if i == ref then true else b) then F (h i) else h i)
  fed_at F h ref i b later = ground arith

  module _ (samples : List A) (speech : Bool) (now : ℕ) where
    write-IsValid :
        (h : Heap A) (ref : ℕ)
        → ((i : ℕ) → IsValid (h i))
        → (i : ℕ) → IsValid (write h ref (after_feed (h ref) samples speech now) i)
    write-IsValid h ref v i =
        if_both IsValid (i == ref) (after_feed-IsValid (h ref) samples speech now (v ref)) (v i)

    feed_each-fed :
        (m : List (ℕ × ℕ)) (h : Heap A)
        → ((i : ℕ) → IsValid (h i))
        → IsDistinct m
        → (h' : Heap A) × (feed_each m samples speech now h ≡ some h')
          × ((i : ℕ) → h' i ≡ (if is_among m i then after_feed (h i) samples speech now else h i))
    unfolding feed_each is_among IsDistinct
    feed_each-fed [] h v d = (h, refl, λ i. refl)
    feed_each-fed ((id, ref) ∷ m) h v d =
        let h1 = write h ref (after_feed (h ref) samples speech now) in
        let (h', e, at) = feed_each-fed m h1 (write-IsValid h ref v) d.1 in
        (
          h',
          rw (feed_one-fed h ref samples speech now (v ref), e),
          λ i.
              at i
              ∙ fed_at (λ t. after_feed t samples speech now) h ref i (is_among m i)
                  (λ same. ap (is_among m) same ∙ d.0),
        )

  -- A feed of a node comes back; it feeds every session that is active on the node once and touches
  -- no other, in whatever order the loop over the map goes.
  pub feed_node-fed :
      (r : Registry) (h : Heap A) (node : ℕ) (samples : List A) (speech : Bool) (now : ℕ)
      → ((i : ℕ) → IsValid (h i))
      → IsDistinct (sessions_of r node)
      → (h' : Heap A) × (feed_node r h node samples speech now ≡ some h')
        × ((i : ℕ)
            → h' i ≡ (
                if is_among (sessions_of r node) i
                then after_feed (h i) samples speech now
                else h i))
  unfolding feed_node
  feed_node-fed r h node samples speech now v d =
      feed_each-fed samples speech now (sessions_of r node) h v d

-- The session that the registry finds under a node and an identifier.
pub find : Registry → ℕ → ℕ → Option ℕ
find r node id = lookup id (sessions_of r node)

-- Each map of the registry has each key once.
pub record IsValidRegistry (r : Registry) : Type 0 where
  pub nodes : IsUnique r
  pub ids : (node : ℕ) → IsUnique (sessions_of r node)

module _ {A : Type 0} (s : Session A) where
  sessions_of-add :
      (r : Registry) (ref node : ℕ)
      → sessions_of (add r s ref) node ≡ (
          if s.node_id == node
          then insert s.id ref (sessions_of r s.node_id)
          else sessions_of r node)
  unfolding add sessions_of
  sessions_of-add r ref node =
      ground (arith, lookup-insert s.node_id node (insert s.id ref (sessions_of r s.node_id)) r)

  -- After Add a session is found under its node and identifier, and all others as before.
  pub find-add :
      (r : Registry) (ref node id : ℕ)
      → find (add r s ref) node id
        ≡ (if s.node_id == node && s.id == id then some ref else find r node id)
  unfolding find
  find-add r ref node id =
      ground
        (arith, sessions_of-add r ref node, lookup-insert s.id id ref (sessions_of r s.node_id))

  drop_empty-lookup :
      (r : Registry) (m : List (ℕ × ℕ)) (node id : ℕ)
      → IsUnique r
      → lookup id (sessions_of (drop_empty r s.node_id m) node)
        ≡ (if s.node_id == node then lookup id m else lookup id (sessions_of r node))
  unfolding drop_empty sessions_of lookup
  drop_empty-lookup r [] node id u = ground (arith, lookup-delete s.node_id node r u)
  drop_empty-lookup r (e ∷ m) node id u = ground (arith, lookup-insert s.node_id node (e ∷ m) r)

  remove_missing :
      (r : Registry) (node id : ℕ)
      → lookup s.node_id r ≡ none
      → find (remove r s) node id
        ≡ (if s.node_id == node && s.id == id then none else find r node id)
  unfolding find remove sessions_of lookup
  remove_missing r node id e = ground arith

  remove_present :
      (r : Registry) (m : List (ℕ × ℕ)) (node id : ℕ)
      → IsUnique r
      → lookup s.node_id r ≡ some m
      → IsUnique m
      → find (remove r s) node id
        ≡ (if s.node_id == node && s.id == id then none else find r node id)
  unfolding find remove sessions_of
  remove_present r m node id u e w =
      ground (arith, drop_empty-lookup r (delete s.id m) node id u, lookup-delete s.id id m w)

  sessions_of-some :
      (r : Registry) (m : List (ℕ × ℕ)) → lookup s.node_id r ≡ some m → sessions_of r s.node_id ≡ m
  unfolding sessions_of
  sessions_of-some r m e = ground arith

  -- After Remove nothing is found under the session's node and identifier, and all others as before.
  pub find-remove :
      (r : Registry) (node id : ℕ)
      → IsValidRegistry r
      → find (remove r s) node id
        ≡ (if s.node_id == node && s.id == id then none else find r node id)
  find-remove r node id v = elim (Option-cases (lookup s.node_id r)) [
    | inl e ↦ remove_missing r node id e
    | inr (m, e) ↦
        remove_present r m node id v.nodes e
          (subst (λ (l : List (ℕ × ℕ)). IsUnique l) (sessions_of-some r m e) (v.ids s.node_id))
  ]
