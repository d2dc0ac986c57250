-- ===== src/Status/Converge.antt =====
-- The registry of subscribers (src/status.rs): who is served, and what a slow client gets.
use Prim.Native.String.{String}
use streamwm.Base.{◌≡◌, refl, true, some, List, [], ◌∷◌, map, retain, ap, inl, inr, Bool-cases, All}
use streamwm.Status.Subscribers.{Subscriber, Subscribers, offer, publish, take_latest}

republished :
    (a b : String) (cs : List Subscriber)
    → retain (λ c. c.alive) (map (offer b) (retain (λ c. c.alive) (map (offer a) cs)))
      ≡ retain (λ c. c.alive) (map (offer b) cs)
unfolding offer
republished a b [] = refl
republished a b (c ∷ cs) = elim (Bool-cases c.alive) [
  | inl live ↦ rw live (
      ap (λ vs. record { id = c.id; latest = some b; woken = true; alive = true } ∷ vs)
        (republished a b cs))
  | inr gone ↦ rw gone (republished a b cs)
]

-- A client that has not read a snapshot misses it when the next is published, and nothing else:
-- two publications leave the registry as the second alone does.
pub publish-publish : (a b : String) (r : Subscribers) → publish b (publish a r) ≡ publish b r
unfolding publish
publish-publish a b r = ap (λ cs. record r { clients = cs }) (republished a b r.clients)

-- After a publication every registered client is alive, and its next wakeup gives it that
-- snapshot.
pub publish-take_latest :
    (json : String) (r : Subscribers)
    → All (λ c. (c.alive ≡ true) × ((take_latest c).1 ≡ some json)) (publish json r).clients
unfolding publish offer take_latest
publish-take_latest json r = go r.clients
  where
    go :
        (cs : List Subscriber)
        → All
            (λ c. (c.alive ≡ true) × ((take_latest c).1 ≡ some json))
            (retain (λ c. c.alive) (map (offer json) cs))
    go [] = tt
    go (c ∷ cs) = elim (Bool-cases c.alive) [
      | inl live ↦ rw live ((refl, refl), go cs)
      | inr gone ↦ rw gone (go cs)
    ]
