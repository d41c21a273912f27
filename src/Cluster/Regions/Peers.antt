-- ===== src/Cluster/Regions/Peers.antt =====
-- The peers of a region in the cluster.
use mileva_db.Prelude.{ℕ, ◌≡◌, ◌≢◌, List, [], ◌∷◌, ◌==◌, ◌⊎◌, if◌then◌else◌, All}
use mileva_db.Cluster.Region.{Peer, Region}
use mileva_db.Cluster.Stores.{Cluster}

-- No id stands twice.
abbrev pub HaveOwnIds : List Peer → Type 0
HaveOwnIds [] = Unit
HaveOwnIds (p ∷ ps) = All (λ q. q.id ≢ p.id) ps × HaveOwnIds ps

-- The peers with another id than `id`, in order.
abbrev pub peers_but : ℕ → List Peer → List Peer
peers_but id [] = []
peers_but id (p ∷ ps) = if p.id == id then peers_but id ps else p ∷ peers_but id ps

abbrev pub Among : Peer → List Peer → Type 0
Among p [] = ⊥
Among p (q ∷ qs) = (p ≡ q) ⊎ Among p qs
