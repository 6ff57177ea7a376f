-- ===== src/Orchestrator/Control/Merged.antt =====
-- The map of the peers' configurations after a write, an update and a removal.
use h3llo.Base.{
  List, [], ◌∷◌, ◌++◌, Option, none, some, Bool, not, String, str_eq, eq_iff, ◌≡◌, refl, sym, ap,
  ◌∙◌, subst, if◌then◌else◌, map, retain, Memᴰ, Bool-cases, inl, inr,
}
use mathlib.Core.List.Memᴰ.{head, tail}
use h3llo.Config.{Peer}
use h3llo.Pool.{PeerEntry, new_entry}
use h3llo.Peers.{PeerMap, get, modify, remove, peer_configs}
use h3llo.Orchestrator.Control.{put, keyed_configs, merge, values, upsert_found, upsert, collect}

-- The map from ids to configurations, under each write.
module _ {K A B : Type 0} (same : K → K → Bool) (g : A → B) where
  map-put :
      (entries : List (K × A)) (key : K) (a : A)
      → map (λ (p : K × A). (p.0, g p.1)) (put same entries key a)
        ≡ put same (map (λ (p : K × A). (p.0, g p.1)) entries) key (g a)
  unfolding put
  map-put [] key a = refl
  map-put ((k, b) ∷ entries) key a = elim (Bool-cases (same k key)) [
    | inl t ↦ rw t refl
    | inr f ↦ rw f (ap (λ rest. (k, g b) ∷ rest) (map-put entries key a))
  ]

pub values-keyed_configs :
    {Net Tx : Type 0} (peers : PeerMap Net Tx) → values (keyed_configs peers) ≡ peer_configs peers
values-keyed_configs [] = refl
values-keyed_configs (p ∷ peers) = ap (λ rest. p.1.config ∷ rest) (values-keyed_configs peers)

module _ {Net Tx : Type 0} where
  -- A write that keeps the configuration.
  pub keyed_configs-modify :
      (peers : PeerMap Net Tx) (id : String) (f : PeerEntry Net Tx → PeerEntry Net Tx)
      → ((e : PeerEntry Net Tx) → (f e).config ≡ e.config)
      → keyed_configs (modify peers id f) ≡ keyed_configs peers
  unfolding modify
  keyed_configs-modify [] id f keeps = refl
  keyed_configs-modify ((key, e) ∷ peers) id f keeps = elim (Bool-cases (str_eq key id)) [
    | inl t ↦ rw t (ap (λ c. (key, c) ∷ keyed_configs peers) (keeps e))
    | inr n ↦ rw n (ap (λ rest. (key, e.config) ∷ rest) (keyed_configs-modify peers id f keeps))
  ]

  -- A write that puts an entry with the same configuration in the place of the one that is found.
  pub keyed_configs-replace :
      (peers : PeerMap Net Tx) (id : String) (e e' : PeerEntry Net Tx)
      → get peers id ≡ some e
      → e'.config ≡ e.config
      → keyed_configs (modify peers id (λ _. e')) ≡ keyed_configs peers
  unfolding modify get
  keyed_configs-replace [] id e e' found keeps = cc
  keyed_configs-replace ((key, first) ∷ peers) id e e' found keeps =
      elim (Bool-cases (str_eq key id)) [
        | inl t ↦
            let here = subst (λ b. (if b then some first else get peers id) ≡ some e) t found in
            let same : first ≡ e = cc in
            rw t (
              ap (λ c. (key, c) ∷ keyed_configs peers)
                (keeps ∙ sym (ap (λ (x : PeerEntry Net Tx). x.config) same)))
        | inr n ↦
            let below = subst (λ b. (if b then some first else get peers id) ≡ some e) n found in
            rw n (
              ap (λ rest. (key, first.config) ∷ rest)
                (keyed_configs-replace peers id e e' below keeps))
      ]

  -- A write of a configuration to an entry that is found.
  keyed_configs-assign :
      (peers : PeerMap Net Tx) (id : String) (config : Peer Net) (e : PeerEntry Net Tx)
      → get peers id ≡ some e
      → keyed_configs (modify peers id (λ x. record x { config = config }))
        ≡ put str_eq (keyed_configs peers) id config
  unfolding modify get put
  keyed_configs-assign [] id config e found = cc
  keyed_configs-assign ((key, first) ∷ peers) id config e found =
      elim (Bool-cases (str_eq key id)) [
        | inl t ↦ rw t refl
        | inr n ↦
            let below = subst (λ b. (if b then some first else get peers id) ≡ some e) n found in
            rw n (
              ap (λ rest. (key, first.config) ∷ rest)
                (keyed_configs-assign peers id config e below))
      ]

  keyed_configs-upsert_found :
      (peers : PeerMap Net Tx) (peer : Peer Net) (o : Option (PeerEntry Net Tx))
      → get peers peer.id ≡ o
      → keyed_configs (upsert_found peers peer o) ≡ put str_eq (keyed_configs peers) peer.id peer
  keyed_configs-upsert_found peers peer none found =
      map-put str_eq (λ (e : PeerEntry Net Tx). e.config) peers peer.id (new_entry peer)
  keyed_configs-upsert_found peers peer (some e) found =
      keyed_configs-assign peers peer.id peer e found

  -- What is written is what was validated.
  pub keyed_configs-upsert :
      (peers : PeerMap Net Tx) (new_peers : List (Peer Net))
      → keyed_configs (upsert peers new_peers) ≡ merge (keyed_configs peers) new_peers
  unfolding upsert merge
  keyed_configs-upsert peers [] = refl
  keyed_configs-upsert peers (peer ∷ rest) =
      keyed_configs-upsert (upsert_found peers peer (get peers peer.id)) rest
      ∙ ap (λ ks. merge ks rest) (keyed_configs-upsert_found peers peer (get peers peer.id) refl)

  pub keyed_configs-collect :
      (peers : PeerMap Net Tx) (configs : List (Peer Net))
      → keyed_configs (collect peers configs) ≡ merge (keyed_configs peers) configs
  unfolding collect merge
  keyed_configs-collect peers [] = refl
  keyed_configs-collect peers (peer ∷ rest) =
      keyed_configs-collect (put str_eq peers peer.id (new_entry peer)) rest
      ∙ ap (λ ks. merge ks rest)
          (map-put str_eq (λ (e : PeerEntry Net Tx). e.config) peers peer.id (new_entry peer))

  pub keyed_configs-remove :
      (peers : PeerMap Net Tx) (id : String)
      → keyed_configs (remove peers id)
        ≡ retain (λ (p : String × Peer Net). not (str_eq p.0 id)) (keyed_configs peers)
  unfolding remove
  keyed_configs-remove [] id = refl
  keyed_configs-remove ((key, e) ∷ peers) id = elim (Bool-cases (str_eq key id)) [
    | inl t ↦ rw t (keyed_configs-remove peers id)
    | inr n ↦ rw n (ap (λ rest. (key, e.config) ∷ rest) (keyed_configs-remove peers id))
  ]

-- Peers with new ids go to the end of the map.
pub put-fresh :
    {Net : Type 0} (ks : List (String × Peer Net)) (id : String) (peer : Peer Net)
    → ¬ Memᴰ id (map (λ (p : String × Peer Net). p.0) ks)
    → put str_eq ks id peer ≡ ks ++ (id, peer) ∷ []
unfolding put
put-fresh [] id peer fresh = refl
put-fresh ((key, other) ∷ ks) id peer fresh = elim (Bool-cases (str_eq key id)) [
  | inl t ↦ absurd (fresh (head (sym ((eq_iff key id).0 t))))
  | inr n ↦ rw n (ap (λ rest. (key, other) ∷ rest) (put-fresh ks id peer (λ m. fresh (tail m))))
]
