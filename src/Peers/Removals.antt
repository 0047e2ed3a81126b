-- ===== src/Peers/Removals.antt =====
-- What a picker does with the deletions that etcd reports. The value of the key of such an event is
-- empty, since the watch does not ask for the previous one.
use my_cache_go.Common.{
  ℕ, ◌≡◌, ◌≢◌, refl, ap, subst, sym, ◌∙◌, List, [], ◌∷◌, Option, none, some, Bool, Bool-cases, inl,
  inr, ite, if_neg, All, Key, key_dec, arith,
}
use my_cache_go.Common.Dict.{find, find-delete, find-insert}
use my_cache_go.HashRing as HashRing
use my_cache_go.HashRing.{HashRing, Config}
use my_cache_go.HashRing.Absent.{replicas, replicas-add, replicas-unnamed}
use my_cache_go.Peers.{
  ClientPicker, Event, put, delete, or_same, set, remove, handle_event, handle_watch_events,
}

-- An event as etcd sends it to this watch.
abbrev pub AsSent : Event → Type 0
AsSent (put addr) = Unit
AsSent (delete addr) = addr ≡ []

module _ (hash : Key → ℕ) (c : Config) (reachable : Key → Bool) (b : ℕ) (name client : Key) where
  -- The picker has this client for the node, and the ring this many virtual nodes.
  pub record Keeps (n : ℕ) (p : ClientPicker) : Type 0 where
    pub known : find key_dec (b ∷ name) p.clients ≡ some client
    pub placed : replicas p.cons_hash (b ∷ name) ≡ n

  replicas-other :
      (r : HashRing) (addr : Key) (o : Option HashRing)
      → HashRing.add hash c r (addr ∷ []) ≡ o
      → addr ≢ b ∷ name
      → replicas (or_same r o) (b ∷ name) ≡ replicas r (b ∷ name)
  replicas-other r addr none e ne = refl
  replicas-other r [] (some r') e ne = replicas-unnamed hash c r r' (b ∷ name) e
  replicas-other r (d ∷ addr) (some r') e ne =
      replicas-add hash c r r' d addr (b ∷ name) e ∙ if_neg (key_dec (d ∷ addr) (b ∷ name)) ne _ _

  set-Keeps :
      (n : ℕ) (p : ClientPicker) (addr : Key)
      → addr ≢ b ∷ name
      → Keeps n p
      → Keeps n (set hash c reachable p addr)
  unfolding set
  set-Keeps n p addr ne k = elim (Bool-cases (reachable addr)) [
    | inr e ↦ rw e k
    | inl e ↦ rw e (record {
      known =
          find-insert key_dec addr (b ∷ name) addr p.clients
          ∙ (if_neg (key_dec addr (b ∷ name)) ne _ _ ∙ k.known);
      placed = replicas-other p.cons_hash addr _ refl ne ∙ k.placed;
    })
  ]

  ite-Keeps :
      {Q : Type 0} (n : ℕ) (d : Dec Q) (p q : ClientPicker)
      → Keeps n p
      → Keeps n q
      → Keeps n (ite d p q)
  ite-Keeps n (yes x) p q k l = k
  ite-Keeps n (no x) p q k l = l

  put-Keeps :
      (n : ℕ) (p : ClientPicker) (addr : Key) (o : Option Key)
      → find key_dec addr p.clients ≡ o
      → Keeps n p
      → Keeps n (elim o [ none ↦ set hash c reachable p addr | some _ ↦ p ])
  put-Keeps n p addr (some x) e k = k
  put-Keeps n p addr none e k =
      set-Keeps n p addr
        (λ same. ground (arith, e, k.known, ap (λ a. find key_dec a p.clients) same)) k

  delete-Keeps :
      (n : ℕ) (p : ClientPicker) (o : Option Key)
      → Keeps n p
      → Keeps n (elim o [ none ↦ p | some _ ↦ remove hash c reachable p [] ])
  unfolding remove HashRing.remove
  delete-Keeps n p none k = k
  delete-Keeps n p (some x) k = record {
    known = ground (arith, k.known, find-delete key_dec [] (b ∷ name) p.clients);
    placed = k.placed;
  }

  handle_event-Keeps :
      (n : ℕ) (p : ClientPicker) (e : Event)
      → AsSent e
      → Keeps n p
      → Keeps n (handle_event hash c reachable p e)
  unfolding handle_event
  handle_event-Keeps n p (put addr) s k =
      ite-Keeps n (key_dec addr p.self_addr) p _ k
        (put-Keeps n p addr (find key_dec addr p.clients) refl k)
  handle_event-Keeps n p (delete addr) s k =
      subst (λ a. Keeps n (handle_event hash c reachable p (delete a))) (sym s)
        (ite-Keeps n (key_dec [] p.self_addr) p _ k
          (delete-Keeps n p (find key_dec [] p.clients) k))

  -- Whatever events of etcd a picker handles, a node that it has a client for keeps its client and its
  -- virtual nodes, where an event of a deletion carries the empty value: a service that goes is never
  -- taken off the ring.
  pub handle_watch_events-Keeps :
      (n : ℕ) (events : List Event) (p : ClientPicker)
      → All AsSent events
      → Keeps n p
      → Keeps n (handle_watch_events hash c reachable p events)
  unfolding handle_watch_events
  handle_watch_events-Keeps n [] p s k = k
  handle_watch_events-Keeps n (e ∷ events) p s k =
      handle_watch_events-Keeps n events (handle_event hash c reachable p e) s.1
        (handle_event-Keeps n p e s.0 k)
