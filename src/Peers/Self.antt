-- ===== src/Peers/Self.antt =====
-- The picker of peers.go and the address of its own node.
use my_cache_go.Common.{
  ℕ, ◌≡◌, ◌≢◌, ap, ◌∙◌, List, [], ◌∷◌, Option, none, some, inl, inr, Bool, false, Bool-cases,
  Option-cases, ◌⊎◌, sym, ite, if_neg, Key, key_dec, arith,
}
use my_cache_go.Common.Dict.{find, find-delete, find-insert}
use my_cache_go.HashRing.{Config}
use my_cache_go.Peers.{
  ClientPicker, Event, put, delete, set, remove, handle_event, handle_watch_events,
  fetch_all_services, client_of, pick_peer,
}

module _ (own : Key) where
  -- The picker of the node with this address has no client for it, and each client of it stands under
  -- its own address.
  pub record NoSelf (p : ClientPicker) : Type 0 where
    pub same : p.self_addr ≡ own
    pub absent : find key_dec own p.clients ≡ none
    pub named : (addr client : Key) → find key_dec addr p.clients ≡ some client → client ≡ addr

  known :
      (o : Option Key) (p q : ClientPicker)
      → NoSelf q
      → NoSelf p
      → NoSelf (elim o [ none ↦ q | some _ ↦ p ])
  known none p q h r = h
  known (some x) p q h r = r

  ite-NoSelf :
      {P : Type 0} (d : Dec P) (q r : ClientPicker)
      → NoSelf q
      → ((P → ⊥) → NoSelf r)
      → NoSelf (ite d q r)
  ite-NoSelf (yes p) q r h k = h
  ite-NoSelf (no n) q r h k = k n

  client_of-other :
      (p : ClientPicker) (addr client : Key) (self : Bool)
      → NoSelf p
      → client_of p addr ≡ some (client, self)
      → (client ≢ own) × (self ≡ false)
  unfolding client_of
  client_of-other p [] client self h e = absurd (ground (arith, e))
  client_of-other p (b ∷ addr) client self h e =
      choose (Option-cases (find key_dec (b ∷ addr) p.clients))
    where
      choose :
          (find key_dec (b ∷ addr) p.clients ≡ none)
            ⊎ ((x : Key) × (find key_dec (b ∷ addr) p.clients ≡ some x))
          → (client ≢ own) × (self ≡ false)
      choose (inl q) = absurd (ground (arith, e, q))
      choose (inr (x, q)) =
          let other =
            let t : (b ∷ addr) ≢ own =
              λ r. absurd (ground (arith, q, ap (λ k. find key_dec k p.clients) r, h.absent)) in
            t in
          let is_client = let t : x ≡ client = ground (arith, e, q) in t in
          let apart = let t : (b ∷ addr) ≢ p.self_addr = λ r. other (r ∙ h.same) in t in
          (λ r. other (sym (h.named (b ∷ addr) x q) ∙ (is_client ∙ r)), ground (arith, e, q, apart))

  module _ (hash : Key → ℕ) (c : Config) (reachable : Key → Bool) where
    set-NoSelf :
        (p : ClientPicker) (addr : Key)
        → addr ≢ p.self_addr
        → NoSelf p
        → NoSelf (set hash c reachable p addr)
    unfolding set
    set-NoSelf p addr ne h = elim (Bool-cases (reachable addr)) [
      | inl e ↦ rw e (record {
        same = h.same;
        absent =
            find-insert key_dec addr own addr p.clients
            ∙ (if_neg (key_dec addr own) (λ q. ne (q ∙ sym h.same)) _ _ ∙ h.absent);
        named = λ a x q. ground (arith, q, find-insert key_dec addr a addr p.clients, h.named a x);
      })
      | inr e ↦ rw e h
    ]

    remove-NoSelf :
        (p : ClientPicker) (addr : Key) → NoSelf p → NoSelf (remove hash c reachable p addr)
    unfolding remove
    remove-NoSelf p addr h = record {
      same = h.same;
      absent = ground (arith, find-delete key_dec addr own p.clients, h.absent);
      named = λ a x q. ground (arith, q, find-delete key_dec addr a p.clients, h.named a x);
    }

    handle_event-NoSelf :
        (p : ClientPicker) (e : Event) → NoSelf p → NoSelf (handle_event hash c reachable p e)
    unfolding handle_event
    handle_event-NoSelf p (put addr) h =
        ite-NoSelf (key_dec addr p.self_addr) p _ h
          (λ ne. known (find key_dec addr p.clients) p _ (set-NoSelf p addr ne h) h)
    handle_event-NoSelf p (delete addr) h =
        ite-NoSelf (key_dec addr p.self_addr) p _ h
          (λ ne. known (find key_dec addr p.clients) _ p h (remove-NoSelf p addr h))

    handle_watch_events-NoSelf :
        (p : ClientPicker) (events : List Event)
        → NoSelf p
        → NoSelf (handle_watch_events hash c reachable p events)
    unfolding handle_watch_events
    handle_watch_events-NoSelf p [] h = h
    handle_watch_events-NoSelf p (e ∷ events) h =
        handle_watch_events-NoSelf (handle_event hash c reachable p e) events
          (handle_event-NoSelf p e h)

    fetch_all_services-NoSelf :
        (p : ClientPicker) (addrs : List Key)
        → NoSelf p
        → NoSelf (fetch_all_services hash c reachable p addrs)
    unfolding fetch_all_services
    fetch_all_services-NoSelf p [] h = h
    fetch_all_services-NoSelf p ([] ∷ addrs) h = fetch_all_services-NoSelf p addrs h
    fetch_all_services-NoSelf p ((b ∷ addr) ∷ addrs) h =
        fetch_all_services-NoSelf
          (ite (key_dec (b ∷ addr) p.self_addr) p (set hash c reachable p (b ∷ addr))) addrs
          (ite-NoSelf (key_dec (b ∷ addr) p.self_addr) p _ h (λ ne. set-NoSelf p (b ∷ addr) ne h))

    -- A picker that starts without a client for the address that it was given as its own, and with each
    -- client under its address, never picks the client of that address, whatever services it fetched
    -- and whatever events it handled, and never says that the node that it picks is its own.
    pub pick_peer-other :
        (p : ClientPicker) (addrs : List Key) (events : List Event) (key client : Key) (self : Bool)
        → NoSelf p
        → (pick_peer hash c reachable
            (handle_watch_events hash c reachable
              (fetch_all_services hash c reachable p addrs)
              events)
            key).1
          ≡ some (client, self)
        → (client ≢ own) × (self ≡ false)
    unfolding pick_peer
    pick_peer-other p addrs events key client self h e =
        client_of-other
          (handle_watch_events hash c reachable (fetch_all_services hash c reachable p addrs)
            events)
          _ client self (handle_watch_events-NoSelf _ events (fetch_all_services-NoSelf p addrs h))
          e
