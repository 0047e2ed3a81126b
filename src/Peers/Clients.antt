-- ===== src/Peers/Clients.antt =====
-- The ring and the map of clients of a picker of peers.go.
use my_cache_go.Common.{
  ℕ, ◌≡◌, refl, ap, sym, ◌∙◌, List, [], ◌∷◌, Option, none, some, Bool, Bool-cases, inl, inr, ite,
  Key, key_dec, arith,
}
use my_cache_go.Common.Int64.{Int64}
use my_cache_go.Common.Dict.{find, insert, find-delete, find-insert}
use my_cache_go.Common.Dict as Dict
use my_cache_go.HashRing as HashRing
use my_cache_go.HashRing.{HashRing, Config}
use my_cache_go.HashRing.Balancer.{Floats, check_and_rebalance}
use my_cache_go.HashRing.Life.{Life, born, joined, unnamed, parted, queried, balanced, get-member}
use my_cache_go.HashRing.Absent.{
  replicas, replicas-add, replicas-unnamed, replicas-remove, remove-none, replicas-get,
  check_and_rebalance-replicas,
}
use my_cache_go.Peers.{
  ClientPicker, Event, put, delete, or_same, set, remove, handle_event, client_of, pick_peer,
}

module _ (hash : Key → ℕ) (f : Floats) (c : Config) (threshold : f.Float)
    (reachable : Key → Bool) where
  -- The picker of `NewClientPicker` before it hears of a service.
  abbrev pub fresh_picker : Key → ClientPicker
  fresh_picker self_addr = record { self_addr = self_addr; cons_hash = HashRing.new; clients = [] }

  -- What a picker goes through, if `fetchAllServices` finds each address once.
  pub data History : ClientPicker → Type 0 where
    opened : (self_addr : Key) → History (fresh_picker self_addr)
    fetched :
        {p : ClientPicker} (addr : Key)
        → History p
        → find key_dec addr p.clients ≡ none
        → History (set hash c reachable p addr)
    handled :
        {p : ClientPicker} (e : Event) → History p → History (handle_event hash c reachable p e)
    picked :
        {p : ClientPicker} (key : Key) → History p → History (pick_peer hash c reachable p key).0
    ticked :
        {p : ClientPicker} (order : List (Key × Int64))
        → History p
        → History
            (record p { cons_hash = check_and_rebalance f hash c threshold p.cons_hash order })

  -- A named node without a client has no virtual nodes.
  record Agrees (p : ClientPicker) : Type 0 where
    life : Life hash f c threshold p.cons_hash
    absent :
        (b : ℕ) (name : Key)
        → find key_dec (b ∷ name) p.clients ≡ none
        → replicas p.cons_hash (b ∷ name) ≡ 0

  Agrees-add :
      (p : ClientPicker) (addr : Key) (o : Option HashRing)
      → HashRing.add hash c p.cons_hash (addr ∷ []) ≡ o
      → Agrees p
      → find key_dec addr p.clients ≡ none
      → Agrees (record p {
        cons_hash = or_same p.cons_hash o;
        clients = insert key_dec addr addr p.clients;
      })
  Agrees-add p addr none e a n = absurd (unfold HashRing.add in ground (arith, e))
  Agrees-add p [] (some r) e a n = record {
    life = unnamed a.life e;
    absent = λ b name h. ground (
      arith,
      h,
      a.absent b name,
      find-insert key_dec [] (b ∷ name) [] p.clients,
      replicas-unnamed hash c p.cons_hash r (b ∷ name) e,
    );
  }
  Agrees-add p (d ∷ addr) (some r) e a n = record {
    life = joined d addr a.life (a.absent d addr n) e;
    absent = λ b name h. ground (
      arith,
      h,
      a.absent b name,
      find-insert key_dec (d ∷ addr) (b ∷ name) (d ∷ addr) p.clients,
      replicas-add hash c p.cons_hash r d addr (b ∷ name) e,
    );
  }

  set-Agrees :
      (p : ClientPicker) (addr : Key)
      → Agrees p
      → find key_dec addr p.clients ≡ none
      → Agrees (set hash c reachable p addr)
  unfolding set
  set-Agrees p addr a n = elim (Bool-cases (reachable addr)) [
    | inl e ↦ rw e (Agrees-add p addr _ refl a n)
    | inr e ↦ rw e a
  ]

  Agrees-remove :
      (p : ClientPicker) (addr : Key) (o : Option HashRing)
      → HashRing.remove hash p.cons_hash addr ≡ o
      → Agrees p
      → Agrees (record p {
        cons_hash = or_same p.cons_hash o;
        clients = Dict.delete key_dec addr p.clients;
      })
  Agrees-remove p [] none e a = record {
    life = a.life;
    absent =
        λ b name h. ground (arith, h, a.absent b name, find-delete key_dec [] (b ∷ name) p.clients);
  }
  Agrees-remove p (d ∷ addr) none e a = record {
    life = a.life;
    absent = λ b name h. elim (key_dec (d ∷ addr) (b ∷ name)) [
      | yes same ↦ ap (replicas p.cons_hash) (sym same) ∙ remove-none hash p.cons_hash d addr e
      | no ne ↦
          ground
            (arith, ne, h, a.absent b name, find-delete key_dec (d ∷ addr) (b ∷ name) p.clients)
    ];
  }
  Agrees-remove p addr (some r) e a = record {
    life = parted addr a.life e;
    absent = λ b name h. ground (
      arith,
      h,
      a.absent b name,
      find-delete key_dec addr (b ∷ name) p.clients,
      replicas-remove hash p.cons_hash r addr (b ∷ name) e,
    );
  }

  remove-Agrees :
      (p : ClientPicker) (addr : Key) → Agrees p → Agrees (remove hash c reachable p addr)
  unfolding remove
  remove-Agrees p addr a = Agrees-remove p addr _ refl a

  handle_event-Agrees :
      (p : ClientPicker) (e : Event) → Agrees p → Agrees (handle_event hash c reachable p e)
  unfolding handle_event
  handle_event-Agrees p (put addr) a =
      other (key_dec addr p.self_addr) (missing (find key_dec addr p.clients) refl)
    where
      other : {P : Type 0} (d : Dec P) {q : ClientPicker} → Agrees q → Agrees (ite d p q)
      other (yes x) q = a
      other (no x) q = q

      missing :
          (o : Option Key)
          → find key_dec addr p.clients ≡ o
          → Agrees (elim o [ none ↦ set hash c reachable p addr | some _ ↦ p ])
      missing none n = set-Agrees p addr a n
      missing (some x) n = a
  handle_event-Agrees p (delete addr) a =
      other (key_dec addr p.self_addr) (present (find key_dec addr p.clients))
    where
      other : {P : Type 0} (d : Dec P) {q : ClientPicker} → Agrees q → Agrees (ite d p q)
      other (yes x) q = a
      other (no x) q = q

      present :
          (o : Option Key) → Agrees (elim o [ none ↦ p | some _ ↦ remove hash c reachable p addr ])
      present none = a
      present (some x) = remove-Agrees p addr a

  pick_peer-Agrees :
      (p : ClientPicker) (key : Key) → Agrees p → Agrees (pick_peer hash c reachable p key).0
  unfolding pick_peer
  pick_peer-Agrees p key a = record {
    life = queried key a.life;
    absent = λ b name h. replicas-get hash p.cons_hash key (b ∷ name) ∙ a.absent b name h;
  }

  History-Agrees : {p : ClientPicker} → History p → Agrees p
  History-Agrees (opened self_addr) = record {
    life = born;
    absent = λ b name h. unfold find in refl;
  }
  History-Agrees (fetched {p} addr l n) = set-Agrees p addr (History-Agrees l) n
  History-Agrees (handled {p} e l) = handle_event-Agrees p e (History-Agrees l)
  History-Agrees (picked {p} key l) = pick_peer-Agrees p key (History-Agrees l)
  History-Agrees (ticked {p} order l) =
      let a = History-Agrees l in
      record {
        life = balanced order a.life;
        absent = λ b name h.
            check_and_rebalance-replicas hash f c threshold p.cons_hash order (b ∷ name)
              (a.absent b name h);
      }

  client_of-none :
      (p : ClientPicker) (b : ℕ) (addr : Key)
      → client_of p (b ∷ addr) ≡ none
      → find key_dec (b ∷ addr) p.clients ≡ none
  unfolding client_of
  client_of-none p b addr e = ground (arith, e)

  -- Whatever services a picker fetched, each address once, whatever events it handled and however its
  -- ring was rebalanced, it finds no client for a key only if the ring has no address for the key.
  pub pick_peer-none :
      {p : ClientPicker} (a : ℕ) (key : Key)
      → History p
      → (pick_peer hash c reachable p (a ∷ key)).1 ≡ none
      → (HashRing.get hash p.cons_hash (a ∷ key)).1 ≡ []
  pick_peer-none {p} a key l e = served _ refl
    where
      served : (addr : Key) → (HashRing.get hash p.cons_hash (a ∷ key)).1 ≡ addr → addr ≡ []
      served [] q = refl
      served (b ∷ addr) q =
          let v = History-Agrees l in
          let n = client_of-none p b addr (ap (client_of p) (sym q) ∙ (unfold pick_peer in e)) in
          absurd
            (ground (arith, get-member hash f c threshold a key b addr v.life q, v.absent b addr n))
