-- ===== src/Peers/Discovery/Owned/Steps.antt =====
-- The connections of the table through the events of a watch.
use my_cache_go.Common.{
  ℕ, suc, ◌≡◌, ◌≢◌, refl, subst, sym, List, [], ◌∷◌, Option, none, some, Bool, true, Bool-cases,
  inl, inr, ite, All, Key, key_dec, arith, ℕ_discrete,
}
use my_cache_go.Common.Dict as Dict
use my_cache_go.Common.Dict.{find, find-delete, find-insert}
use my_cache_go.HashRing.{Config}
use my_cache_go.Client.Dial.{Process, Client, set_conn, new_client, dial}
use my_cache_go.Client.Dial as Dial
use my_cache_go.Peers.{Event, put, delete}
use my_cache_go.Peers.Discovery.{
  Picker, Wakeup, done, response, add_client, set, remove, handle_event, handle_watch_events,
  set_all, watch_service_changes,
}
use my_cache_go.Peers.Discovery.Owned.{
  held, find-held, delete-none, Live, Live-held, Live-on, Live-delete, Keyed-delete, held-delete,
  held-delete_absent, Owns,
}

-- No address comes twice.
abbrev pub Different : List Key → Type 0
Different [] = Unit
Different (addr ∷ addrs) = All (λ a. addr ≢ a) addrs × Different addrs

module _ (hash : Key → ℕ) (c : Config) (base : Process) where
  abbrev pub OwnedBy : Process × Picker → Type 0
  OwnedBy (w, p) = Owns base w p.clients

  ite-Owns :
      {Q : Type 0} (d : Dec Q) (a b : Process × Picker)
      → OwnedBy a
      → OwnedBy b
      → OwnedBy (ite d a b)
  ite-Owns (yes _) a b k l = k
  ite-Owns (no _) a b k l = l

  -- The table has none of these addresses.
  abbrev pub Unknown : Picker → List Key → Type 0
  Unknown p addrs = All (λ a. find key_dec a p.clients ≡ none) addrs

  ite-Unknown :
      {Q : Type 0} (d : Dec Q) (addrs : List Key) (a b : Process × Picker)
      → Unknown a.1 addrs
      → Unknown b.1 addrs
      → Unknown (ite d a b).1 addrs
  ite-Unknown (yes _) addrs a b k l = k
  ite-Unknown (no _) addrs a b k l = l

  dialed-Owns :
      (w : Process) (addr svc_name : Key) (m : List (Key × Client))
      → find key_dec addr m ≡ none
      → Owns base w m
      → Owns base (set_conn w.next_conn true (record w { next_conn = suc w.next_conn })) (
          Dict.insert key_dec addr
            (record { addr = addr; svc_name = svc_name; conn = w.next_conn })
            m)
  unfolding held Dict.insert
  dialed-Owns w addr svc_name m e o = record {
    fresh = λ i h. ground (arith, h, o.fresh i);
    rest = λ i. ground (arith, o.rest i, o.fresh i, held-delete_absent i addr m e);
    keyed = (ground (arith, find-delete key_dec addr addr m), Keyed-delete addr m o.keyed);
    live = (
      ground arith,
      ground (
        arith,
        held-delete_absent w.next_conn addr m e,
        Live-held w.connected w.next_conn m o.live,
        o.fresh w.next_conn,
      ),
      subst (Live (λ j. ite (ℕ_discrete w.next_conn j) true (w.connected j)))
          (sym (delete-none addr m e)) (Live-on w.connected w.next_conn m o.live),
    );
    etcd = o.etcd;
    balancing = o.balancing;
  }

  set-Owns :
      (reachable : Key → Bool) (w : Process) (p : Picker) (addr : Key)
      → find key_dec addr p.clients ≡ none
      → Owns base w p.clients
      → Owns base (set hash c reachable w p addr).0 (set hash c reachable w p addr).1.clients
  unfolding set new_client dial add_client
  set-Owns reachable w p addr e o = elim (Bool-cases (reachable addr)) [
    | inl r ↦ rw r (dialed-Owns w addr p.svc_name p.clients e o)
    | inr r ↦ rw r o
  ]

  remove-Owns :
      (w : Process) (m : List (Key × Client)) (addr : Key) (x : Client)
      → find key_dec addr m ≡ some x
      → Owns base w m
      → Owns base (Dial.close w x).0 (Dict.delete key_dec addr m)
  unfolding Dial.close
  remove-Owns w m addr x e o = record {
    fresh = λ i h. ground (arith, o.fresh i h);
    rest = λ i. ground (
      arith,
      o.rest i,
      find-held addr x m e,
      held-delete w.connected i addr x m o.keyed o.live e,
    );
    keyed = Keyed-delete addr m o.keyed;
    live = Live-delete w.connected addr x m o.keyed o.live e;
    etcd = o.etcd;
    balancing = o.balancing;
  }

  handle_event-Owns :
      (reachable : Key → Bool) (w : Process) (p : Picker) (e : Event)
      → Owns base w p.clients
      → Owns base
          (handle_event hash c reachable w p e).0
          (handle_event hash c reachable w p e).1.clients
  unfolding handle_event remove
  handle_event-Owns reachable w p (put addr) o =
      ite-Owns (key_dec addr p.self_addr) (w, p) _ o (choose (find key_dec addr p.clients) refl)
    where
      choose :
          (l : Option Client)
          → find key_dec addr p.clients ≡ l
          → OwnedBy (elim l as (λ x. Process × Picker) [
            | none ↦ set hash c reachable w p addr
            | some x ↦ (w, p)
          ])
      choose none e = set-Owns reachable w p addr e o
      choose (some x) e = o
  handle_event-Owns reachable w p (delete addr) o =
      ite-Owns (key_dec addr p.self_addr) (w, p) _ o (choose (find key_dec addr p.clients) refl)
    where
      choose :
          (l : Option Client)
          → find key_dec addr p.clients ≡ l
          → OwnedBy (elim l as (λ x. Process × Picker) [
            | none ↦ (w, p)
            | some x ↦ ((Dial.close w x).0, remove hash c p addr)
          ])
      choose none e = o
      choose (some x) e = remove-Owns w p.clients addr x e o

  handle_watch_events-Owns :
      (reachable : Key → Bool) (events : List Event) (w : Process) (p : Picker)
      → Owns base w p.clients
      → OwnedBy (handle_watch_events hash c reachable w p events)
  unfolding handle_watch_events
  handle_watch_events-Owns reachable [] w p o = o
  handle_watch_events-Owns reachable (e ∷ events) w p o =
      let (w', p') = handle_event hash c reachable w p e in
      handle_watch_events-Owns reachable events w' p' (handle_event-Owns reachable w p e o)

  pub watch_service_changes-Owns :
      (wakeups : List Wakeup) (w : Process) (p : Picker)
      → Owns base w p.clients
      → OwnedBy (watch_service_changes hash c w p wakeups)
  unfolding watch_service_changes
  watch_service_changes-Owns [] w p o = o
  watch_service_changes-Owns (done ∷ wakeups) w p o = o
  watch_service_changes-Owns (response reachable events ∷ wakeups) w p o =
      let (w', p') = handle_watch_events hash c reachable w p events in
      watch_service_changes-Owns wakeups w' p' (handle_watch_events-Owns reachable events w p o)

  Unknown-set :
      (reachable : Key → Bool) (w : Process) (p : Picker) (addr : Key) (addrs : List Key)
      → All (λ a. addr ≢ a) addrs
      → Unknown p addrs
      → Unknown (set hash c reachable w p addr).1 addrs
  Unknown-set reachable w p addr [] d u = tt
  Unknown-set reachable w p addr (a ∷ addrs) d u = (
    unfold set in
        unfold new_client in
        unfold dial in
        unfold add_client in
        ground (
          arith,
          d.0,
          u.0,
          find-insert key_dec addr a
              (record { addr = addr; svc_name = p.svc_name; conn = w.next_conn }) p.clients,
        ),
    Unknown-set reachable w p addr addrs d.1 u.1,
  )

  pub set_all-Owns :
      (reachable : Key → Bool) (addrs : List Key) (w : Process) (p : Picker)
      → Different addrs
      → Unknown p addrs
      → Owns base w p.clients
      → OwnedBy (set_all hash c reachable w p addrs)
  unfolding set_all
  set_all-Owns reachable [] w p d u o = o
  set_all-Owns reachable ([] ∷ addrs) w p d u o = set_all-Owns reachable addrs w p d.1 u.1 o
  set_all-Owns reachable ((b ∷ addr) ∷ addrs) w p d u o =
      let (w', p') =
        ite (key_dec (b ∷ addr) p.self_addr) (w, p) (set hash c reachable w p (b ∷ addr)) in
      set_all-Owns reachable addrs w' p' d.1
        (ite-Unknown (key_dec (b ∷ addr) p.self_addr) addrs (w, p) _ u.1
          (Unknown-set reachable w p (b ∷ addr) addrs d.0 u.1))
        (ite-Owns (key_dec (b ∷ addr) p.self_addr) (w, p) _ o
          (set-Owns reachable w p (b ∷ addr) u.0 o))
