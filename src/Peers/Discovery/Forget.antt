-- ===== src/Peers/Discovery/Forget.antt =====
-- The picker of Peers/Discovery.antt, with a client read as its address, beside the one of Peers.antt.
use my_cache_go.Common.{
  ℕ, suc, ◌≡◌, refl, ap, ◌∙◌, List, [], ◌∷◌, Option, none, some, Bool, true, ite, Key, key_dec,
  arith,
}
use my_cache_go.Common.Dict as Dict
use my_cache_go.Common.Dict.{find}
use my_cache_go.HashRing as HashRing
use my_cache_go.HashRing.{Config}
use my_cache_go.Client.Dial.{Process, Client, new_client, dial}
use my_cache_go.Client.Dial as Dial
use my_cache_go.Peers.{ClientPicker, Event, put, delete, fetch_all_services}
use my_cache_go.Peers as Peers
use my_cache_go.Peers.Discovery.{
  Picker, PickerOption, with_service_name, apply_options, empty_picker, with_balancer,
  services_prefix, Wakeup, done, response, picker, add_client, set, remove, handle_event,
  handle_watch_events, set_all, start_service_discovery, new_client_picker, watch_service_changes,
}

abbrev pub addresses : List (Key × Client) → List (Key × Key)
addresses [] = []
addresses ((addr, x) ∷ m) = (addr, x.addr) ∷ addresses m

abbrev pub forget : Picker → ClientPicker
forget p = record {
  self_addr = p.self_addr;
  cons_hash = p.cons_hash;
  clients = addresses p.clients;
}

abbrev pub address : Option Client → Option Key
address none = none
address (some x) = some x.addr

find-addresses :
    (k : Key) (m : List (Key × Client)) → find key_dec k (addresses m) ≡ address (find key_dec k m)
unfolding find
find-addresses k [] = refl
find-addresses k ((j, x) ∷ m) = ground (arith, find-addresses k m)

delete-addresses :
    (k : Key) (m : List (Key × Client))
    → addresses (Dict.delete key_dec k m) ≡ Dict.delete key_dec k (addresses m)
unfolding Dict.delete
delete-addresses k [] = refl
delete-addresses k ((j, x) ∷ m) = ground (arith, delete-addresses k m)

module _ (hash : Key → ℕ) (c : Config) where
  -- What the watch makes of a picker whose clients are addresses.
  unfoldable pub replay : ClientPicker → List Wakeup → ClientPicker
  replay p [] = p
  replay p (done ∷ wakeups) = p
  replay p (response reachable events ∷ wakeups) =
      replay (Peers.handle_watch_events hash c reachable p events) wakeups

  set-forget :
      (reachable : Key → Bool) (w : Process) (p : Picker) (addr : Key)
      → forget (set hash c reachable w p addr).1 ≡ Peers.set hash c reachable (forget p) addr
  unfolding set new_client dial add_client Peers.set Dict.insert
  set-forget reachable w p addr = ground (arith, delete-addresses addr p.clients)

  ite-forget :
      {Q : Type 0} (d : Dec Q) (a b : Process × Picker) (p q : ClientPicker)
      → forget a.1 ≡ p
      → forget b.1 ≡ q
      → forget (ite d a b).1 ≡ ite d p q
  ite-forget d a b p q e f = ground (arith, e, f)

  handle_event-forget :
      (reachable : Key → Bool) (w : Process) (p : Picker) (e : Event)
      → forget (handle_event hash c reachable w p e).1
        ≡ Peers.handle_event hash c reachable (forget p) e
  unfolding handle_event Peers.handle_event remove Peers.remove
  handle_event-forget reachable w p (put addr) =
      ite-forget (key_dec addr p.self_addr) (w, p) _ (forget p) _ refl
        (choose (find key_dec addr p.clients) (find key_dec addr (addresses p.clients))
          (find-addresses addr p.clients))
    where
      choose :
          (o : Option Client) (o' : Option Key)
          → o' ≡ address o
          → forget
              (elim o as (λ x. Process × Picker) [
                | none ↦ set hash c reachable w p addr
                | some x ↦ (w, p)
              ]).1
            ≡ elim o' as (λ x. ClientPicker) [
              | none ↦ Peers.set hash c reachable (forget p) addr
              | some x ↦ forget p
            ]
      choose none none e = set-forget reachable w p addr
      choose (some x) (some y) e = refl
      choose none (some y) e = absurd (ground (arith, e))
      choose (some x) none e = absurd (ground (arith, e))
  handle_event-forget reachable w p (delete addr) =
      ite-forget (key_dec addr p.self_addr) (w, p) _ (forget p) _ refl
        (choose (find key_dec addr p.clients) (find key_dec addr (addresses p.clients))
          (find-addresses addr p.clients))
    where
      choose :
          (o : Option Client) (o' : Option Key)
          → o' ≡ address o
          → forget
              (elim o as (λ x. Process × Picker) [
                | none ↦ (w, p)
                | some x ↦ ((Dial.close w x).0, remove hash c p addr)
              ]).1
            ≡ elim o' as (λ x. ClientPicker) [
              | none ↦ forget p
              | some x ↦ Peers.remove hash c reachable (forget p) addr
            ]
      choose none none e = refl
      choose (some x) (some y) e =
          ap
            (λ m. record (forget p) {
              cons_hash = Peers.or_same p.cons_hash (HashRing.remove hash p.cons_hash addr);
              clients = m;
            })
            (delete-addresses addr p.clients)
      choose none (some y) e = absurd (ground (arith, e))
      choose (some x) none e = absurd (ground (arith, e))

  handle_watch_events-forget :
      (reachable : Key → Bool) (events : List Event) (w : Process) (p : Picker)
      → forget (handle_watch_events hash c reachable w p events).1
        ≡ Peers.handle_watch_events hash c reachable (forget p) events
  unfolding handle_watch_events Peers.handle_watch_events
  handle_watch_events-forget reachable [] w p = refl
  handle_watch_events-forget reachable (e ∷ events) w p =
      let (w', p') = handle_event hash c reachable w p e in
      handle_watch_events-forget reachable events w' p'
      ∙ ap (λ q. Peers.handle_watch_events hash c reachable q events)
          (handle_event-forget reachable w p e)

  watch_service_changes-forget :
      (wakeups : List Wakeup) (w : Process) (p : Picker)
      → forget (watch_service_changes hash c w p wakeups).1 ≡ replay (forget p) wakeups
  unfolding watch_service_changes replay
  watch_service_changes-forget [] w p = refl
  watch_service_changes-forget (done ∷ wakeups) w p = refl
  watch_service_changes-forget (response reachable events ∷ wakeups) w p =
      let (w', p') = handle_watch_events hash c reachable w p events in
      watch_service_changes-forget wakeups w' p'
      ∙ ap (λ q. replay q wakeups) (handle_watch_events-forget reachable events w p)

  set_all-forget :
      (reachable : Key → Bool) (addrs : List Key) (w : Process) (p : Picker)
      → forget (set_all hash c reachable w p addrs).1
        ≡ fetch_all_services hash c reachable (forget p) addrs
  unfolding set_all fetch_all_services
  set_all-forget reachable [] w p = refl
  set_all-forget reachable ([] ∷ addrs) w p = set_all-forget reachable addrs w p
  set_all-forget reachable ((b ∷ addr) ∷ addrs) w p =
      let (w', p') =
        ite (key_dec (b ∷ addr) p.self_addr) (w, p) (set hash c reachable w p (b ∷ addr)) in
      set_all-forget reachable addrs w' p'
      ∙ ap (λ q. fetch_all_services hash c reachable q addrs)
          (ite-forget (key_dec (b ∷ addr) p.self_addr) (w, p) _ (forget p) _ refl
            (set-forget reachable w p (b ∷ addr)))

  apply_options-forget :
      (p : Picker) (opts : List PickerOption) → forget (apply_options p opts) ≡ forget p
  unfolding apply_options
  apply_options-forget p [] = refl
  apply_options-forget p (with_service_name name ∷ opts) =
      apply_options-forget (record p { svc_name = name }) opts

  -- Where etcd can be reached and answers, `NewClientPicker` returns a picker whose watch runs. With a
  -- client read as its address, what the watch makes of it is what the fetched services and the events
  -- of the responses up to the end of the context make of a picker that only knows addresses, whatever
  -- options the call has.
  pub new_client_picker-forget :
      (reachable : Key → Bool) (values : Key → Option (List Key)) (addrs : List Key) (w : Process)
      (addr : Key) (opts : List PickerOption) (wakeups : List Wakeup)
      → values (services_prefix (apply_options (empty_picker addr) opts).svc_name) ≡ some addrs
      → (w1 : Process) × (p : Picker) × (new_client_picker hash c reachable values w true addr opts
          ≡ (w1, picker p))
        × (p.watching ≡ true)
        × (forget (watch_service_changes hash c w1 p wakeups).1
            ≡ replay
                (fetch_all_services hash c reachable (forget (empty_picker addr)) addrs)
                wakeups)
  unfolding new_client_picker start_service_discovery
  new_client_picker-forget reachable values addrs w addr opts wakeups e =
      let p0 = let t : Picker = apply_options (empty_picker addr) opts in t in
      let w0 =
        let t : Process = record (with_balancer w) { etcd_clients = suc w.etcd_clients } in t in
      let (w', p') = set_all hash c reachable w0 p0 addrs in
      (
        w',
        record p' { watching = true },
        rw e refl,
        refl,
        watch_service_changes-forget wakeups w' (record p' { watching = true })
            ∙ ap (λ q. replay q wakeups)
                (set_all-forget reachable addrs w0 p0
                  ∙ ap (λ q. fetch_all_services hash c reachable q addrs)
                      (apply_options-forget (empty_picker addr) opts)),
      )
