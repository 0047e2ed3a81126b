-- ===== src/Lifecycle/Stopping.antt =====
-- What `Stop` leaves running, and what the servers of a program share.
use my_cache_go.Common.{
  ℕ, zero, suc, ◌≤◌, ◌<◌, ◌≡◌, ◌≢◌, refl, ap, ◌∙◌, [], ◌∷◌, Option, none, some, Bool, true, false,
  Bool-cases, inl, inr, Key, arith,
}
use my_cache_go.Services.{
  Etcd, Registration, Registered, registered, refused, panicked, register, keep,
}
use my_cache_go.Services.Theorems.{Agrees, register-Agrees}
use my_cache_go.Lifecycle.{
  with_tls, apply, apply_all, World, Server, credentials_failed, with_client, new_server,
  close_channel, Service, serving, serving_alone, started, start, stop_server, turn, turns,
}

-- A channel that has not been made yet is not closed.
abbrev pub IsWorld : World → Type 0
IsWorld w = (i : ℕ) → w.next_channel ≤ i → w.closed i ≡ false

serving_alone-ne :
    (o : Option World) (w : World) (v : Service) → serving_alone o ≢ serving w (some v)
serving_alone-ne none w v e = absurd (cc)
serving_alone-ne (some x) w v e = absurd (ground (arith, e))

started-service :
    (w w' : World) (i : ℕ) (o : Registered) (v : Service)
    → started w i o ≡ serving w' (some v)
    → (w' ≡ w) × (v.channel ≡ i) × (o ≡ registered v.registration)
started-service w w' i (registered r) v e =
    (ground (arith, e), ground (arith, e), ground (arith, e))
started-service w w' i (refused x r) v e = absurd (serving_alone-ne (close_channel w i) w' v e)
started-service w w' i (panicked r) v e = absurd (cc)

turn-open : (w : World) (v : Service) → w.closed v.channel ≡ false → turn w v ≡ v
unfolding turn keep
turn-open w v h = rw h refl

turns-open : (n : ℕ) (w : World) (v : Service) → w.closed v.channel ≡ false → turns n w v ≡ v
unfolding turns
turns-open zero w v h = refl
turns-open (suc n) w v h = ap (turns n w) (turn-open w v h) ∙ turns-open n w v h

closed-stop :
    (w w' : World) (s : Server) (i : ℕ)
    → stop_server w s ≡ some w'
    → s.stop_ch ≢ i
    → w'.closed i ≡ w.closed i
unfolding stop_server close_channel
closed-stop w w' s i e ne = elim (Bool-cases (w.closed s.stop_ch)) [
  | inl h ↦ absurd (ground (arith, e, h))
  | inr h ↦ ground (arith, e, h, ne)
]

stop_server-again :
    (w w' : World) (s : Server) → stop_server w s ≡ some w' → stop_server w' s ≡ none
unfolding stop_server close_channel
stop_server-again w w' s e = elim (Bool-cases (w.closed s.stop_ch)) [
  | inl h ↦ absurd (ground (arith, e, h))
  | inr h ↦ ground (arith, e, h)
]

kept :
    (svc_name addr : Key) (ip : Option Key) (o : Registered) (r : Registration)
    → Agrees svc_name addr ip o
    → o ≡ registered r
    → r.keeping ≡ true
unfolding Agrees
kept svc_name addr ip (registered q) r a e =
    let (b, rest, host, p1, p2, k) = a in ground (arith, e, k.keeping)
kept svc_name addr ip (refused x q) r a e = absurd (ground (arith, e))
kept svc_name addr ip (panicked q) r a e = absurd (ground (arith, e))

-- After `Start` has registered the service and `Stop` has returned, the goroutine that keeps the lease
-- goes on as it was for any number of turns with a renewal each, and another `Stop` panics, for a server whose channel was
-- made before, where no channel is closed before it is made.
pub stop_server-turns :
    (n : ℕ) (w w1 w2 : World) (s : Server) (e : Etcd) (v : Service)
    → IsWorld w
    → s.stop_ch < w.next_channel
    → start w s true e ≡ serving w1 (some v)
    → stop_server w1 s ≡ some w2
    → (v.registration.keeping ≡ true) × (turns n w2 v ≡ v) × (stop_server w2 s ≡ none)
stop_server-turns n w w1 w2 s e v valid made begun stopped =
    let (same, own, result) =
      started-service (record w { next_channel = suc w.next_channel }) w1 w.next_channel
        (register e s.svc_name s.addr) v (unfold start in begun) in
    (
      kept s.svc_name s.addr _ (register e s.svc_name s.addr) v.registration
          (register-Agrees e s.svc_name s.addr) result,
      turns-open n w2 v (
          closed-stop w1 w2 s v.channel stopped (omega (arith, own, made))
          ∙ (ap (λ x. x.closed v.channel) same
              ∙ (ap w.closed own ∙ valid w.next_channel (omega arith)))),
      stop_server-again w1 w2 s stopped,
    )

-- The options of a server are those of the servers made before: after a server with TLS, one that asks
-- for no TLS fails where the certificate of the first one cannot be loaded any more, and its client
-- of etcd stays open.
pub new_server-tls :
    (w : World) (etcd : Bool) (loads loads' : Key → Key → Bool)
    (addr svc_name cert_file key_file addr' svc_name' : Key)
    → loads' cert_file key_file ≡ false
    → new_server
        (new_server w etcd loads addr svc_name (with_tls cert_file key_file ∷ [])).0
        true
        loads'
        addr'
        svc_name'
        []
      ≡ (
        record (new_server w etcd loads addr svc_name (with_tls cert_file key_file ∷ [])).0 {
          open_clients =
              suc
                (new_server w etcd loads addr svc_name
                  (with_tls cert_file key_file ∷ [])).0.open_clients;
        },
        credentials_failed,
      )
unfolding new_server with_client apply_all apply
new_server-tls w true loads loads' addr svc_name cert_file key_file addr' svc_name' h =
    elim (Bool-cases (loads cert_file key_file)) [ inl q ↦ rw (q, h) refl | inr q ↦ rw (q, h) refl ]
new_server-tls w false loads loads' addr svc_name cert_file key_file addr' svc_name' h = rw h refl
