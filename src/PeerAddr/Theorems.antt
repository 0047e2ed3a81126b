-- ===== src/PeerAddr/Theorems.antt =====
-- Which addresses are valid.
use my_cache_go.Common.{
  ℕ, suc, ◌≡◌, ◌↔◌, ◌⊎◌, inl, inr, refl, ap, sym, ◌∙◌, List, [], ◌∷◌, ◌++◌, true, Bool-cases,
  if◌then◌else◌, ◌==◌, length, Key, arith,
}
use my_cache_go.PeerAddr.{split, grow, first, localhost, valid_peer_addr}

-- How often a byte stands in a string.
unfoldable pub count : ℕ → Key → ℕ
count sep [] = 0
count sep (c ∷ s) = let n = count sep s in if c == sep then suc n else n

-- A host and a port with one colon between them, where the host is `localhost` or has three dots.
pub record IsPeerAddr (addr : Key) : Type 0 where
  pub host : Key
  pub port : Key
  pub joined : addr ≡ host ++ b':' ∷ port
  pub plain_host : count b':' host ≡ 0
  pub plain_port : count b':' port ≡ 0
  pub named : (host ≡ localhost) ⊎ (count b'.' host ≡ 3)

length-grow :
    (c : ℕ) (parts : List Key) (n : ℕ) → length parts ≡ suc n → length (grow c parts) ≡ suc n
length-grow c [] n h = absurd (omega (arith, h))
length-grow c (part ∷ parts) n h = h

length-split : (sep : ℕ) (s : Key) → length (split sep s) ≡ suc (count sep s)
unfolding split count
length-split sep [] = refl
length-split sep (c ∷ s) = elim (Bool-cases (c == sep)) [
  | inl e ↦ rw e (ap suc (length-split sep s))
  | inr e ↦ rw e (length-grow c (split sep s) (count sep s) (length-split sep s))
]

split-plain : (sep : ℕ) (s : Key) → count sep s ≡ 0 → split sep s ≡ s ∷ []
unfolding split count
split-plain sep [] h = refl
split-plain sep (c ∷ s) h = ground (arith, h, split-plain sep s)

split-joined :
    (sep : ℕ) (s t : Key)
    → count sep s ≡ 0
    → count sep t ≡ 0
    → split sep (s ++ sep ∷ t) ≡ s ∷ t ∷ []
unfolding split count
split-joined sep [] t p q = ground (arith, split-plain sep t q)
split-joined sep (c ∷ s) t p q = ground (arith, p, split-joined sep s t)

first-grow : (c : ℕ) (parts : List Key) → first (grow c parts) ≡ c ∷ first parts
first-grow c [] = refl
first-grow c (part ∷ parts) = refl

-- A string with one separator is what stands before it and what stands after it.
split_once :
    (sep : ℕ) (s : Key)
    → count sep s ≡ 1
    → (t : Key) × (s ≡ first (split sep s) ++ sep ∷ t)
      × (count sep (first (split sep s)) ≡ 0)
      × (count sep t ≡ 0)
unfolding split count
split_once sep [] h = absurd (omega (arith, h))
split_once sep (c ∷ s) h = elim (Bool-cases (c == sep)) [
  | inl e ↦ (s, rw e (ground (arith, e)), rw e refl, ground (arith, e, h))
  | inr e ↦
      let (t, eq, p, q) = split_once sep s (ground (arith, e, h)) in
      (
        t,
        rw e (ap (λ l. c ∷ l) eq ∙ ap (λ l. l ++ sep ∷ t) (sym (first-grow c (split sep s)))),
        rw e (ap (count sep) (first-grow c (split sep s)) ∙ rw e p),
        q,
      )
]

-- `ValidPeerAddr` accepts an address if and only if it is a host and a port with one colon between
-- them, and the host is `localhost` or has exactly three dots.
pub valid_peer_addr_lem : (addr : Key) → (valid_peer_addr addr ≡ true) ↔ IsPeerAddr addr
valid_peer_addr_lem addr = (λ h. parts h, λ a. accepts a)
  where
    host : Key
    host = first (split b':' addr)

    dots : length (split b'.' host) ≡ suc (count b'.' host)
    dots = length-split b'.' host

    parts : valid_peer_addr addr ≡ true → IsPeerAddr addr
    parts h =
        let (port, eq, p, q) =
          split_once b':' addr
            (unfold valid_peer_addr in ground (arith, h, length-split b':' addr)) in
        record {
          host = host;
          port = port;
          joined = eq;
          plain_host = p;
          plain_port = q;
          named =
              unfold valid_peer_addr in
              ground (arith, h, length-split b'.' (first (split b':' addr)));
        }

    accepts : IsPeerAddr addr → valid_peer_addr addr ≡ true
    accepts a =
        ap valid_peer_addr a.joined
        ∙ unfold valid_peer_addr in
          ground (
            arith,
            split-joined b':' a.host a.port a.plain_host a.plain_port,
            length-split b'.' a.host,
            a.named,
          )
