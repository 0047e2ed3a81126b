-- ===== src/Lru/Leads.antt =====
-- The most recently used element of store/lru through the evictions.
use my_cache_go.Common.{
  ℕ, zero, suc, ◌^◌, ◌<◌, ◌≤◌, ◌≡◌, ◌≢◌, refl, sym, ◌∙◌, subst, ap, List, [], ◌∷◌, Option, none,
  some, true, false, ltb, ◌&&◌, Bool-cases, Option-cases, inl, inr, if_neg, if_pos, length, All,
  All-map, ℕ_discrete, Key, key_dec, arith,
}
use my_cache_go.Common.Int64.{lt64}
use my_cache_go.Common.Dict as Dict
use my_cache_go.Common.Dict.{find, find-delete, find-insert}
use my_cache_go.Lru.{
  Lru, size_of, get, has_expired, remove_element, remove_key, evict_expired, evict_oldest, evict,
}
use my_cache_go.Lru.Elements.{Element, elem_of, remove, back}
use my_cache_go.Lru.Elements.Laws.{DistinctIds, elem_of-id, elem_of-All, total}
use my_cache_go.Lru.Inv.{IsLru}
use my_cache_go.Lru.Evicts.{remove_element-IsLru}
use my_cache_go.Lru.Bound.{remove_element-le, evict_expired-le}
use my_cache_go.Lru.Reads.{get-value}

-- The pairs are entries of the map.
abbrev pub Lists : List (Key × ℕ) → List (Key × ℕ) → Type 0
Lists m order = All (λ p. find key_dec p.0 m ≡ some p.1) order

module _ {ℓ} {V : Type ℓ} (len : V → ℕ) (e : Element V) (deadline : Option ℕ) where
  -- The element is the most recently used one, with this deadline.
  pub record Leads (l : Lru V) : Type ℓ where
    pub valid : IsLru len l
    pub rest : List (Element V)
    pub starts : l.lru_list ≡ e ∷ rest
    pub expires : find key_dec e.key l.expiration_map ≡ deadline

  mapped : (l : Lru V) → Leads l → find key_dec e.key l.element_map ≡ some e.id
  mapped l d =
      (subst (All (λ f. find key_dec f.key l.element_map ≡ some f.id)) d.starts d.valid.indexed).0

  first : (l : Lru V) → Leads l → elem_of e.id l.lru_list ≡ some e
  unfolding elem_of
  first l d = ap (elem_of e.id) d.starts ∙ if_pos (ℕ_discrete e.id e.id) refl _ _

  remove-first :
      (i : ℕ) (rest : List (Element V)) → e.id ≢ i → remove i (e ∷ rest) ≡ e ∷ remove i rest
  unfolding remove
  remove-first i rest ne = if_neg (ℕ_discrete e.id i) ne _ _

  remove_element-Leads : (l : Lru V) (i : ℕ) → e.id ≢ i → Leads l → Leads (remove_element len l i).0
  remove_element-Leads l i ne d = elim (Option-cases (elem_of i l.lru_list)) [
    | inl h ↦ subst Leads (sym (skip h)) d
    | inr (f, h) ↦
        let other =
          let t : f.key ≢ e.key = λ q. ne (
            cc (
              mapped l d,
              elem_of-All (λ g. find key_dec g.key l.element_map ≡ some g.id) i l.lru_list f
                  d.valid.indexed h,
              elem_of-id i l.lru_list f h,
              ap (λ k. find key_dec k l.element_map) q,
            )) in
          t in
        record {
          valid = remove_element-IsLru len l i d.valid;
          rest = remove i d.rest;
          starts = taken f h ∙ (ap (remove i) d.starts ∙ remove-first i d.rest ne);
          expires =
              ap (find key_dec e.key) (forgotten f h)
              ∙ (find-delete key_dec f.key e.key l.expiration_map
                  ∙ (if_neg (key_dec f.key e.key) other _ _ ∙ d.expires));
        }
  ]
    where
      skip : elem_of i l.lru_list ≡ none → (remove_element len l i).0 ≡ l
      skip h = unfold remove_element in ground (arith, h)

      taken :
          (f : Element V)
          → elem_of i l.lru_list ≡ some f
          → (remove_element len l i).0.lru_list ≡ remove i l.lru_list
      taken f h = unfold remove_element in ground (arith, h)

      forgotten :
          (f : Element V)
          → elem_of i l.lru_list ≡ some f
          → (remove_element len l i).0.expiration_map ≡ Dict.delete key_dec f.key l.expiration_map
      forgotten f h = unfold remove_element in ground (arith, h)

  remove_key-Leads : (l : Lru V) (k : Key) → e.key ≢ k → Leads l → Leads (remove_key len l k).0
  remove_key-Leads l k ne d = elim (Option-cases (find key_dec k l.element_map)) [
    | inl h ↦ subst Leads (sym (skip h)) d
    | inr (i, h) ↦ subst Leads (sym (gone i h)) (remove_element-Leads l i (other i h) d)
  ]
    where
      skip : find key_dec k l.element_map ≡ none → (remove_key len l k).0 ≡ l
      skip h = unfold remove_key in ground (arith, h)

      gone :
          (i : ℕ)
          → find key_dec k l.element_map ≡ some i
          → (remove_key len l k).0 ≡ (remove_element len l i).0
      gone i h = unfold remove_key in ground (arith, h)

      other : (i : ℕ) → find key_dec k l.element_map ≡ some i → e.id ≢ i
      other i h q =
          let (f, at, same) = d.valid.found k i h in
          let one =
            let t : some e ≡ some f = sym (first l d) ∙ (ap (λ j. elem_of j l.lru_list) q ∙ at) in
            t in
          ne (ground (arith, one, same))

  -- The iteration does not find the element expired.
  abbrev Spares : ℕ → List (Key × ℕ) → Type 0
  Spares now order = All (λ p. e.key ≡ p.0 → ltb p.1 now ≡ false) order

  Lists-Spares :
      (m order : List (Key × ℕ)) (now : ℕ)
      → Lists m order
      → find key_dec e.key m ≡ deadline
      → has_expired deadline now ≡ false
      → Spares now order
  Lists-Spares m order now s f live =
      All-map (λ p. find key_dec p.0 m ≡ some p.1) (λ p. e.key ≡ p.0 → ltb p.1 now ≡ false) order
        (λ p at q.
          ap (λ o. has_expired o now) (sym at ∙ (ap (λ k. find key_dec k m) (sym q) ∙ f)) ∙ live)
        s

  evict_expired-Leads :
      (order : List (Key × ℕ)) (l : Lru V) (now : ℕ)
      → Spares now order
      → Leads l
      → Leads (evict_expired len l now order).0
  unfolding evict_expired
  evict_expired-Leads [] l now s d = d
  evict_expired-Leads ((k, t) ∷ order) l now s d = elim (Bool-cases (ltb t now)) [
    | inr h ↦ rw h (evict_expired-Leads order l now s.1 d)
    | inl h ↦
        let spared = let u : e.key ≢ k = λ q. (ground (arith, h, s.0 q)) in u in
        rw h
          (evict_expired-Leads order (remove_key len l k).0 now s.1 (remove_key-Leads l k spared d))
  ]

  back-ne :
      (i : ℕ) (f : Element V) (rest : List (Element V))
      → All (λ g. i ≢ g.id) (f ∷ rest)
      → i ≢ back (f ∷ rest)
  unfolding back
  back-ne i f [] d = d.0
  back-ne i f (g ∷ rest) d = back-ne i g rest d.1

  -- Over the limit there is an element behind the first one.
  behind :
      (l : Lru V)
      → Leads l
      → size_of len e ≤ l.max_bytes
      → l.max_bytes < 2 ^ 63
      → lt64 l.max_bytes l.used_bytes ≡ true
      → e.id ≢ back l.lru_list
  behind l d fits bound over = follow d.rest d.starts
    where
      follow : (rest : List (Element V)) → l.lru_list ≡ e ∷ rest → e.id ≢ back l.lru_list
      follow [] q = absurd (ground (arith, over, d.valid.used, ap (total (size_of len)) q))
      follow (f ∷ rest) q =
          subst (λ xs. e.id ≢ back xs) (sym q)
            (unfold back in back-ne e.id f rest (subst DistinctIds q d.valid.distinct).0)

  evict_oldest-Leads :
      (fuel : ℕ) (l : Lru V) (max : ℕ)
      → size_of len e ≤ max
      → max < 2 ^ 63
      → l.max_bytes ≡ max
      → Leads l
      → Leads (evict_oldest len fuel l).0
  unfolding evict_oldest
  evict_oldest-Leads zero l max fits bound same d = d
  evict_oldest-Leads (suc fuel) l max fits bound same d =
      elim (Bool-cases
        (lt64 0 l.max_bytes && (lt64 l.max_bytes l.used_bytes && ltb 0 (length l.lru_list)))) [
          | inr h ↦ rw h d
          | inl h ↦ rw h (
              evict_oldest-Leads fuel (remove_element len l (back l.lru_list)).0 max fits bound
                ((remove_element-le len l (back l.lru_list)).1 ∙ same)
                (remove_element-Leads l (back l.lru_list)
                  (behind l d (omega (arith, fits, same)) (omega (arith, bound, same))
                    (ground (arith, h)))
                  d))
        ]

  pub evict-Leads :
      (l : Lru V) (now : ℕ) (order : List (Key × ℕ))
      → Lists l.expiration_map order
      → has_expired deadline now ≡ false
      → size_of len e ≤ l.max_bytes
      → l.max_bytes < 2 ^ 63
      → Leads l
      → Leads (evict len l now order).0
  unfolding evict
  evict-Leads l now order s live fits bound d =
      let r = evict_expired-le len order l now in
      evict_oldest-Leads (length (evict_expired len l now order).0.lru_list)
        (evict_expired len l now order).0 l.max_bytes fits bound r.1
        (evict_expired-Leads order l now (Lists-Spares l.expiration_map order now s d.expires live)
          d)

  pub get-Leads :
      (l : Lru V) (t : ℕ)
      → Leads l
      → has_expired deadline t ≡ false
      → (get l e.key t).1 ≡ some e.value
  get-Leads l t d live =
      get-value l e.key t ∙ rw (mapped l d) (rw (first l d, d.expires, live) refl)
