-- ===== src/SeaDsa/CyclicLaws.antt =====
-- The search of IsCyclic: with fuel for the nodes it has not visited it ends, and its answer is
-- whether there is a cycle.
use clam.Prelude.{
  ℕ, zero, suc, ◌<◌, ◌≡◌, ◌⊎◌, inl, inr, refl, sym, subst, true, false, List, [], ◌∷◌, Option, none,
  some, ◌==◌, elem, arith, Bool-cases, ==_iff, ==_refl, ◌↔◌, ◌≢◌,
}
use clam.SeaDsa.Graph.{Graph}
use clam.SeaDsa.Reach.{
  Among, here, there, Among-first, Leads, one, more, IsBounded, unvisited, Grows, Grows-next,
  unvisited-le, unvisited-bound, unvisited-less,
}
use clam.SeaDsa.Cyclic.{Search, search_links, is_cyclic_rec, is_cyclic}

module _ (g : Graph) (n : ℕ) where
  -- a link that was followed without finding the node
  abbrev Done : List ℕ → Option ℕ → Type 0
  Done vs none = Unit
  Done vs (some d) = (elem d vs ≡ true) × (d ≢ n)

  Done-Grows : (vs ws : List ℕ) (d : Option ℕ) → Grows vs ws → Done vs d → Done ws d
  Done-Grows vs ws none h k = tt
  Done-Grows vs ws (some d) h k = (h d k.0, k.1)

  abbrev LinksDone : List ℕ → List (Option ℕ) → Type 0
  LinksDone vs ds = (d : Option ℕ) → Among d ds → Done vs d

  -- the links of a node that was visited meanwhile are done
  abbrev Closed : List ℕ → List ℕ → Type 0
  Closed vs ws = (x : ℕ) → elem x ws ≡ true → (elem x vs ≡ true) ⊎ LinksDone ws (g.links x)

  -- a node that is the one searched for, or leads to it
  abbrev Hit : ℕ → Type 0
  Hit d = (d ≡ n) ⊎ Leads g d n

  -- What a search from links gives.
  record Post (vs : List ℕ) (ds : List (Option ℕ)) (r : Search) : Type 0 where
    grows : Grows vs r.visited
    hit : r.found ≡ true → (d : ℕ) × Among (some d) ds × Hit d
    done : r.found ≡ false → LinksDone r.visited ds
    closed : r.found ≡ false → Closed vs r.visited

  abbrev Ends : List ℕ → List (Option ℕ) → Option Search → Type 0
  Ends vs ds o = (r : Search) × (o ≡ some r) × Post vs ds r

  Closed-trans : (us vs ws : List ℕ) → Grows vs ws → Closed us vs → Closed vs ws → Closed us ws
  Closed-trans us vs ws h first second x k = elim (second x k) [
    | inr done ↦ inr done
    | inl old ↦ elim (first x old) [
      | inl older ↦ inl older
      | inr done ↦ inr (λ d a. Done-Grows vs ws d h (done d a))
    ]
  ]

  -- the first link is done, and so are the others
  Post-next :
      (vs : List ℕ) (d : Option ℕ) (ds : List (Option ℕ)) (r q : Search)
      → r.found ≡ false
      → Post vs (d ∷ []) r
      → Post r.visited ds q
      → Post vs (d ∷ ds) q
  Post-next vs d ds r q e p o = record {
    grows = λ x h. o.grows x (p.grows x h);
    hit = λ h. let (a, among, found) = o.hit h in (a, there among, found);
    done = λ h. done_of h;
    closed = λ h. Closed-trans vs r.visited q.visited o.grows (p.closed e) (o.closed h);
  }
    where
      done_of : q.found ≡ false → LinksDone q.visited (d ∷ ds)
      done_of h c here = Done-Grows r.visited q.visited c o.grows (p.done e c here)
      done_of h c (there a) = o.done h c a

  opposite : (r : Search) → r.found ≡ true → r.found ≡ false → ⊥
  opposite r e h = cc

  Post-found :
      (vs : List ℕ) (d : Option ℕ) (ds : List (Option ℕ)) (r : Search)
      → r.found ≡ true
      → Post vs (d ∷ []) r
      → Post vs (d ∷ ds) r
  Post-found vs d ds r e p = record {
    grows = p.grows;
    hit = λ h. let (c, among, found) = p.hit h in (c, Among-first ds among, found);
    done = λ h. absurd (opposite r e h);
    closed = λ h. absurd (opposite r e h);
  }

  none-Post : (vs : List ℕ) → Post vs (none ∷ []) (record { found = false; visited = vs })
  none-Post vs = record {
    grows = λ x h. h;
    hit = λ h. absurd (cc h);
    done = λ h c a. done_none c a;
    closed = λ h x k. inl k;
  }
    where
      done_none : (c : Option ℕ) → Among c (none ∷ []) → Done vs c
      done_none _ here = tt
      done_none c (there a) = elim a [ ]

  reached-Post :
      (vs : List ℕ) (d : ℕ) → d ≡ n → Post vs (some d ∷ []) (record { found = true; visited = vs })
  reached-Post vs d e = record {
    grows = λ x h. h;
    hit = λ h. (d, here, inl e);
    done = λ h. absurd (cc h);
    closed = λ h. absurd (cc h);
  }

  Done-one : (vs : List ℕ) (d : ℕ) → Done vs (some d) → LinksDone vs (some d ∷ [])
  Done-one vs d h _ here = h
  Done-one vs d h _ (there a) = elim a [ ]

  visited-Post :
      (vs : List ℕ) (d : ℕ)
      → elem d vs ≡ true
      → d ≢ n
      → Post vs (some d ∷ []) (record { found = false; visited = vs })
  visited-Post vs d k ne = record {
    grows = λ x h. h;
    hit = λ h. absurd (cc h);
    done = λ h. Done-one vs d (k, ne);
    closed = λ h x j. inl j;
  }

  -- the links of a new node were followed
  node-Post :
      (vs : List ℕ) (d : ℕ) (r : Search)
      → d ≢ n
      → Post (d ∷ vs) (g.links d) r
      → Post vs (some d ∷ []) r
  node-Post vs d r ne p = record {
    grows = λ x h. p.grows x (Grows-next d vs x h);
    hit = λ h.
        let (a, among, found) = p.hit h in
        (
          d,
          here,
          inr (elim found [
            | inl e ↦ subst (Leads g d) e (one among)
            | inr more_links ↦ more among more_links
          ]),
        );
    done = λ h. Done-one r.visited d (p.grows d first, ne);
    closed = λ h x k. elim (p.closed h x k) [
      | inr done ↦ inr done
      | inl old ↦ elim (Bool-cases (x == d)) [
        | inr e ↦ inl (rw e at old)
        | inl e ↦
            let same : d ≡ x = sym ((==_iff x d).0 e) in
            inr (subst (λ y. LinksDone r.visited (g.links y)) same (p.done h))
      ]
    ];
  }
    where
      first : elem d (d ∷ vs) ≡ true
      first = rw (==_refl d) refl

  nil-Post : (vs : List ℕ) → Post vs [] (record { found = false; visited = vs })
  nil-Post vs = record {
    grows = λ x h. h;
    hit = λ h. absurd (cc h);
    done = λ h c a. nothing c a;
    closed = λ h x k. inl k;
  }
    where
      nothing : (c : Option ℕ) → Among c [] → Done vs c
      nothing c a = elim a [ ]

  -- the calls for the links of a list, one after the other
  links-Post :
      (rec : List ℕ → Option ℕ → Option Search) (fuel bound : ℕ)
      → ((vs : List ℕ) (d : Option ℕ)
          → ((b : ℕ) → d ≡ some b → b < bound)
          → unvisited bound vs < fuel
          → Ends vs (d ∷ []) (rec vs d))
      → (ds : List (Option ℕ)) (vs : List ℕ) → ((b : ℕ) → Among (some b) ds → b < bound)
      → unvisited bound vs < fuel
      → Ends vs ds (search_links g rec ds vs)
  unfolding search_links
  links-Post rec fuel bound call [] vs h less = (_, refl, nil-Post vs)
  links-Post rec fuel bound call (d ∷ ds) vs h less =
      let (r, same, post) = call vs d (λ b e. h b (subst (λ c. Among c (d ∷ ds)) e here)) less in
      elim (Bool-cases r.found) [
        | inl e ↦ (r, rw (same, e, search_links) refl, Post-found vs d ds r e post)
        | inr e ↦
            let fewer = unvisited-le bound vs r.visited post.grows in
            let (q, same', post') =
              links-Post rec fuel bound call ds r.visited (λ b a. h b (there a))
                (omega (arith, fewer, less)) in
            (q, rw (same, e, search_links) same', Post-next vs d ds r q e post post')
      ]

  -- a call for one link
  rec-Post :
      (fuel bound : ℕ)
      → IsBounded g bound
      → (vs : List ℕ) (d : Option ℕ) → ((b : ℕ) → d ≡ some b → b < bound)
      → unvisited bound vs < fuel
      → Ends vs (d ∷ []) (is_cyclic_rec g fuel n vs d)
  unfolding is_cyclic_rec
  rec-Post zero bound links vs none h less =
      (record { found = false; visited = vs }, refl, none-Post vs)
  rec-Post (suc fuel) bound links vs none h less =
      (record { found = false; visited = vs }, refl, none-Post vs)
  rec-Post zero bound links vs (some d) h less = absurd (omega (arith, less))
  rec-Post (suc fuel) bound links vs (some d) h less = elim (Bool-cases (d == n)) [
    | inl e ↦ (_, rw (e, is_cyclic_rec) refl, reached-Post vs d ((==_iff d n).0 e))
    | inr e ↦
        let ne : d ≢ n = λ k. (ground arith) in
        elim (Bool-cases (elem d vs)) [
          | inl k ↦ (_, rw (e, k, is_cyclic_rec) refl, visited-Post vs d k ne)
          | inr k ↦
              let fewer = unvisited-less bound d vs (h d refl) k in
              let (r, same, post) =
                links-Post (is_cyclic_rec g fuel n) fuel bound (rec-Post fuel bound links)
                  (g.links d) (d ∷ vs) (links d) (omega (arith, fewer, less)) in
              (r, rw (e, k, is_cyclic_rec) same, node-Post vs d r ne post)
        ]
  ]

  -- where the links of a node are done and the list is closed, the node does not lead to `n`
  no_Leads : (vs : List ℕ) (a c : ℕ) → Closed [] vs → LinksDone vs (g.links a) → Leads g a c → c ≢ n
  no_Leads vs a c closed done (one l) = (done (some c) l).1
  no_Leads vs a c closed done (more {b = b} l rest) = elim (closed b (done (some b) l).0) [
    | inl old ↦ absurd (cc old)
    | inr done' ↦ no_Leads vs b c closed done' rest
  ]

-- With more fuel than nodes, where every link leads to a node of the graph, IsCyclic ends, and it
-- answers yes exactly if one link or more lead from the node back to it.
pub is_cyclic-Leads :
    (g : Graph) (bound fuel n : ℕ)
    → IsBounded g bound
    → bound < fuel
    → (r : Search) × (is_cyclic g fuel n ≡ some r) × ((r.found ≡ true) ↔ Leads g n n)
unfolding is_cyclic
is_cyclic-Leads g bound fuel n links more_fuel =
    let enough : unvisited bound [] < fuel = omega (arith, unvisited-bound bound [], more_fuel) in
    let (r, same, post) =
      links-Post g n (is_cyclic_rec g fuel n) fuel bound (rec-Post g n fuel bound links) (g.links n)
        [] (links n) enough in
    (r, same, (λ h. leads (post.hit h), λ h. answer r post h))
  where
    leads : (d : ℕ) × Among (some d) (g.links n) × Hit g n d → Leads g n n
    leads (d, among, inl e) = subst (Leads g n) e (one among)
    leads (d, among, inr rest) = more among rest

    answer : (r : Search) → Post g n [] (g.links n) r → Leads g n n → r.found ≡ true
    answer r post h = elim (Bool-cases r.found) [
      | inl e ↦ e
      | inr e ↦ absurd (no_Leads g n r.visited n n (post.closed e) (post.done e) h refl)
    ]
