-- ===== src/SeaDsa/Reach.antt =====
-- Paths along the links of a graph, and the number of nodes that a search has not visited.
use clam.Prelude.{
  ℕ, zero, suc, ◌+◌, ◌<◌, ◌≤◌, ◌≡◌, inl, inr, refl, sym, subst, true, false, List, [], ◌∷◌, Option,
  some, ◌==◌, elem, if◌then◌else◌, arith, Bool-cases, ==_iff,
}
use clam.SeaDsa.Graph.{Graph}

-- A link is one of the list.
pub data Among (d : Option ℕ) : List (Option ℕ) → Type 0 where
  here : {ds : List (Option ℕ)} → Among d (d ∷ ds)
  there : {e : Option ℕ} {ds : List (Option ℕ)} → Among d ds → Among d (e ∷ ds)

-- One link or more lead from a node to another.
pub data Leads (g : Graph) : ℕ → ℕ → Type 0 where
  one : {a b : ℕ} → Among (some b) (g.links a) → Leads g a b
  more : {a b c : ℕ} → Among (some b) (g.links a) → Leads g b c → Leads g a c

-- every link leads to one of the first `bound` nodes
abbrev pub IsBounded : Graph → ℕ → Type 0
IsBounded g bound = (a b : ℕ) → Among (some b) (g.links a) → b < bound

-- the number of nodes below the bound that are not in the list
abbrev pub unvisited : ℕ → List ℕ → ℕ
unvisited zero visited = 0
unvisited (suc m) visited =
    let rest = unvisited m visited in if elem m visited then rest else 1 + rest

-- the second list has the nodes of the first
abbrev pub Grows : List ℕ → List ℕ → Type 0
Grows vs ws = (x : ℕ) → elem x vs ≡ true → elem x ws ≡ true

pub Grows-next : (d : ℕ) (vs : List ℕ) → Grows vs (d ∷ vs)
Grows-next d vs x h = elim (Bool-cases (x == d)) [ inl e ↦ rw e refl | inr e ↦ rw e h ]

pub unvisited-le : (m : ℕ) (vs ws : List ℕ) → Grows vs ws → unvisited m ws ≤ unvisited m vs
unvisited-le zero vs ws h = omega arith
unvisited-le (suc m) vs ws h =
    let ih = unvisited-le m vs ws h in
    elim (Bool-cases (elem m vs)) [
      | inl k ↦ rw (k, h m k) (omega (arith, ih))
      | inr k ↦ elim (Bool-cases (elem m ws)) [
        | inl j ↦ rw (k, j) (omega (arith, ih))
        | inr j ↦ rw (k, j) (omega (arith, ih))
      ]
    ]

pub unvisited-bound : (m : ℕ) (vs : List ℕ) → unvisited m vs ≤ m
unvisited-bound zero vs = omega arith
unvisited-bound (suc m) vs =
    let ih = unvisited-bound m vs in
    elim (Bool-cases (elem m vs)) [
      | inl k ↦ rw k (omega (arith, ih))
      | inr k ↦ rw k (omega (arith, ih))
    ]

pub unvisited-less :
    (m d : ℕ) (visited : List ℕ)
    → d < m
    → elem d visited ≡ false
    → unvisited m (d ∷ visited) < unvisited m visited
unvisited-less zero d visited h k = absurd (omega arith)
unvisited-less (suc m) d visited h k = elim (Bool-cases (m == d)) [
  | inl e ↦
      let same : m ≡ d = (==_iff m d).0 e in
      let k' : elem m visited ≡ false = subst (λ x. elem x visited ≡ false) (sym same) k in
      rw (e, k') (omega (arith, unvisited-le m visited (d ∷ visited) (Grows-next d visited)))
  | inr e ↦
      let below : d < m = ground arith in
      let ih = unvisited-less m d visited below k in
      elim (Bool-cases (elem m visited)) [
        | inl j ↦ rw (e, j) (omega (arith, ih))
        | inr j ↦ rw (e, j) (omega (arith, ih))
      ]
]

pub Among-first : {c d : Option ℕ} (ds : List (Option ℕ)) → Among c (d ∷ []) → Among c (d ∷ ds)
Among-first ds here = here
Among-first ds (there a) = elim a [ ]
