-- ===== src/Edges/Links.antt =====
-- execEdge puts the new block of a conditional branch between the blocks of its edge.
use clam.Prelude.{
  ℕ, ◌+◌, ◌≡◌, sym, ap, ◌∙◌, Bool, not, ◌&&◌, ◌||◌, some_inv, List, none, some, ◌==◌,
}
use clam.Llvm.{Icmp}
use clam.Lit.Values.{Value, Params, VarFactory}
use clam.Lit.Consts.{ApInt}
use clam.Lit.Literal.{Checked, ok, clam_error}
use clam.Lit.Factory.{Factory}
use clam.Compare.Crab.{CstTests}
use clam.Ir.{RefCst, Stmt}
use clam.Uses.{Users}
use clam.Edges.{
  Condition, cond_br, GraphOps, add_block_in_between, EdgeState, with_block, edge_block, exec_edge,
}

-- The edge from a to b.
abbrev pub is_edge : ℕ → ℕ → ℕ → ℕ → Bool
is_edge a b x y = (x == a) && (y == b)

abbrev ok_or {ℓ} : {A : Type ℓ} → A → Checked A → A
ok_or a (ok b) = b
ok_or a clam_error = a

pub record GraphLaws (g : GraphOps) : Type 0 where
  pub insert_law :
      (b : ℕ) (graph : g.Graph) (x y : ℕ) → g.linked (g.insert b graph) x y ≡ g.linked graph x y
  pub link_law :
      (a b : ℕ) (graph : g.Graph) (x y : ℕ)
      → g.linked (g.link a b graph) x y ≡ (is_edge a b x y || g.linked graph x y)
  pub unlink_law :
      (a b : ℕ) (graph : g.Graph) (x y : ℕ)
      → g.linked (g.unlink a b graph) x y ≡ (not (is_edge a b x y) && g.linked graph x y)

module _ (g : GraphOps) (laws : GraphLaws g) where
  -- the edges after a block is put between two others
  abbrev pub linked_between : ℕ → ℕ → ℕ → g.Graph → ℕ → ℕ → Bool
  linked_between src dst bb graph x y =
      is_edge bb dst x y
      || (is_edge src bb x y || (not (is_edge src dst x y) && g.linked graph x y))

  add_block_in_between_lem :
      (src dst bb : ℕ) (graph : g.Graph) (x y : ℕ)
      → g.linked (add_block_in_between g src dst bb graph) x y ≡ linked_between src dst bb graph x y
  unfolding add_block_in_between
  add_block_in_between_lem src dst bb graph x y =
      laws.link_law bb dst (g.link src bb (g.unlink src dst graph)) x y
      ∙ ap (λ b. is_edge bb dst x y || b)
          (laws.link_law src bb (g.unlink src dst graph) x y
            ∙ ap (λ b. is_edge src bb x y || b) (laws.unlink_law src dst graph x y))

  module _ {half : ℕ} (m : Icmp half) (f : VarFactory) (value_at : ℕ → Value)
      (ap' : (w : ℕ) → ApInt w) (content_width : ℕ → ℕ) (params : Params) (tests : CstTests)
      (negate : RefCst → RefCst) (uses_of : ℕ → Users) where
    open f use {State}

    abbrev Edge : Type 0
    Edge = EdgeState m f value_at ap' content_width params tests negate uses_of g

    -- If execEdge makes a block for an edge of a conditional branch, the number of the block is the
    -- next one, and its statements are those of the branch's condition for the edge. The new edges are
    -- from the source to the block and from the block to the target; the edge between source and
    -- target is gone, and every other edge is as before.
    pub exec_edge-Splits :
        (node : ℕ → ℕ) (c : Condition) (succ0 succ1 src dst : ℕ) (s s' : Edge) (id : ℕ)
        (block : List Stmt)
        → exec_edge m f value_at ap' content_width params tests negate uses_of g node
            (cond_br c succ0 succ1)
            src
            dst
            s
          ≡ ok (some (id, block), s')
        → (id ≡ s.id + 1)
          × (s'.id ≡ id)
          × (edge_block m f value_at ap' content_width params tests negate uses_of c
                (succ0 == dst)
                (succ1 == dst)
                s.factory
              ≡ ok (block, s'.factory))
          × ((x y : ℕ)
              → g.linked s'.graph x y ≡ linked_between (node src) (node dst) id s.graph x y)
    unfolding exec_edge
    exec_edge-Splits node c succ0 succ1 src dst s s' id block made =
        from
          (edge_block m f value_at ap' content_width params tests negate uses_of c (succ0 == dst)
            (succ1 == dst) s.factory)
          made
      where
        from :
            (emitted : Checked (List Stmt × Factory State))
            → with_block m f value_at ap' content_width params tests negate uses_of g
                (add_block_in_between g
                  (node src)
                  (node dst)
                  (s.id + 1)
                  (g.insert (s.id + 1) s.graph))
                (s.id + 1)
                emitted
              ≡ ok (some (id, block), s')
            → (id ≡ s.id + 1)
              × (s'.id ≡ id)
              × (emitted ≡ ok (block, s'.factory))
              × ((x y : ℕ)
                  → g.linked s'.graph x y ≡ linked_between (node src) (node dst) id s.graph x y)
        from clam_error e = absurd (cc e)
        from (ok (ss, fac)) e =
            let both = ap (ok_or (none, s)) e in
            let state = ap (λ r. r.1) both in
            let made = some_inv (ap (λ r. r.0) both) in
            let is_id = sym (ap (λ r. r.0) made) in
            (
              is_id,
              sym (ap (λ t. t.id) state) ∙ sym is_id,
              ap (λ b. ok (b, fac)) (ap (λ r. r.1) made) ∙ ap (λ t. ok (block, t.factory)) state,
              λ x y.
                  ap (λ t. g.linked t.graph x y) (sym state)
                  ∙ (add_block_in_between_lem (node src) (node dst) (s.id + 1)
                        (g.insert (s.id + 1) s.graph) x y
                      ∙ (ap
                            (λ b.
                              is_edge (s.id + 1) (node dst) x y
                              || (is_edge (node src) (s.id + 1) x y
                                  || (not (is_edge (node src) (node dst) x y) && b)))
                            (laws.insert_law (s.id + 1) s.graph x y)
                          ∙ ap (λ n. linked_between (node src) (node dst) n s.graph x y)
                              (sym is_id))),
            )
