-- ===== src/Lib.antt =====
-- Clam turns LLVM bitcode into the control-flow graphs of Crab, an abstract interpreter, and
-- reads its invariants back. LLVM passes first lower what Crab has no statement for; a heap
-- abstraction over sea-dsa splits memory into regions; the builder makes a literal of Crab for
-- each LLVM value and a variable for each region, and translates every instruction; and the path
-- analyzer decides with an abstract domain whether a path of a graph is feasible, and explains
-- why it is not.
--
-- Prelude has the shared notation: native numbers and integers, Boolean tests and lists. Llvm is
-- the language that the lowering passes read and write: LLVM's icmp with its predicate tables is
-- a record of operations with the laws of the language reference, and a fragment of blocks with
-- branches and PHI nodes is run on fuel. The fuel is four blocks, and no path through a lowered
-- fragment has more than three.
--
-- Lower models lib/Transforms/LowerUnsignedICmp.cc (UnsignedIcmp: normalizeCmpInst,
-- processUnsignedICmp and runOnFunction) and processSelectInst of lib/Transforms/LowerSelect.cc
-- (Select).
--
-- Region models RegionInfo and Region of include/clam/HeapAbstraction.hh, and the order in which
-- lib/Clam/CfgBuilderLit.cc caches regions. SeaDsa models lib/Clam/SeaDsaToRegion.cc and the
-- tests of types of lib/Clam/SeaDsaHeapAbstractionUtils.cc: Graph holds what sea-dsa and LLVM
-- answer, Cells the tests of a cell, Cyclic the search of IsCyclic and ToRegion the conversion.
-- The recursion of IsCyclic is on fuel; one more than the number of nodes is enough, since every
-- call but the last visits a new node.
--
-- Lit models lib/Clam/CfgBuilderLit.cc and CfgBuilderLit.hh with the functions of
-- lib/Clam/CfgBuilderUtils.cc on types and constants: Values the values, types and parameters,
-- Consts the reading of integer constants over an APInt with its documented behaviour, Literal
-- the classes of literals and their accessors, Factory the caches and the makers of variables.
-- Crab's variable factory is a parameter with a state. A call that ends in CLAM_ERROR or in a
-- failed assert is the value clam_error.
--
-- Compare models the translation of integer comparisons of lib/Clam/CfgBuilder.cc: Crab has the
-- constraints and statements of Crab that are emitted, with their effect on Boolean variables,
-- SignOnes is unsignedCmpIntoSignOnes, and Insts is cmpInstToCrabBool, cmpInstToCrabInt and
-- unsignedCmpInstToCrabInt with normalizeCmpInst. Crab's tests of a constraint are a parameter.
--
-- Ir has the statements of Crab that the builder emits and what they do to the values of integer,
-- Boolean and reference variables; Crab's operations on numbers are a parameter, each with the
-- law that it is the function of its name on integers that are not bounded, and Runs is about
-- blocks that run one after the other. Ops models the instructions of lib/Clam/CfgBuilder.cc that
-- are no memory accesses: Views has LLVM's opcodes and is doBinOp, its table from opcodes to
-- statements and to operators on constants, with what it asks of the operands, Meaning says what
-- the opcodes compute, Binary is doArithmetic, doBoolLogicOp, doIntLogicOp and
-- visitBinaryOperator, Refs is cmpInstToCrabRef, and Cmp is visitCmpInst, for which the optimizer
-- of verifier calls is a parameter. Uses models the scans over the uses of a value of
-- lib/Clam/CfgBuilderUtils.cc, on the tree of the uses. Edges models execEdge with
-- addBlockInBetween, and the order in which buildCfg joins its block with the assignments of PHI
-- nodes; Phis models CrabInterBlockBuilder, which makes these assignments in two loops, with the
-- choice of regions as a parameter; the graph of Crab is a record of operations with laws. The
-- hooks of the property emitters are left out. Exits is setExitBlock.
--
-- Query models the ranges of lib/Clam/ClamQueryCache.cc: getConstantRange and the two versions of
-- range with their caches, over LLVM's ConstantRange with its documented behaviour and Crab's
-- domain as parameters. The sum of an int64_t and one is written out with a wrap-around, and the
-- theorems exclude the numbers where C++ does not define it.
--
-- PathAnalyzer models lib/Clam/crab/path_analysis: Interface has what it takes from Crab (a
-- graph, an abstract domain, the statements with what they define and use), Forward is
-- solve_path, Slice is remove_irrelevant_statements, Minimize is minimize_path, and Solve is
-- solve. SliceSound and SliceRuns are about the concrete runs of a sliced path.
--
-- Not modelled: memory instructions, casts and calls of the CFG builder, the tags of the query
-- cache, the memory regions, the emitters, the heap abstraction over sea-dsa, the optimizer,
-- devirtualisation and the other passes, which later parts of the library take up; printing,
-- options, registration of domains, the tools and the scripts, which carry no logic of the
-- translation. Crab, LLVM and sea-dsa are not this repository's code and are parameters. Logging
-- and the statistics are left out everywhere.
pub mod Prelude
pub mod Llvm
pub mod Region
pub mod Lit
pub mod SeaDsa
pub mod Lower
pub mod Compare
pub mod Ir
pub mod Uses
pub mod Ops
pub mod Edges
pub mod Phis
pub mod Query
pub mod Exits
pub mod PathAnalyzer
pub mod Tests
