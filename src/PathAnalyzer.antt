-- ===== src/PathAnalyzer.antt =====
-- lib/Clam/crab/path_analysis: path_analyzer.hpp and path_analyzer.cc. `Interface` is what the
-- analyzer takes from Crab, `Forward` is solve_path, `Slice` is remove_irrelevant_statements,
-- `Minimize` is minimize_path and `Solve` is solve with its checks of the path.
pub mod Interface
pub mod Forward
pub mod Slice
pub mod Minimize
pub mod Solve
pub mod ForwardLaws
pub mod PathLaws
pub mod SliceLaws
pub mod SliceSound
pub mod SliceRuns
pub mod MinimizeLaws
pub mod SolveLaws
pub mod FwdMap
pub mod SolveAnswers
