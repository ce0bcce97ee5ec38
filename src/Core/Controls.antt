-- ===== src/Core/Controls.antt =====
-- `_fold_root_controls`: controls that a root source states over exactly the requirements that it
-- governs at its receipt. `Scope` has the selection of requirements, `References` the check of the
-- references, `Fold` the loop; the children of `Fold` have the proofs.
pub mod States
pub mod Scope
pub mod References
pub mod Fold
