-- ===== src/Authority.antt =====
-- scripts/cg_authority.py: authorizations of the root user, bound once to an exact target, and the
-- decision whether a concrete action is one of them. `Values` has the exact values, `Fields` the
-- tables of actions and normative fields, `Bind` and `Evaluate` the two operations, `Laws` what an
-- authorization guarantees.
pub mod Values
pub mod Fields
pub mod Bind
pub mod Evaluate
pub mod Laws
pub mod RoundTrip
mod Examples
