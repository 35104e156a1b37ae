-- ===== src/Tests.antt =====
-- Runs of the definitions at concrete inputs, and the theorems at inputs that meet their hypotheses.
mod Stacks
mod Registries
mod Ensembles
mod Hierarchies
mod Builtins
mod Contexts
mod Invocations
mod Paths
mod Arguments
mod Protections
mod Lifecycles
mod Lists
mod Scopes
