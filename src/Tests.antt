-- ===== src/Tests.antt =====
-- Tests of the definitions on concrete inputs, and the theorems applied to such inputs.
mod Version
mod Wheels
mod Update
mod Stream
mod Tarball
mod Tree
mod SourcePin
mod ThirdParty
mod CacheChecks
mod ContextCache
mod Smoke
mod ApiCheck
mod Branches
mod Consistency
mod Stack
