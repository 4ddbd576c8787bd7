-- ===== src/Tests.antt =====
-- Runs on concrete data, and what the theorems say of them.
mod Unification
mod Words
mod Editing
mod Checking
mod Accepted
mod Weaving
