-- ===== src/Goal.antt =====
-- The goal contracts that tasks and memories belong to.
pub mod Rows
