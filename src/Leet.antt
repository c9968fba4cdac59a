-- ===== src/Leet.antt =====
-- leet/climbStairs.c and leet/dichotomy.c: two ways to count the ways up a staircase, and a binary
-- search that gives an index to insert at.
pub mod Climb
pub mod Search
mod Tests
