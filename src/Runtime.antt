-- ===== src/Runtime.antt =====
-- How a program runs: what it prints and calls is logged, and the answers of the DDS library and of
-- the operating system are arbitrary functions of that log. `Runtime.Program` is the monad of the
-- models, `Runtime.Contract` has its proof rules, `Runtime.Wait` the polling loop that the programs
-- share.
pub mod Event
pub mod Program
pub mod Contract
pub mod Wait
pub mod Invariant
