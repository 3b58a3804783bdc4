-- ===== src/Peephole.antt =====
-- The peephole optimizer of compiled functions (neo-compiler/src/codegen/opt.rs). A pass edits the
-- instructions of a function and its patches, and says whether it changed anything. A `while` loop
-- runs on fuel and gives `none` when the fuel runs out.
pub mod Slots
pub mod Relayout
pub mod Passes
pub mod Targets
pub mod Offsets
pub mod Loop
pub mod Jumps
pub mod Shorten
pub mod Counts
pub mod Removed
pub mod Calls
pub mod Ends
pub mod Sites
pub mod Emission
pub mod Loads
