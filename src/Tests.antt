-- ===== src/Tests.antt =====
-- Tests: the theorems on concrete inputs. No code of the repository is modelled here.
mod Samples
mod Frames
mod Execution
mod Running
mod Predict
mod Predictive
mod Transfers
mod Lookup
mod Starting
mod Commands
mod CommandLine
mod Threads
mod Recitation
