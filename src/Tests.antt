-- ===== src/Tests.antt =====
-- Witnesses of the theorems at concrete inputs.
mod World
mod Areas
mod Names
mod Files
mod Links
mod Stages
mod Trees
mod Modes
mod Users
mod Paths
mod Processes
mod Mappings
mod Pipes
mod Tables
mod Sessions
mod Hosts
mod Variables
mod Machine
mod Programs
mod Messages
