-- ===== src/Build.antt =====
-- How a repository is built (deploypro/domain/detect.py, dockerfiles.py and buildplan.py): the
-- generators in Dockerfiles, what regular expressions read in Readers, a directory in Tree, and the
-- rules in Paths, Node, Python and Detect. Stage is a reference reader of Dockerfiles; Lines, Quoting,
-- Tails, Serving, Plans, Detected and Decided are the proofs about what it reads.
pub mod Plan
pub mod Json
pub mod Dockerfiles
pub mod Readers
pub mod Paths
pub mod Tree
pub mod Node
pub mod Python
pub mod Detect
pub mod Stage
pub mod Lines
pub mod Quoting
pub mod Tails
pub mod Serving
pub mod Plans
pub mod Detected
pub mod Decided
mod Tests
