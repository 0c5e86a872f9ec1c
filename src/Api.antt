-- ===== src/Api.antt =====
-- backend/app/api/cases.py and the stored cases: the endpoints and the background job.
pub mod Rows
pub mod Cases
pub mod Stored
pub mod Signatures
pub mod SecondLook
pub mod Decisions
pub mod Views
pub mod Reads
pub mod Jobs
pub mod Viewing
pub mod Settling
pub mod Requests
pub mod Candidates
