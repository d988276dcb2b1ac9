-- ===== src/Registry.antt =====
-- identity.py: the Registry adapter and what it is connected to.
pub mod Consent
pub mod World
pub mod State
pub mod Nonces
pub mod Gate
pub mod Predecessor
pub mod Read
pub mod Request
pub mod Publish
pub mod Publication
pub mod Prepare
pub mod Confirm
pub mod Dispatch
pub mod Submission
pub mod Artifact
pub mod Signing
pub mod Submit
pub mod Growth
pub mod Quiet
pub mod Guards
pub mod Asking
pub mod Publishing
pub mod Submitting
pub mod Rotating
pub mod Matching
pub mod Dispatching
pub mod Sending
pub mod Completing
pub mod Accepting
pub mod Preparing
pub mod Calls
pub mod History
pub mod Facts
pub mod Tested
pub mod Evidence
pub mod Written
pub mod Accepted
pub mod Drafts
