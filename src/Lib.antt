-- ===== src/Lib.antt =====
-- A verification library of decent-wallet: its public Identity records, its signing capability, its
-- storage, the session of an unlocked wallet and the adapter that publishes its records, modelled after
-- src/decent_wallet/identity.py, signer.py and container.py.
--
-- How the parts interact: a wallet session (container.py) holds a seed and its public key in an encrypted
-- container, which it replaces by an atomic write. A capability (signer.py) signs one SignedUpdate for it.
-- Updates, their signatures and the states that they lead to are read and checked by the Identity
-- parser (identity.py), over drafts, to which signers add proofs in a bundle. A rotation of the owner's
-- key stages a successor in the session; while its publication may be on its way, a latch
-- registry holds its binding. The adapter (identity.py) asks a person for consent, has an update signed
-- or a bundle published over a transport, and prepares, dispatches and confirms a rotation.
--
-- The files:
--   Prelude: Boolean tests, lists, results with an exception, and decidable equality.
--   Python: the values of a decoder, text and its encoding, sorting, and dicts.
--   Crypto: what is used of hashlib, cryptography and cbor2, as a record of parameters.
--   Identity/Require, Authorization, Update, State, Proof: the `_require_*` helpers,
--     `_validate_authorization`, `_decode_signed_update`, `build_identity_update`, `_validate_proof_list`.
--   Identity/Envelope: `_parse_identity_envelope`. Operations has the checks of each operation, Signers
--     the loop over the proofs, Parse the rest, and Rules the protocol without reference to the parser.
--   Identity/Draft: `_validate_draft_transition` (Rules), `_parse_previous_state_chain` (Chain),
--     `IdentityDraft` (Create, Make), and chains of states (Lineage).
--   Identity/Bundle: `IdentityBundle` with merge and finalize.
--   Identity/Transition: `_validate_transition`.
--   Identity/Latch: `_RotationBinding` and `_RotationLatchRegistry`.
--   Storage: `_stage_file`, `_restore_previous_after_failed_sync` and `_atomic_write`.
--   Signer: Check has `_validate_identity_update`, Capability has `SignerCapability`.
--   Wallet: State has the attributes of `Wallet`, Install `_install_secret_material`, Session the helpers
--     of every method, Commit how a payload is stored, Rotation the methods that change keys, Calls
--     sequences of calls, Legacy the binding of an environment to a legacy intent, Possession
--     `prove_pending_signing_key_rotation`; Keys, Sound, Storing, Moves, Results, Runs, Ends, Returns,
--     Finalize, Binding, Bound, Rotates, Proven and Opened have the lemmas.
--   Registry: World has what the adapter is connected to, State the attributes of `RegistryAdapter` with
--     the history of its calls, Consent `ConsentTranscript`, Nonces the replay store, Gate
--     `_consent_gate`, Predecessor and Read `read_state` and `_parse_state_with_history`, Request
--     `_confirm`, Publish `publish_bundle`, Submission, Artifact, Signing and Submit `submit_identity`,
--     Publication `RotationPublication`, Prepare, Confirm and Dispatch the three steps of a rotation,
--     Drafts the two that create drafts, Calls sequences of calls; Growth, Quiet, Guards, Asking,
--     Publishing, Submitting, Rotating, Matching, Dispatching, Sending, Completing, Accepting and
--     Preparing have the lemmas of one safe call, History, Facts, Tested, Evidence, Written and Accepted those of what a
--     call returns.
--   Tests: runs on small inputs.
--
-- Conventions: a raised exception is the error of a Result; in the session, a method gives its result and
-- the session after it, so what was written stays written when it raises. Python's `int` is the native
-- number where the source has rejected negative ones; no width is involved. Each loop of the source
-- is a recursion on the list that it runs over. The loop of `_parse_state_with_history` is a recursion on
-- how many more envelopes its chain may hold, the source's own limit of 1024. A clock reading is a parameter of a
-- call of the session, and the readings within one call agree, but for those
-- before and after a consent handler, whose calls on the session are its own; the adapter's world answers each reading
-- anew, by the whole history of calls, and may run other threads' operations on the latches in each of
-- them, but for those that wait for a lock that is held. A publication is given back by the handle
-- under which the adapter keeps it, as a caller cannot make one. Each method that holds a lock is one step.
-- Failures of the operating system are the fields of Faults, one for each call; another process may
-- change the target between the write and a failed sync.
--
-- Not modelled: the cryptography and the encodings themselves (parameters), the JSON, base64 and AEAD of
-- the container (the parameter Vault), the password and key derivation, threads and timers, the
-- transport of the adapter (src/decent_wallet/registry_transport.py, a parameter), the command line
-- (src/decent_wallet/desktop_cli.py), and the scripts. The claiming of a rejected dispatch is the
-- argument `claimed` of its method.
pub mod Prelude
pub mod Python
pub mod Crypto
pub mod Identity
pub mod Storage
pub mod Signer
pub mod Wallet
pub mod Registry
pub mod Tests
