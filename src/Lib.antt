-- ===== src/Lib.antt =====
-- A model of the DNSSEC signer of this repository and of the proofs of absence that its validator
-- accepts, and theorems about them.
--
-- The signer keeps one record per zone (signer/internal/state/state.go) and changes it from several
-- processes, the daemon and the command line, that share one state file. The rollover manager
-- (signer/internal/signer/rollover.go) moves a zone from one key, or one algorithm, to another: it
-- publishes new keys, waits until caches and the parent's DS set allow the next step, asks the
-- registrar to change that set, and drops old keys. The signer indexes the records of a zone by
-- owner (signer/internal/signer/zonemodel.go), checks them, loads the keys that the phase of the
-- rollover calls for and adds a chain of denial records (signer/internal/signer/sign.go). The
-- validator (validator/internal/validator/nsec.go) decides what such records prove; the two share
-- no code, and meet here in Denial/Signed.
--
-- State            the records `ZoneState`, `KeyState` and `RolloverState`, field by field
-- State/Equality   `zoneContentEqual` and the comparisons of the field classes
-- State/Publication `ConfirmPublication`, `PublishedSince`, `NewKeysPropagatedBy`
-- State/Diagnostics warnings, operation errors, `Status`, `NeedsOperator`
-- State/Merge      `mergeZone`; its copies are in Merge/Fields, `mergeDiagnostics` in
--                  Merge/Diagnostics
-- State/Validate   `validateZoneEntry`, `validateRolloverState`
-- State/Store      `Save`, `readDiskLocked`, `ReloadFromDisk` and the removal markers, on all zones
-- Rollover         what an operation meets (`Env`), the world it changes (`World`), and the calls
--                  that operations share: save, backup, staging, activation
-- Rollover/Propagation `stampNewKeyPropagation`, `newKeysPropagated`, `pushOldDSRemoval`
-- Rollover/Ksk     `StartKSKRollover`, `CompleteKSKRollover`, `CheckKSKRollover`
-- Rollover/Zsk     `CheckZSKRollover`, `startZSKRollover`, `handleZSKRolloverState`
-- Rollover/Algorithm `StartAlgorithmRollover`, `CompleteAlgorithmRollover`; in Algorithm/Check
--                  `CheckAlgorithmRollover`, in Algorithm/Blocked the warning of a phase that waits
-- Rollover/Recorded the order of saves and activations in a start
-- Sign             signer/internal/signer/sign.go: Sign/Serial `serialGt`, `serialTime`,
--                  `nextPublishedSerial`, `ValidateImportSerial`; Sign/Window
--                  `checkRRSIGWindow`; Sign/Record `recordSignedZone`; Sign/Needs `NeedsSign`
-- Sign/Keys        `loadKeysForSigning`: which keys are published and which sign
-- Sign/Rrsets      `signRecordsWithModel`: which RRsets are signed, and by which of these keys
-- Names            names, and their canonical order; Names/Labels the canonical text of a label;
--                  Names/Text the names of the validator, which are texts
-- Sets             the sorted keys of a map, for any order; sorting a slice
-- Zone             signer/internal/signer/zonemodel.go: the index of a zone, delegations, occlusion,
--                  authoritative owners, empty non-terminals, the types of a denial record
-- Zone/Input       signer/internal/signer/sign.go `validateZoneRecords`
-- Zone/Chain       `generateNSECChain`; Zone/Expectations `verifyNSECExpectations`
-- Denial           validator/internal/validator/nsec.go: NSEC proofs of NXDOMAIN and NODATA;
--                  Denial/Wildcard the denial half of a wildcard answer; Denial/Signed puts the
--                  signer's records to the validator
-- Nsec3            the same file: NSEC3 records, salts and hashes; Nsec3/Chains the partition into
--                  chains; Nsec3/Proofs the proofs of NXDOMAIN and NODATA in a chain;
--                  Nsec3/Wildcard the denial half of a wildcard answer
-- Budget           validator/internal/validator/budget.go: the work budget of a validation
-- RateLimit        signer/internal/registrar/registrar_ratelimit.go: one turn of `gate`
-- Scenarios        concrete zones and runs
--
-- A time is the number of nanoseconds since Go's zero time, so that `IsZero` is a test for 0; a
-- duration of the configuration is not negative, and a sum of a time and a duration does not
-- overflow; in Sign/Window and Sign/Serial the clock counts from 1970. An instant that the code
-- would put before the zero time is 0. A number of w bits is a natural number, and where the code
-- increments one the model wraps at 2 ^ w. A `nil` pointer is `none`. A Go map is a function of its
-- key, and in Zone and Nsec3 an association list. No function of the model has fuel: the code's loops
-- are loops over lists, and the waiting loop of the rate limiter is modelled one turn at a time.
--
-- An operation of the rollover manager is a function from the world of one zone to a result and
-- the world that it leaves. Each call outside memory (the state file, the key files, the registrar,
-- the parent's servers) is a field of `Env`, which also says how each of the run's saves goes: it
-- is written, written with its durability uncertain, or not written. The effects are recorded in
-- the world in the order in which they happen.
--
-- A name of the signer's zone is the list of its labels from the root down, a label the list of its
-- decoded octets in lower case. The validator works on texts: a name of Denial and Nsec3 is the list
-- of the pieces between the dots of its canonicalized text, escaped dots included, from the root
-- down, and `decoded` gives its labels where the code asks the DNS library for them.
-- `dns.SplitDomainName`, `dns.IsSubDomain`, SHA-1 and base32hex are parameters. The theorems on what
-- a proof says are about names whose text is that of their labels: lower-case letters, digits,
-- hyphens, underscores and asterisks. A resource record of a zone is its owner and its type number, and a type's text is
-- its number. Denial and Nsec3 start from the records whose signatures were verified.
--
-- Not modelled: the texts that tell the operator what to do, which are the data type `Action`; the
-- log, the metrics and the locks; the contents of key files, for which the proofs that need it
-- assume that tags in use are not handed out again; the JSON of the state file, of which State/Store
-- takes the document or the error that reading it gives. A test of days
-- against days in floating point is made on the durations. Of the signer, the NSEC3 chain that it
-- makes, the signatures and the key files; of the validator, the transport, the signatures, and
-- the chain of trust.
pub mod Prelude
pub mod Names
pub mod Sets
pub mod Zone
pub mod Denial
pub mod Nsec3
pub mod Budget
pub mod State
pub mod Rollover
pub mod Sign
pub mod RateLimit
mod Scenarios
