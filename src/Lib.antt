-- ===== src/Lib.antt =====
-- The migration tool moves a cPanel account (mail, files, databases) from one host to another. This
-- library models the parts of it that decide: what a platform may ask for and what the tool may
-- answer (internal/executioncontract), the events a run writes and the secrets it keeps out of them
-- (internal/events), the sessions of the workbench and their state machine (internal/workbench), the
-- decoder of PHP data found on the account (internal/phpserialize), the checks on names that come
-- from the remote side (internal/validate, internal/domainname), the renaming of databases
-- (internal/dbmig), the narrowing of a run to one domain or mailbox (internal/migrate), the comparison
-- of the inventories of the two accounts, the policy on what differs and the plans of cron lines and
-- DNS records (internal/accountinventory), and the slot that one run of the web interface at a time
-- holds (internal/webui).
--
-- How the parts interact. The writer of internal/events redacts a payload by key and encodes an event;
-- the validators of internal/executioncontract decide with the same test of keys whether a document
-- may be stored; a specification enters through ParseSpec and a report leaves through
-- ValidateResultJSON. The store of internal/workbench keeps one session for each folder and changes
-- its status only as the transition matrix says, or by force with a reason. The inventories of the two
-- sides go through DiffInventories, whose sections EvaluatePolicy reads by name; BuildCronPlan and
-- BuildDNSPlan read the same two inventories. The web interface runs inventory, diff, policy, DNS plan and checklist
-- as the steps of one execution, behind the slot.
--
-- Files and source:
--   Events, Events/Redact, Events/Writer: internal/events/event.go, redact.go, writer.go
--     (ValidateRunID, isSensitiveKey, RedactMap, redactValue, redactData, Write). Events/Redact has the
--     redaction of a decoded document; Events/Writer that of any Go value, where a value of a type that
--     redactValue does not go into is kept as its JSON form.
--   Contract and its children: internal/executioncontract/contract.go. Contract has the helpers
--     (requireString, requireBool, requirePositiveInt, checkFormatVersion, ...), Contract/Decode
--     decodeSingleObject, Contract/Timestamp requireTimestamp, Contract/Redacted checkRedacted,
--     Contract/Artifact checkArtifactPath, Contract/Spec ParseSpec, Contract/Event
--     ValidateEventJSON, Contract/Report ValidateResultJSON. Each validator is a chain of results
--     that ends at the first error, as the source returns.
--   PhpSerialize: internal/phpserialize/phpserialize.go. The decoder's position is the list of the
--     bytes that are left; its depth is the number of levels that arrays may still nest, so the
--     recursion is structural and needs no fuel. PhpSerialize/Serialize is PHP's own format, written
--     with string keys.
--   Workbench/Status, Workbench/Session: internal/workbench/types.go and status.go, and the changes of
--     a session in store.go and artifacts.go. Workbench/Store, Workbench/Store/Disk: store.go and
--     artifacts.go (CreateWithSetup, SetStatus, ConfirmScope, AttachArtifact, readSession,
--     writeSession, isCleanID). The state is the list of folders with their sessions; each call returns
--     its answer and the folders after it, and has the outcome of the write of session.json and of the
--     copy of an artifact as arguments. Workbench/Store/Files has those two (writeSession, copyFromFD,
--     the end of AttachArtifact) call by call, from CreateTemp to Rename, on a disk that maps paths to
--     contents and with every moment of it recorded; what each call answers is an argument.
--   Validate: internal/validate/validate.go. DomainName: internal/domainname/domainname.go.
--   Dbmig, Dbmig/Tables, Dbmig/Plan: internal/dbmig/plan.go (remapName, remap, prefixOf,
--     deriveSrcPrefix, the mapping of BuildPlan; BuildPlanWithMapping, whose maps are lists of
--     entries). Migrate/Scope: internal/migrate/scope_filter.go. Migrate/Compare: classifyBox of
--     internal/migrate/compare.go and internal/model/mapping.go.
--   Inventory: internal/accountinventory/types.go, the fields that the parts below read. Inventory/Diff
--     and its children Items, Dns, Cron and Inventories: diff.go (diffKeyed, the items of each section,
--     diffDNS, diffCron, DiffInventories), with normalizeAutoresponderBody and autoresponderCharset of
--     emailplan.go. Inventory/Policy, Rules and Evaluate: policy.go (the eval functions of the
--     sections, EvaluatePolicy); the title and the recommendation of a finding, which are prose, are
--     left out. Inventory/CronPlan: cronplan.go. Inventory/DnsPlan: dnsplan.go (Txt: splitTXTSegments,
--     by recursion on the length, since a turn of the loop takes a byte at least; Translate:
--     translateRecords, translateTXTValues; Classify: classify; Zone: buildZonePlan, BuildDNSPlan;
--     Findings: zonePolicyFindings, nonDNSBlockers). The names of files, their digests and the time, which
--     the callers fill in, are left out.
--   Webui/Job: internal/webui/job.go. A function is one section of the code under the lock; execute is
--     a sequence of them. Webui/Job/Slot has the interleavings, with who holds the slot beside the
--     manager; Webui/Job/Pipeline the steps of the analysis.
--   Sorting: sort.Slice, sort.SliceStable and sort.Strings, as an insertion sort.
--   Json, Strconv, Paths: the JSON values, the decimal integers and the lexical reading of paths, from
--     the root or from a directory, that the parts above share. What a path names on Windows is in
--     Contract/Artifact. Prelude: the common notation and lemmas. Tests: concrete runs.
--
-- Conventions. A text is the list of its bytes. An int64 is an integer whose range the parser checks,
-- as strconv.ParseInt does; lengths and counts are natural numbers. An error message is a constructor
-- that keeps the name it speaks of. A Go map is the list of its entries, and the order of the list
-- stands for the order of a loop over the map.
--
-- What is a parameter. strings.ToLower and strings.TrimSpace (a record Unicode, with the law that they
-- keep a text of lower-case letters and underscores), time.Parse, Year and Before (Clock), the JSON
-- decoder (JsonDecoder), ParseFloat and the verb %v (Library), the path of the artifact directory, the
-- version text, and whatever the operating system answers to a call of the store. The verb %q of fmt
-- (quote), strings.Fields (words), filepath.Join, the runner of a step and what the disk holds
-- (exists, is_apply) are functions without a law, as are strings.ToUpper, netip.ParseAddr and
-- utf8.ValidString (Net).
--
-- What the theorems on the files of the store ask of the operating system. CreateTemp gives a name that
-- no file has, and a file under os.Remove goes; the random suffix makes the path of a copy a new one.
-- Durability after a crash of the machine (Sync) and file modes (Chmod) are outside the model, and so
-- are symbolic links in the reading of paths. A number of a payload keeps its text where the writer
-- decodes it, although Go goes through a float64.
--
-- What is not modelled: network and other file I/O, the transfers of mail, files and databases, the
-- collectors, the email plan and the checklist of internal/accountinventory, the pages of the
-- web interface and the command line.
mod Prelude
mod Tests
pub mod DomainName
pub mod Contract
pub mod Dbmig
pub mod Events
pub mod Inventory
pub mod Webui
pub mod Json
pub mod Migrate
pub mod Paths
pub mod PhpSerialize
pub mod Sorting
pub mod Strconv
pub mod Validate
pub mod Workbench
