-- ===== src/Lib.antt =====
-- Delorean is the command line tool of the integreatly operator's release pipeline (Go, packages
-- cmd and pkg). A command reads files or a service, decides, and writes files or calls a service.
-- This library models the deciding parts and proves what makes them correct.
--
-- Conventions. Base holds what all modules share. A Go string is a list of bytes (Base/Texts). A
-- function that can fail returns a Result: a value, an error or a run-time panic (Base/Results). An
-- `int` is an integer (Base/Int), and the conversion from uint64 keeps its wrap-around. A Go map is
-- an association list. What is not in the repository is a parameter: the package semver, AWS,
-- GitHub and other services.
--
-- Parts, by file.
-- Version: pkg/utils/rhmi_version.go, parsing of release versions (NewRHMIVersion, NewVersion) and
--   the names made from them (TagName, RCTagRef, ReleaseBranchName, ...). Version/Parsing and
--   Version/Naming hold the proofs.
-- SupportedVersions: cmd/getSupportedVersions.go, the selection of supported streams
--   (trimSemverVersions, getMajorVersions, getMinorVersions, getPatchVersions, run). Sorting and Top
--   say what a cut of a sorted slice keeps; Majors, Streams and Loops treat the loops, Pipeline `run`.
-- AwsAccount: cmd/cleanupAwsAccount.go, the removal of leftovers of deleted clusters (run and all
--   it calls). The state is the command's maps and lists with the calls that removed something.
--   Fetch, Safety, Spares and DryRun hold the proofs.
-- Parallel: pkg/utils/concurrency.go, ParallelLimit as steps of its goroutines and channels. Correct
--   has the invariant, Answer the returned value, Progress the absence of deadlocks and the bound.
-- TagRelease: cmd/tagRelease.go, DoTagRelease with its refs (Latest), the image that it
--   selects (Selected), the copies it makes on quay.io (Tags) and the whole (Release). How often
--   wait.Poll tries is a parameter.
-- Reports: cmd/cleanupReports.go, the archive of processed reports (Moved, Buckets). Its run is a
--   client of Parallel.
-- MergeBlocker: cmd/mergeBlocker.go, the issues that block merges into a branch (Issues).
-- MergeRelease: cmd/mergeRelease.go, the merge of a release's pull request (Merged).
-- OlmGraph: cmd/checkOLMGraph.go, the check that each version replaces one that is there (Complete).
-- Git: pkg/services/git_service.go and the steps that commands share. Base/Traces and Base/Plans have
--   what it means that a program follows a plan of actions, Base/History what holds of each action
--   after those before it. Git/Plans holds the proofs, Git/Sandbox a world for examples.
-- CreateRelease: cmd/createRelease.go, the branch of a release and its pull request (Plan).
-- ProdsecManifest: cmd/createProdsecManifest.go, the manifest of the components (Plan).
-- OpenshiftCi: cmd/openshiftCIRelease.go and cmd/openshiftCIAddBranch.go, the release branch and its
--   configuration in the CI's repository (Plan, Release). Setting a field of a YAML file and `make
--   jobs` are single actions.
-- Images: pkg/utils/images.go, the names of images in other registries (Names).
-- Csv: pkg/utils/csv.go and pkg/utils/env.go, the images in a cluster service version. Update has
--   the two functions that rewrite it, Find the searches; EnvVars, Operands and Invariant the proofs.
--   Bundles and Current treat the search for the current CSV of a package.
--   Slices share their arrays, so the loop over a container's variables reads what it has written.
-- OsdAddon: cmd/osdAddonRelease.go, the release of an addon: Manifest is what becomes of the CSV,
--   Command and Run the steps. Plan and Release say what it does and in which order, Guards under
--   which conditions, Overrides what the new CSV holds.
-- Yaml: pkg/utils/yaml.go, the setting of a field in a tree; Get says what a path holds, Frame what a
--   set changes.
-- QueryReport: cmd/queryReport.go, the queries of a report, a client of Parallel (Answered).
-- TagRepository: cmd/tagReleaseRepository.go and cmd/tagRepository.go, the tag of a branch's head
--   (Tagged).
--
-- Not modelled: flags, logging and the parsing of files, and the commands that mostly call
-- registries, clusters and Polarion.
pub mod Base
pub mod Version
pub mod SupportedVersions
pub mod AwsAccount
pub mod Parallel
pub mod TagRelease
pub mod Reports
pub mod OlmGraph
pub mod MergeBlocker
pub mod MergeRelease
pub mod Git
pub mod CreateRelease
pub mod ProdsecManifest
pub mod OpenshiftCi
pub mod Images
pub mod Csv
pub mod OsdAddon
pub mod Yaml
pub mod TagRepository
pub mod QueryReport
