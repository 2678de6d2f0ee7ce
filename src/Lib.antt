-- ===== src/Lib.antt =====
-- go-gather gathers resources from files, HTTP, git and OCI registries and expands archives. This
-- library models its expanders, its gatherers and the safety checks they rest on.
--
-- The parts, and the files that model them:
-- Base: numbers, lists, texts as lists of bytes, `int64` as bit patterns with wrap-around.
-- Path: what the code uses of package path/filepath (Clean, Join, Dir, Base, Ext), and the walk of
-- a path from a working directory, without symbolic links.
-- Helpers: internal/helpers/helpers.go. `is_path_contained` is IsPathContained, `expand_path` is
-- ExpandPath. Containment and Climb say what the test decides, Entry applies it to archives.
-- Exec: Go errors, and code that changes a state and may return an error. Keeps is the logic of
-- invariants for it, on both ways out; Leads is the same with a condition on the value that is
-- returned; Ends says that the fuel of a model was enough.
-- Url: what the code uses of package net/url of Go 1.26.0: Parse, String, Hostname, Query and Encode.
-- Authority reads user, host and port, Ip is the parseIPv6 of net/netip for hosts in brackets.
-- Os: what the code calls of package os, on a tree of files and directories. A world carries a
-- list of failures, one for each call to come, so a statement for all worlds holds for every
-- pattern of failing calls and of short writes. A `..` behind a name needs the directory it leaves.
-- Replace has temporary files and renaming, Removal has RemoveAll, Confined
-- and Intact say what code leaves alone: all outside of a directory, or all that is there. Filled
-- says what a file holds where every call has returned.
-- Expand: expand/expander.go. Limits has ExpandOptions and Effective, Copy has limitWriter and
-- CopyBounded, Io has io.Copy and io.LimitReader, Cleanup has RemoveOnError, Registry has
-- GetExpander and RegisterExpander (and the same code in gather/gatherer.go), Magic has
-- IsCompressedFile and IsTarFile. Rules is the interface that an invariant of the disk fills,
-- Invariants fills it, and Undone joins an extraction that stays below a directory with the
-- removal of it; Below puts it under the law that a client relies on.
-- Tar: expand/tar/tar.go. Untar has untar and writeTarFile, Expander has Expand and Matcher.
-- Confinement, Removal and Accepted are about where, after what error and what it extracts.
-- Zip: expand/zip/zip.go. Unzip has Expand, extractFile and Matcher; the rest is as for Tar.
-- Bzip2: expand/bzip2/bzip2.go.
-- Http: Gather of gather/http/http.go.
-- Dirs: copies of directories. Rooted is internal/helpers/copydir_confined.go, behind an os.Root;
-- Trees is CopyDir and GetDirectorySize of internal/helpers/helpers.go.
-- Git: gather/git/git.go. Source has processUrl and extractKeyFromQuery, Gather has Gather with
-- go-git as a record of operations, Atoi has strconv.Atoi.
-- Oci: gather/oci/oci.go (Host has Matcher and the rewriting of localhost, Registries is about the
-- hosts that it takes, Gather has Gather with oras-go as a record of operations),
-- internal/oci/network/network.go (Network) and internal/oci/registry/client.go (Client).
-- Gather: matchers and detectors of files, git and HTTP, GetPinnedURL of the four kinds of metadata,
-- ociURLParse, getExpander, save and Gather of gather/file/file.go (Files, with expanders behind an
-- interface that those of Tar and Zip fill), GetGatherer of gather/gatherer.go, and CopyFile and
-- CopyReader of internal/helpers/helpers.go.
-- Tests: runs at concrete inputs.
--
-- How they interact: an expander resolves its limits, joins each name of an archive to the
-- destination, tests the path for containment, and copies the data with one running total for the
-- archive; a deferred removal undoes a failed extraction whose destination was missing before.
--
-- The gatherer of files hands archives to the registered expanders and copies directories; the
-- gatherer of git repositories clones to a temporary directory where the source names a
-- subdirectory, tests it for containment and copies it behind an os.Root.
--
-- Loops are structural: over the events of a tar reader, the files of a ZIP archive, the reads of a
-- stream, the entries of a directory and the components of a path. The descents into directories
-- (copy_dir_in, copy_dir, walk_size) run on fuel, one round for each level; running out of it is an
-- error that no code returns. For copy_dir_in the depth of the source is enough. What os.ReadDir
-- lists, what an os.Root shows, the readers of safearchive/tar, safearchive/zip, compress/gzip and
-- compress/bzip2, the order in which a Go map is ranged over, the random names of os.CreateTemp and
-- os.MkdirTemp, the HTTP client, the resolver, go-git, git-urls and oras-go are parameters.
--
-- Not modelled: symbolic links outside of an os.Root, os.MkdirAll of a path in which a `..` leaves a
-- missing directory (such as `missing/../b`, for which it makes `missing` too; the model returns an
-- error), a slash behind the name of a file, concurrent processes, contexts that are done, the values
-- that error messages format, and timestamps of metadata. Texts are bytes; where case
-- matters they are ASCII. The programs under examples are left out: they print what a call returns.
pub mod Base
pub mod Path
pub mod Helpers
pub mod Exec
pub mod Url
pub mod Os
pub mod Expand
pub mod Tar
pub mod Zip
pub mod Bzip2
pub mod Http
pub mod Dirs
pub mod Oci
pub mod Gather
pub mod Git
pub mod Tests
