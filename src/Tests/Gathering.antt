-- ===== src/Tests/Gathering.antt =====
-- Gatherers of files and repositories on a small disk.
use go_gather.Base.{
  ℕ, ◌≡◌, ◌⊎◌, refl, ap, subst, sym, ◌∙◌, All, true, false, Option, none, some, List, [], ◌∷◌, ◌++◌,
  if◌then◌else◌,
}
use go_gather.Base.Text.{Text, codes, text_eq, has_prefix, contains}
use go_gather.Path.{is_empty, locate, join_path}
use go_gather.Helpers.Climb.{ends_up}
use go_gather.Exec.{plain, Result, ok, err, is_ok, pure}
use go_gather.Os.{file, set, World, loc_eq, under}
use go_gather.Os.Places.{under_refl}
use go_gather.Os.Confined.{Confined}
use go_gather.Url.Parse.{Url, parse_url}
use go_gather.Url.Query.{Values, get_value}
use go_gather.Expand.Limits.{ExpandOptions}
use go_gather.Git.Source.{Source, extract_key, process_url}
use go_gather.Git.Keys.{extract_key-taken}
use go_gather.Git.Gather.{GoGit, System, copy_subdir, gather}
use go_gather.Helpers.Climb.{PlainlyBelow}
use go_gather.Git.Safe.{Looks, copy_subdir-Confined}
use go_gather.Gather.Files
use go_gather.Gather.Files.{Expander}
use go_gather.Gather.Files.Writes.{gather_at-Confined}
use go_gather.Gather.Files.Writes.{StaysBelow}
use go_gather.Dirs.Rooted.{Root}
use go_gather.Dirs.Rooted.Writes.{ListsNames}
use go_gather.Tar.Expander.{Codecs}
use go_gather.Tar.Below as TarBelow
use go_gather.Tar.Expander as TarExpander
use go_gather.Zip.Unzip
use go_gather.Zip.Below as ZipBelow
use go_gather.Tests.Disk.{attr, disk, world, env, listing, root}
use go_gather.Tests.Trees.{EntryName-f, ListsNames-root}

abbrev query : Values
query = (codes "ref", codes "v1//sub") ∷ (codes "x", codes "1") ∷ []

abbrev taken : Text → Text
taken other = get_value other (extract_key query (codes "ref") []).rest

extract_key-taken_example :
    (taken (codes "x")
      ≡ (if text_eq (codes "ref") (codes "x") then [] else get_value (codes "x") query))
    × (((contains (get_value (codes "ref") query) (codes "//") ≡ true)
          × ((extract_key query (codes "ref") []).value
                ++ (codes "//" ++ (extract_key query (codes "ref") []).subdir)
              ≡ get_value (codes "ref") query))
        ⊎ ((contains (get_value (codes "ref") query) (codes "//") ≡ false)
            × ((extract_key query (codes "ref") []).value ≡ get_value (codes "ref") query)
            × ((extract_key query (codes "ref") []).subdir ≡ [])))
extract_key-taken_example = extract_key-taken query (codes "ref") [] (codes "x")

abbrev shown : Result Source → Text
shown (ok s) = s.url ++ (b' ' ∷ (s.ref ++ (b' ' ∷ (s.subdir ++ (b' ' ∷ s.depth)))))
shown (err _) = codes "error"

process_url-subdir :
    shown (process_url (λ s. ok s) (codes "git::github.com/org/repo//sub/x?ref=v1&depth=1&z=2"))
    ≡ codes "https://github.com/org/repo.git?z=2 v1 sub/x 1"
unfolding process_url
process_url-subdir = refl

process_url-scp :
    shown (process_url (λ s. ok s) (codes "git@host.io:org/repo.git"))
    ≡ codes "https://host.io/org/repo.git   "
unfolding process_url
process_url-scp = refl

-- A dot, any character and a slash count as a path of a file.
process_url-dotted : shown (process_url (λ s. ok s) (codes ".a/repo")) ≡ codes "file://.a/repo   "
unfolding process_url
process_url-dotted = refl

-- A clone that makes a file `c` in the directory.
abbrev cloned : Text → World → World
cloned path w = set (codes "c" ∷ locate env.cwd path) (some (file (attr 0o644) (9 ∷ []))) w

abbrev git : GoGit
git = record {
  Repository = Unit {0};
  Worktree = Unit {0};
  Hash = Unit {0};
  parse = λ s. ok s;
  is_hash = λ s. false;
  plain_clone = λ path clone_options w. (ok tt, cloned path w);
  resolve_revision = λ r ref. pure tt;
  worktree = λ r. pure tt;
  checkout = λ w h. pure tt;
  stat_file = λ w p. pure tt;
  head = λ r. pure (codes "abc");
}

abbrev system : System
system = record {
  temp_names = codes "/g" ∷ codes "/t" ∷ [];
  open_root = λ p w. ok root;
  no_verify = none;
}

abbrev gathered : Result Text × World
gathered =
    gather env system git 3 (codes "github.com/org/repo//d?ref=main") (codes "/out") (world [])

gather-commit : gathered.0 ≡ ok (codes "abc")
unfolding gather loc_eq
gather-commit = refl

gather-copied : is_ok gathered.0 ≡ true
unfolding gather loc_eq
gather-copied = refl

Looks-git : Looks git
Looks-git = record { worktree_tree = λ r w. refl; stat_tree = λ t p w. refl }

same_root : (r : Root) → Result.ok root ≡ ok r → root ≡ r
same_root r e = cc e

copy_subdir-Confined_example :
    (copy_subdir env system git 1 (codes "/t") (codes "d") (codes "/out") tt (world [])
      ≡ (err (plain "subdir %q traverses outside the repository root"), world []))
    ⊎ (PlainlyBelow
          (locate env.cwd (codes "/t"))
          (locate env.cwd (join_path (codes "/t") (codes "d")))
        × Confined
            (locate env.cwd (codes "/out"))
            disk
            (copy_subdir env system git 1 (codes "/t") (codes "d") (codes "/out") tt (world [])).1)
unfolding is_empty ends_up
copy_subdir-Confined_example =
    copy_subdir-Confined env system git 1 (codes "/t") (codes "d") (codes "/out") tt (world [])
      Looks-git (λ p w r found. subst ListsNames (same_root r found) ListsNames-root) refl refl

abbrev codecs : Codecs
codecs = record {
  Reader = Option (List ℕ);
  input = λ b. b;
  gzip_reader = λ r. ok r;
  bzip2_reader = λ r. r;
  tar_events = λ r. [];
}

abbrev no_options : ExpandOptions
no_options = record { max_entry_size = 0; max_total_size = 0; files_limit = 0 }

-- The registered expanders of tar and ZIP archives.
abbrev tar_expander : Expander
tar_expander = record {
  matcher = TarExpander.matcher;
  expand = λ src dst umask. TarExpander.expand env codecs (λ s. s) no_options src dst;
}

abbrev zip_expander : Expander
zip_expander = record {
  matcher = Unzip.matcher;
  expand = λ src dst umask. Unzip.expand env (λ b. ok []) no_options src dst umask;
}

abbrev expanders : List Expander
expanders = tar_expander ∷ zip_expander ∷ []

down : ends_up (codes "/out") ≡ false
unfolding ends_up
down = refl

no_home : has_prefix (codes "/out") (codes "~") ≡ false
unfolding has_prefix
no_home = refl

laws : All (StaysBelow env (codes "/out")) expanders
laws = (
  λ t src umask.
      TarBelow.Stays-expand env (λ s. s) (λ Allowed seen h. h) (codes "/out") down t codecs
        no_options src no_home,
  (
    λ t src umask.
        ZipBelow.Stays-expand env (codes "/out") down t (λ b. ok []) no_options src umask no_home,
    tt,
  ),
)

abbrev path_of : Result Url → Text
path_of (ok u) = u.path
path_of (err _) = []

out_parsed : path_of (parse_url (codes "/out")) ≡ codes "/out"
unfolding parse_url
out_parsed = refl

out_path :
    (u : Url)
    → parse_url (codes "/out") ≡ ok u
    → under (locate env.cwd (codes "/out")) (locate env.cwd u.path) ≡ true
out_path u e =
    subst (λ p. under (locate env.cwd (codes "/out")) (locate env.cwd p) ≡ true)
      (sym out_parsed ∙ ap path_of e) (under_refl (locate env.cwd (codes "/out")))

gather_at-Confined_example :
    Confined
      (locate env.cwd (codes "/out"))
      disk
      (Files.gather_at env listing expanders 3 (codes "/g") (codes "/out") (world [])).1
unfolding is_empty
gather_at-Confined_example =
    gather_at-Confined env listing expanders 3 (codes "/g") (codes "/out") (world [])
      (λ t l. (EntryName-f, tt)) laws refl out_path
