-- ===== src/Dstest/Paths.antt =====
-- gcpapi/datastore/dstest/datastore_emulator.go: where the repository and its lock files are, found
-- by git; `loadIndexYAML` of gcpapi/datastore/dstest/index_yaml.go. A result none is a panic. The
-- working directory, the environment and the running of a command are parameters.
use mathlib.Core.List.{reverse}
use gcp_emulator_pool.Common.{
  inl, inr, Bool, true, false, ◌||◌, ◌==◌, leb, ◌&&◌, Option, none, some, List, [], ◌∷◌, ◌++◌,
  if◌then◌else◌, Str, bytes, str_discrete, ite,
}
use gcp_emulator_pool.Dstest.Os.{Os, Index, Answer}
use gcp_emulator_pool.Dstest.Calls.{Try, fail, done, hangs}

-- `strings.TrimSpace` for ASCII.
unfoldable pub trim_space_left : Str → Str
trim_space_left [] = []
trim_space_left (c ∷ s) =
    let rest = trim_space_left s in if c == 32 || leb 9 c && leb c 13 then rest else c ∷ s

unfoldable pub trim_space : Str → Str
unfolding trim_space_left
trim_space s = reverse (trim_space_left (reverse (trim_space_left s)))

module _ (os : Os) (goos : Str) (getwd : os.World → Answer os.Error Str) (env_pwd : os.World → Str)
    (new_error : Str → os.Error)
    (run : Str → List Str → Str → os.World → (Str × Option os.Error) × os.World) where
  open os use {World, Error, join, wrap_with_fields}

  -- `getWD`.
  unfoldable pub get_wd : World → Str
  get_wd w = elim (getwd w) [ inl e ↦ env_pwd w | inr cwd ↦ cwd ]

  -- `CommandWithBasePath`: the output and the error.
  unfoldable pub command_with_base_path :
      Str → Str → List Str → World → (Str × Option Error) × World
  command_with_base_path command base_path cmds w =
      if is_goos (bytes "windows")
      then run (command ++ bytes ".exe") cmds base_path w
      else if is_goos (bytes "linux") || is_goos (bytes "darwin")
      then run command cmds base_path w
      else (([], some (new_error (bytes "unsupported platform"))), w)
    where
      is_goos : Str → Bool
      is_goos s = ite (str_discrete goos s) true false

  -- `GitRepoLocalRoot`.
  unfoldable pub git_repo_local_root : Str → World → Answer Error Str × World
  unfolding command_with_base_path
  git_repo_local_root base_path w =
      let ((output, err), w) =
        command_with_base_path (bytes "git") base_path
          (bytes "rev-parse" ∷ bytes "--show-toplevel" ∷ []) w in
      elim err [
        | some e ↦ (inl (wrap_with_fields e ((bytes "git-rev-parse-output", output) ∷ [])), w)
        | none ↦ (inr (trim_space output), w)
      ]

  -- `LockDirPath`, with its variable `lockDirAbsPath`; the result is also its new value.
  unfoldable pub lock_dir_path_of : Str → World → Option Str × World
  unfolding git_repo_local_root get_wd
  lock_dir_path_of lock_dir_abs_path w =
      ite (str_discrete lock_dir_abs_path [])
        (let (root, w) = git_repo_local_root (get_wd w) w in
          elim root [
            | inl e ↦ (none, w)
            | inr repo_root ↦
                (some (join repo_root (bytes "pkg/gcpapi/datastore/dstest/lockfiles")), w)
          ])
        (some lock_dir_abs_path, w)

  -- `loadIndexYAML`, with `_yamlIndexes` as it is after the once, or none before it. A reader that
  -- does not return cannot occur.
  unfoldable pub load_index_yaml :
      (Str → World → Try Error (List Index) × World)
      → Option (List Index)
      → World
      → Option (List Index) × World
  unfolding git_repo_local_root get_wd
  load_index_yaml read_yaml (some indexes) w = (some indexes, w)
  load_index_yaml read_yaml none w =
      let (root, w) = git_repo_local_root (get_wd w) w in
      elim root [
        | inl e ↦ (none, w)
        | inr repo_root ↦
            let (read, w) =
              read_yaml (join repo_root (bytes "pkg/gcpapi/datastore/dstest/index.yaml")) w in
            elim read [ done indexes ↦ (some indexes, w) | fail e ↦ (none, w) | hangs ↦ (none, w) ]
      ]
