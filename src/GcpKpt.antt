-- ===== src/GcpKpt.antt =====
-- hack/generate_gcp_kpt_data.py: the test data of the GCP package, with a value of its own for each
-- setter. Log lines are left out.
mod Ordered
mod Tests
use test_minio.Base.{
  String, Bool, true, false, Option, none, some, List, [], ◌∷◌, ok, Dict, if◌then◌else◌,
}
use test_minio.Base.Text.{strip}
use test_minio.Base.FilePath.{path_join}
use test_minio.Base.Exec.{Exec, gets, ◌>>=◌, ◌>>◌}
use test_minio.Host.{Host, Action, Actions, copy, copy_tree, remove_tree, run, act, for_each}

abbrev pub setters : Dict String
setters =
    ("gcloud.core.project", "customerProject")
    ∷ ("gcloud.project.projectNumber", "999911112222")
    ∷ ("gcloud.compute.zone", "testZone")
    ∷ ("gcloud.compute.region", "testRegion")
    ∷ ("location", "testLocation")
    ∷ ("name", "testKptName")
    ∷ ("log-firewalls", "true")
    ∷ ("mgmt-name", "testMgmtName")
    ∷ []

abbrev pub subdirs : List String
subdirs = "v2" ∷ "Kptfile" ∷ []

-- os.path.join(repo_root, "gcp", s), and in the test data
pub gcp_path : String → String → String
unfolding path_join
gcp_path dir s = path_join (path_join dir "gcp") s

pub data_dir_of : String → String
unfolding path_join
data_dir_of repo_root = path_join (path_join repo_root "tests") "testdata_gcp_kpt"

-- the command that sets one setter
pub set_command : String → String → String × String → Action
unfolding path_join
set_command kpt data_dir (k, v) =
    run (kpt ∷ "cfg" ∷ "set" ∷ "." ∷ k ∷ v ∷ []) (some (path_join data_dir "gcp"))

module _ (host : Host) where
  -- The test data of an earlier run are removed.
  unfoldable pub clear : String → Exec Actions (Unit {0})
  clear data_dir s =
      if host.exists s data_dir then act host (remove_tree data_dir) s else (ok tt, s)

  -- the body of the loop over the sources: what is not there is passed over
  pub copy_source : String → String → Exec Actions (Unit {0})
  unfolding gcp_path data_dir_of
  copy_source repo_root p s =
      let src = gcp_path repo_root p in
      let dst = gcp_path (data_dir_of repo_root) p in
      if host.exists s src
      then act host (if host.is_dir s src then copy_tree src dst else copy src dst) s
      else (ok tt, s)

  -- the steps in the repository
  pub write_data : String → String → Exec Actions (Unit {0})
  unfolding clear copy_source set_command data_dir_of
  write_data kpt repo_root =
      clear (data_dir_of repo_root)
      >> (for_each (copy_source repo_root) subdirs
          >> for_each (λ kv. act host (set_command kpt (data_dir_of repo_root) kv)) setters)

  -- Generator.write_gcp_kpt
  pub write_gcp_kpt : String → Exec Actions (Unit {0})
  unfolding strip write_data
  write_gcp_kpt kpt =
      gets (λ s. host.check_output s ("git" ∷ "rev-parse" ∷ "--show-toplevel" ∷ [])) >>= λ out.
      write_data kpt (strip out)
