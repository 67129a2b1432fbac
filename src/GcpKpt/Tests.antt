-- ===== src/GcpKpt/Tests.antt =====
-- Runs of `write_gcp_kpt` on small repositories, and the theorem at one.
use test_minio.Base.{◌==◌, ◌||◌, ◌≡◌, refl, true, some, [], ◌∷◌, ok, err, os_error}
use test_minio.Host.{Host, Actions, copy_tree, remove_tree, run}
use test_minio.Host.Keeps.{pushed}
use test_minio.Base.FilePath.{ends_with_slash}
use test_minio.GcpKpt.{setters, set_command, write_gcp_kpt}
use test_minio.GcpKpt.Ordered.{Regenerated, write_gcp_kpt-Regenerated}

-- A repository with the test data of an earlier run, and a directory gcp/v2.
abbrev repository : Host
repository = record {
  exists = λ s p. p == "/r/gcp/v2" || p == "/r/tests/testdata_gcp_kpt";
  is_dir = λ s p. true;
  list_dir = λ s p. ok [];
  walk = λ s p. [];
  make_temp = λ s. ok "/tmp";
  check_output = λ s argv. ok "/r\n";
  load = λ s p. err os_error;
  perform = λ s a. ok tt;
}

abbrev prepared : Actions
prepared =
    copy_tree "/r/gcp/v2" "/r/tests/testdata_gcp_kpt/gcp/v2"
    ∷ remove_tree "/r/tests/testdata_gcp_kpt"
    ∷ []

earlier_data_replaced :
    write_gcp_kpt repository "kpt" []
    ≡ (ok tt, pushed (set_command "kpt" "/r/tests/testdata_gcp_kpt") setters prepared)
unfolding write_gcp_kpt
earlier_data_replaced = refl

last_setter :
    set_command "kpt" "/r/tests/testdata_gcp_kpt" ("mgmt-name", "testMgmtName")
    ≡ run
        ("kpt" ∷ "cfg" ∷ "set" ∷ "." ∷ "mgmt-name" ∷ "testMgmtName" ∷ [])
        (some "/r/tests/testdata_gcp_kpt/gcp")
unfolding set_command
last_setter = refl

write_gcp_kpt-Regenerated_example :
    Regenerated repository "/r" "kpt" (write_gcp_kpt repository "kpt" []).1
unfolding write_gcp_kpt ends_with_slash
write_gcp_kpt-Regenerated_example =
    write_gcp_kpt-Regenerated repository "kpt" "/r\n" refl (refl, refl) refl
