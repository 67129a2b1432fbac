-- ===== src/ExtractImages/Daemons.antt =====
-- Kinds are lowered before they are looked up, and "daemonSet" is not in lower case.
use test_minio.Base.{elem, String, ◌≡◌, refl, some, List, ok}
use test_minio.Base.Text.{lower}
use test_minio.Base.Value.{Value, Fields, str, dict, find}
use test_minio.ExtractImages.{scan_resource, kind_of}

kind_of-str :
    (d : Fields) (kind : String) → find "kind" d ≡ some (str kind) → kind_of d ≡ ok (lower kind)
unfolding kind_of
kind_of-str d kind e = rw (e, kind_of) refl

-- A document whose kind is DaemonSet, in whatever case, is passed over by the scan of images.
pub scan_resource-daemonset :
    (l : List Value) (d : Fields) (kind : String)
    → find "kind" d ≡ some (str kind)
    → lower kind ≡ "daemonset"
    → scan_resource l (dict d) ≡ ok l
unfolding scan_resource elem
scan_resource-daemonset l d kind e h = rw (kind_of-str d kind e) (rw h refl)
