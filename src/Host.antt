-- ===== src/Host.antt =====
-- The machine that the scripts of hack/ run on, as far as they use it: the files, the directories and
-- the commands. What it answers is a parameter, and may depend on what the script has done to it.
pub mod Keeps
pub mod Steps
use test_minio.Base.{String, Bool, Option, List, ◌∷◌, [], Result, ok}
use test_minio.Base.Exec.{Exec, continue}
use test_minio.Base.Value.{Value}

-- What a script does to the machine: `os.makedirs`, `shutil.copy2` and `copyfile`, `shutil.copytree`,
-- `shutil.rmtree`, writing a YAML document or a text to a file, and `subprocess.check_call` with its
-- arguments and its directory.
pub data Action : Type 0 where
  make_dirs remove_tree : String → Action
  copy copy_tree : String → String → Action
  write : String → Value → Action
  write_text : String → String → Action
  run : List String → Option String → Action

-- The actions of a script so far, the latest first.
abbrev pub Actions : Type 0
Actions = List Action

-- What the machine answers after some actions: `os.path.exists` and `isdir`, `os.listdir`, `os.walk`
-- (each directory with the names of those in it), `tempfile.mkdtemp`, the output of a command, and
-- reading a file and parsing it as YAML. `perform` says whether one more action raises.
pub record Host : Type 0 where
  pub exists : Actions → String → Bool
  pub is_dir : Actions → String → Bool
  pub list_dir : Actions → String → Result (List String)
  pub walk : Actions → String → List (String × List String)
  pub make_temp : Actions → Result String
  pub check_output : Actions → List String → Result String
  pub load : Actions → String → Result Value
  pub perform : Actions → Action → Result (Unit {0})

-- One action. An attempt that raises is noted, too: it may have been done in part.
abbrev pub act : Host → Action → Exec Actions (Unit {0})
act host a s = (host.perform s a, a ∷ s)

module _ {S A : Type 0} where
  -- for x in xs: body(x)
  abbrev pub for_each : (A → Exec S (Unit {0})) → List A → Exec S (Unit {0})
  for_each body [] s = (ok tt, s)
  for_each body (x ∷ xs) s = continue (body x s).0 (λ _. for_each body xs) (body x s).1
