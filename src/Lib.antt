-- ===== src/Lib.antt =====
-- The Python programs of the Kubeflow manifests: the entry points that prepare secrets during the
-- bootstrap of a cluster, the profile controllers that say what each namespace should contain, the
-- scripts that keep and list the images of the packages, and the generators of hack/.
--
-- The parts, by file:
--   Base64        `b64encode` and `b64decode` of the entry points, with the codecs and the base64
--                 functions of Python's standard library that they call (Base64/Codec, Base64/Bytes).
--   Cluster       The Kubernetes client: an interface of reading and creating secrets. What is proved
--                 of a run on a cluster asks for its laws (IsLawful): a secret that has been created
--                 can be read, under its name. Cluster/Memory is a cluster
--                 that is a list of secrets and has these laws.
--   MinioConfig   bootstrap/components/minio-config/entrypoint.py. `main` is the script: it reads the
--                 external secret (`read_data`), falls back on the default configuration (`recover`),
--                 and creates the secret of Kubeflow (`create`).
--   DexSecret     bootstrap/components/dex-secret-ldap/entrypoint.py. `main` is the script: it reads
--                 the authentication secret, builds the configuration of Dex (`configured`), and
--                 creates its secret where it is absent. DexSecret/Reading has the fields of the
--                 secret, DexSecret/Connector the connector and its settings, DexSecret/Groups the
--                 group search.
--   ProfileController  The webhook of metacontroller, in three versions: Pipeline is
--                 apps/pipeline/upstream/base/installs/multi-user/pipelines-profile-controller/sync.py,
--                 Tekton the same file of apps/kfp-tekton, and Openshift is
--                 distributions/stacks/openshift/application/pipeline/sync.py. Each `sync` maps the
--                 parent and its observed children to a status and the desired resources;
--                 ProfileController/Resources has the resources that the versions share, and
--                 `do_post` is the answer to a request.
--   PodsValidator utils/pods-validator.py: which templates of pods are still to be seen.
--   ExtractImages tests/scripts/extract_images.py: ExtractImages/Reference parses the reference to an
--                 image, ExtractImages/Images keeps the list of images, ExtractImages itself scans the
--                 files of a package, and ExtractImages/Dirs finds the packages.
--   KfParse       utils/kf_parse.py: the images of a KFDef and of an application's list.
--                 KfParse/Extract is the search through a document, with the texts that are JSON
--                 themselves, KfParse/Inline the forms of an image, KfParse/Images the list without
--                 repetitions, KfParse/Lines the functions on lines.
--   Kptfile       hack/create_kptfile.py: the commands that make a Kpt package, as lists of commands
--                 (Kptfile/Creator), and stripping comments (Kptfile/Comments).
--   LegacyKustomizations  hack/generate_legacy_kustomizations.py: Rewrite has the paths of an
--                 application, Generators its configMapGenerator, and `generate` is the script.
--   KfdefSpecs    hack/build_kfdef_specs.py: `build_specs` is the script, `new_name` names a file.
--   GcpKpt        hack/generate_gcp_kpt_data.py: `write_gcp_kpt` is the script.
--   GenerateTests hack/generate_tests.py: `regenerate` is the script, `package_dir` the path that leads
--                 from a test to its package.
--   Host          The machine that the last four scripts run on: their actions on files, directories
--                 and commands, the latest first, and what the machine answers after some actions.
--                 Host/Keeps is for what every action of a script satisfies, Host/Steps for what a
--                 loop that ends well has done.
--   Environ, Base The environment; exceptions, texts, dictionaries and the values of JSON and YAML.
--
-- How the code is modelled. An exception is an `err` with a constructor for its class, a function that
-- may raise returns a `Result`, and a script is an action that passes the state of the cluster on and
-- keeps it when it raises (Base/Exec). `sys.exit` is an exception, as in Python. A dictionary keeps its
-- insertion order. A dictionary that a function changes in place is passed in and returned, since no
-- script keeps a second reference to one that it changes. A value of JSON or YAML is `Value` (Base/Value),
-- where a number that is no natural number, or a date, is known by its truth value only. Texts are
-- sequences of Unicode scalar values. `lower` changes the letters of ASCII only.
--
-- Loops are recursion on the list that they walk, so every function is total. The search for
-- directories is recursion on the tree of folders. The extraction of KfParse recurs on the document
-- and, for a text that is JSON itself, on what the text parses to: there it takes a depth, and ends
-- with `recursion_error` where that is used up. A depth beyond the length of the longest text is
-- enough. A number is written in decimal by counting up from "0" (Base/Decimal).
--
-- Not modelled, and parameters where they are used: parsing and printing JSON and YAML (`loads`,
-- `dumps`, `template`, `dump`, `Loads`), the Kubernetes client, the contents of files and folders, and
-- running commands (`Host`, `Calls`). Left out: connecting to the cluster, the HTTP server around
-- `do_post`, log lines, command lines, `os.path.abspath`, whose result the caller gives, the manifests
-- themselves, which are data, and the tests in Go.
-- A name of a generator that is a float or a date is taken to differ from every other such name.
-- An `images` of a kustomization that is no list is outside the model of ExtractImages.
pub mod Base
pub mod Base64
pub mod Cluster
pub mod Environ
pub mod MinioConfig
pub mod DexSecret
pub mod ProfileController
pub mod ExtractImages
pub mod PodsValidator
pub mod Kptfile
pub mod KfParse
pub mod Host
pub mod LegacyKustomizations
pub mod KfdefSpecs
pub mod GcpKpt
pub mod GenerateTests
