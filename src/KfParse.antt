-- ===== src/KfParse.antt =====
-- utils/kf_parse.py: the images named in a KFDef, as JSON with JSON texts inside. The traversal is in
-- KfParse/Extract, what it does with one text in KfParse/Inline. Parsing JSON and the text of a value
-- that is no text are parameters; a file is given by its text or its lines.
pub mod Inline
pub mod Extract
pub mod Lines
pub mod Depth
pub mod Missed
pub mod Images
mod Tests
use test_minio.Base.{String, Option}
use test_minio.Base.Value.{Value}

-- json.loads: `none` is `JSONDecodeError`
abbrev pub Loads : Type 0
Loads = String → Option Value
