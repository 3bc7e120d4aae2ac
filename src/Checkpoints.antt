-- ===== src/Checkpoints.antt =====
-- app/services/checkpoint_versioning.py: the versions of saved graph states. The version of a state is
-- what it has for `graph_version`.
use Prim.Native.String.{◌++◌ as concat}
use careerops_agent.Shared.{String, Option, none, some, if◌then◌else◌, ◌==◌, Eq_text, Exception}

abbrev pub unversioned_checkpoint : String
unversioned_checkpoint = "unversioned"

-- `checkpoint_version`
abbrev pub checkpoint_version : (graph_version : Option String) → String
checkpoint_version none = unversioned_checkpoint
checkpoint_version (some v) = if v == "" then unversioned_checkpoint else v

abbrev pub checkpoint_version_error : String → Exception
checkpoint_version_error text = record { kind = "CheckpointVersionError"; text = text }

-- `require_checkpoint_version`: the text of the error, if the version is another.
unfoldable pub require_checkpoint_version :
    (graph_name expected_version : String) (graph_version : Option String) → Option String
require_checkpoint_version graph_name expected_version version =
    if checkpoint_version version == expected_version
    then none
    else some (
        concat graph_name (
          concat " checkpoint version '" (
            concat (checkpoint_version version) (
              concat "' is incompatible with runtime version '"
                (concat expected_version "'; migrate the checkpoint explicitly")))))

-- `require_explicit_source_version`, in the same way.
unfoldable pub require_explicit_source_version :
    (source_version : String) (graph_version : Option String) → Option String
require_explicit_source_version source_version version =
    if checkpoint_version version == source_version
    then none
    else some (
        concat "checkpoint source version is '" (
          concat (checkpoint_version version)
            (concat "', not requested '" (concat source_version "'"))))
