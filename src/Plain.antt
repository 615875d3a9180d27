-- ===== src/Plain.antt =====
-- The check of an opaque reference, which several modules of src/nexus_vector repeat with an
-- exception class of their own: not empty, no white space at its ends, at most 256 characters, and
-- no control characters.
use nexus_vector_keeperhub.Prelude.{ℕ, String, Bool, not, ◌||◌, ◌==◌, ltb, nat_eq, length, any}
use nexus_vector_keeperhub.Prelude.Ids.{codes}
use nexus_vector_keeperhub.Errors.{ErrorClass, Code, Result, ok, ◌>>◌, reject_if}
use nexus_vector_keeperhub.Runtime.{Runtime}

-- `ord(character) < 32 or ord(character) == 127`
abbrev pub is_control : ℕ → Bool
is_control c = ltb c 32 || nat_eq c 127

-- The guard fails.
unfoldable pub is_unplain : Runtime → String → Bool
is_unplain rt s =
    s == "" || not (rt.strip s == s) || ltb 256 (length (codes s)) || any is_control (codes s)

-- `_approval_reference` and `_required_text`
unfoldable pub plain_text : Runtime → ErrorClass → String → Code → Result String
plain_text rt c value code = do reject_if (is_unplain rt value) c code; ok value
