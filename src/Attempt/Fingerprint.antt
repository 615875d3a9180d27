-- ===== src/Attempt/Fingerprint.antt =====
-- src/nexus_vector/domain/execution_attempts.py: the fingerprint of the material of a request, which is
-- normalised before it is hashed.
use Prim.Native.String.{String, compare, ◌++◌ as str_append}
use package.text.Mathlib.Text.{is_le}
use nexus_vector_keeperhub.Prelude.{Bool, false, ◌||◌, ◌==◌, if◌then◌else◌}
use nexus_vector_keeperhub.Errors.{ErrorClass, Code, Result, ok, fail, ◌>>=◌}
use nexus_vector_keeperhub.Runtime.{
  Runtime, Json, Items, Members, text, number, negative, boolean, null, array, object, end, item,
  close, member,
}
use nexus_vector_keeperhub.Attempt.{required_string}

-- `normalized_key in normalized_items`
unfoldable pub has_key : String → Members → Bool
has_key key close = false
has_key key (member k v rest) = k == key || has_key key rest

-- The items in the order of their keys.
unfoldable pub insert_member : String → Json → Members → Members
insert_member key value close = member key value close
insert_member key value (member k v rest) =
    let later = insert_member key value rest in
    if is_le (compare key k) then member key value (member k v rest) else member k v later

module _ (rt : Runtime) where
  unfoldable mutual
    -- `_normalize_json`
    pub normalize_json : Json → Result Json
    normalize_json (text s) = ok (text (rt.nfc s))
    normalize_json (number n) = ok (number n)
    normalize_json (negative n) = ok (negative n)
    normalize_json (boolean b) = ok (boolean b)
    normalize_json null = ok null
    normalize_json (array items) = do xs ← normalize_items items; ok (array xs)
    normalize_json (object members) = do ms ← normalize_members close members; ok (object ms)

    pub normalize_items : Items → Result Items
    normalize_items end = ok end
    normalize_items (item x rest) = do
      y ← normalize_json x
      ys ← normalize_items rest
      ok (item y ys)

    -- The first argument is what `normalized_items` holds already.
    pub normalize_members : Members → Members → Result Members
    normalize_members done close = ok done
    normalize_members done (member key value rest) =
        if has_key (rt.nfc key) done
        then fail ErrorClass.attempt Code.duplicate_normalized_key
        else do v ← normalize_json value; normalize_members (insert_member (rt.nfc key) v done) rest

  unfoldable pub derive_request_fingerprint : String → String → Json → Result String
  derive_request_fingerprint provider_namespace request_key material = do
    namespace ← required_string rt provider_namespace Code.invalid_provider_namespace
    key ← required_string rt request_key Code.invalid_request_key
    canonical ← normalize_json (
        object (
          member "provider_namespace" (text namespace)
            (member "request_key" (text key) (member "request_material" material close))))
    ok (
        str_append "xrf_"
          (rt.sha256 (str_append "nexus-vector:execution-request:v1\0" (rt.dumps canonical))))
